-- ===== src/MfBroker/Connections/Teardown.antt =====
-- MFConnection_Clear and MFConnection_Release of mfbroker/mfbroker.c on a connection with queued
-- messages.
use avtalk.Base.{
  ℕ, suc, ◌+◌, ◌-◌, ◌^◌, ◌<◌, ◌≡◌, refl, sym, ap, ◌∙◌, ◌≢◌, false, none, some, List, [], ◌∷◌, arith,
  length, ◌==◌, if◌then◌else◌, eq→==,
}
use avtalk.MfMemory.{Ptr, null, Memory, ref_mem_release}
use avtalk.MfList.Ring.{NotIn, Distinct}
use avtalk.MfBroker.Connections.{Store, put, clear_loop, release}

-- The messages of connection `conn`: blocks of their own with one reference each.
abbrev pub Queued : ℕ → List Ptr → Store → Type 0
Queued conn [] s = Unit {0}
Queued conn (p ∷ ps) s =
    (p ≢ null)
    × ((n : ℕ) × (s.memory p ≡ some (record { refs = 1; size = n })))
    × ((s.listed p).connection ≡ conn)
    × Queued conn ps s

-- `owners` references of connection `conn` beside the one that each queued message holds.
pub record IsHeld (conn owners : ℕ) (queue : List Ptr) (s : Store) : Type 0 where
  pub count : (s.connections conn).reference_count ≡ owners + length queue
  pub range : owners + length queue < 2 ^ 32 - 1
  pub queue_eq : (s.connections conn).messages_to_send ≡ queue
  pub lock_eq : (s.connections conn).send_lock ≡ some 0
  pub distinct : Distinct queue
  pub queued : Queued conn queue s

abbrev pub AllFree : List Ptr → Memory → Type 0
AllFree [] m = Unit {0}
AllFree (p ∷ ps) m = (m p ≡ none) × AllFree ps m

-- The messages `ps` are freed, the connection has `n` references, and nothing else changed.
pub record Freed (conn n : ℕ) (ps : List Ptr) (s t : Store) : Type 0 where
  pub connection : t.connections conn ≡ record (s.connections conn) { reference_count = n }
  pub other_connections : (c : ℕ) → c ≢ conn → t.connections c ≡ s.connections c
  pub listed : t.listed ≡ s.listed
  pub closed : t.closed ≡ s.closed
  pub other_blocks : (a : Ptr) → NotIn a ps → t.memory a ≡ s.memory a
  pub freed : AllFree ps t.memory

-- One round of the loop.
pub round :
    (depth conn n p : ℕ) (s : Store)
    → (s.connections conn).reference_count ≡ suc (suc n)
    → n + 2 < 2 ^ 32
    → p ≢ null
    → ((k : ℕ) × (s.memory p ≡ some (record { refs = 1; size = k })))
    → (s.listed p).connection ≡ conn
    → (t : Store) × ((ps : List Ptr)
        → clear_loop (release (suc depth)) (p ∷ ps) s ≡ clear_loop (release (suc depth)) ps t)
      × Freed conn (suc n) (p ∷ []) s t
unfolding clear_loop release ref_mem_release put
round depth conn n p s c b q (k, m) l =
    let live : (p == 0) ≡ false = ground arith in
    let t : Store = record s {
      memory = λ a. if a == p then none else s.memory a;
      connections =
          put conn (record (s.connections conn) { reference_count = suc n }) s.connections;
    } in
    let same = eq→== conn conn refl in
    let same' = eq→== p p refl in
    (
      t,
      λ ps. ground arith,
      record {
        connection = ground arith;
        other_connections = λ a h. ground arith;
        listed = refl;
        closed = refl;
        other_blocks = λ a h. ground arith;
        freed = ground arith;
      },
    )

pub Queued-Freed :
    (conn n p : ℕ) (ps : List Ptr) (s t : Store)
    → Freed conn n (p ∷ []) s t
    → NotIn p ps
    → Queued conn ps s
    → Queued conn ps t
Queued-Freed conn n p [] s t f d q = tt
Queued-Freed conn n p (x ∷ ps) s t f d q =
    let (live, (k, m), l, more) = q in
    let same : t.memory x ≡ s.memory x = f.other_blocks x (λ e. d.0 (sym e), tt) in
    let listed : t.listed x ≡ s.listed x = ap (λ g. g x) f.listed in
    (
      live,
      (k, same ∙ m),
      ap (λ r. r.connection) listed ∙ l,
      Queued-Freed conn n p ps s t f d.1 more,
    )

AllFree-cons :
    (conn n p : ℕ) (ps : List Ptr) (s t : Store)
    → s.memory p ≡ none
    → NotIn p ps
    → Freed conn n ps s t
    → AllFree (p ∷ ps) t.memory
AllFree-cons conn n p ps s t m d f = (f.other_blocks p d ∙ m, f.freed)

pub Freed-trans :
    (conn n k p : ℕ) (ps : List Ptr) (s t u : Store)
    → NotIn p ps
    → Freed conn k (p ∷ []) s t
    → Freed conn n ps t u
    → Freed conn n (p ∷ ps) s u
Freed-trans conn n k p ps s t u d f g = record {
  connection = rw f.connection at g.connection;
  other_connections = λ c h. g.other_connections c h ∙ f.other_connections c h;
  listed = g.listed ∙ f.listed;
  closed = g.closed ∙ f.closed;
  other_blocks = λ a h. g.other_blocks a h.1 ∙ f.other_blocks a (h.0, tt);
  freed = AllFree-cons conn n p ps t u f.freed.0 d g;
}

pub Freed-nil :
    (conn n : ℕ) (s : Store) → (s.connections conn).reference_count ≡ n → Freed conn n [] s s
Freed-nil conn n s c = record {
  connection = rw (sym c) refl;
  other_connections = λ c h. refl;
  listed = refl;
  closed = refl;
  other_blocks = λ a h. refl;
  freed = tt;
}

-- The whole loop, while some other reference is left.
pub loop-Freed :
    (depth conn n : ℕ) (ps : List Ptr) (s : Store)
    → (s.connections conn).reference_count ≡ suc n + length ps
    → suc n + length ps < 2 ^ 32
    → Distinct ps
    → Queued conn ps s
    → (t : Store) × (clear_loop (release (suc depth)) ps s ≡ some (tt, t))
      × Freed conn (suc n) ps s t
unfolding clear_loop
loop-Freed depth conn n [] s c b d q = (s, refl, Freed-nil conn (suc n) s (omega arith))
loop-Freed depth conn n (p ∷ ps) s c b d q =
    let (live, m, l, more) = q in
    let (t, step, f) = round depth conn (n + length ps) p s (omega arith) (omega arith) live m l in
    let k : (t.connections conn).reference_count ≡ suc (n + length ps) =
      ap (λ r. r.reference_count) f.connection in
    let (u, run, g) =
      loop-Freed depth conn n ps t (omega arith) (omega arith) d.1
        (Queued-Freed conn (suc (n + length ps)) p ps s t f d.0 more) in
    (u, step ps ∙ run, Freed-trans conn (suc n) (suc (n + length ps)) p ps s t u d.0 f g)
