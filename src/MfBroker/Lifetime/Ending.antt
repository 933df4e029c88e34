-- ===== src/MfBroker/Lifetime/Ending.antt =====
-- The last loop of MFBroker_Free in mfbroker/mfbroker.c, round by round.
pub mod Loop
use mathlib.Core.Path.{subst}
use avtalk.Base.{
  ℕ, zero, suc, ◌+◌, ◌*◌, ◌-◌, ◌≤◌, ◌<◌, ◌≡◌, refl, sym, ap, ◌∙◌, ◌≢◌, true, false, Option, none,
  some, List, [], ◌∷◌, arith, if◌then◌else◌, ◌==◌, Bool-cases, Option-cases, inl, inr, ltb, ◌⊎◌,
}
use avtalk.Base.Fault.{Cmd, ◌>>=◌, ◌>>◌}
use avtalk.MfMemory.{Ptr}
use avtalk.MfList.Ring.{NotIn}
use avtalk.MfBroker.Slots.{is_free, max_connections, next, first}
use avtalk.MfBroker.Slots.Search.{IsFirst, next-IsFirst}
use avtalk.MfBroker.Connections.{Store, Connection, clear, release}
use avtalk.MfBroker.Connections.Teardown.{IsHeld, Queued, AllFree}
use avtalk.MfBroker.Connections.Clear.{clear-release}
use avtalk.MfBroker.Lifetime.{states_of, clear_slots, clear_all}

abbrev pub Apart : List Ptr → List Ptr → Type 0
Apart [] qs = Unit {0}
Apart (p ∷ ps) qs = NotIn p qs × Apart ps qs

-- The messages that wait in slot `c`.
abbrev pub waiting : Store → ℕ → List Ptr
waiting s c = if is_free (states_of s c) then [] else (s.connections c).messages_to_send

-- In each slot in use from `from` on, the broker holds one reference, each queued message another,
-- and no message is queued twice.
pub record IsReady (from : ℕ) (s : Store) : Type 0 where
  pub held :
      (c : ℕ)
      → from ≤ c
      → c < max_connections
      → is_free (states_of s c) ≡ false
      → IsHeld c 1 (s.connections c).messages_to_send s
  pub apart :
      (c d : ℕ)
      → c ≢ d
      → from ≤ c
      → from ≤ d
      → c < max_connections
      → d < max_connections
      → Apart (waiting s c) (waiting s d)

-- The slots from `from` on are free, and their messages too; nothing else changed.
pub record Emptied (from : ℕ) (s t : Store) : Type 0 where
  pub free : (c : ℕ) → from ≤ c → c < max_connections → is_free (states_of t c) ≡ true
  pub before : (c : ℕ) → c < from → t.connections c ≡ s.connections c
  pub freed : (c : ℕ) → from ≤ c → c < max_connections → AllFree (waiting s c) t.memory
  pub kept :
      (a : Ptr)
      → ((c : ℕ) → from ≤ c → c < max_connections → NotIn a (waiting s c))
      → t.memory a ≡ s.memory a

waiting_used :
    (s : Store) (c : ℕ)
    → is_free (states_of s c) ≡ false
    → waiting s c ≡ (s.connections c).messages_to_send
waiting_used s c h = rw h refl

waiting_free : (s : Store) (c : ℕ) → is_free (states_of s c) ≡ true → waiting s c ≡ []
waiting_free s c h = rw h refl

Queued-kept :
    (conn : ℕ) (ps qs : List Ptr) (s t : Store)
    → t.listed ≡ s.listed
    → ((a : Ptr) → NotIn a qs → t.memory a ≡ s.memory a)
    → Apart ps qs
    → Queued conn ps s
    → Queued conn ps t
Queued-kept conn [] qs s t l m a q = tt
Queued-kept conn (p ∷ ps) qs s t l m (a, more) (live, (n, e), c, q) =
    (live, (n, m p a ∙ e), ap (λ f. (f p).connection) l ∙ c, Queued-kept conn ps qs s t l m more q)

AllFree-kept :
    (from : ℕ) (ps : List Ptr) (s t u : Store)
    → ((a : Ptr)
        → ((c : ℕ) → from ≤ c → c < max_connections → NotIn a (waiting t c))
        → u.memory a ≡ t.memory a)
    → ((c : ℕ) → from ≤ c → c < max_connections → Apart ps (waiting t c))
    → AllFree ps t.memory
    → AllFree ps u.memory
AllFree-kept from [] s t u m a f = tt
AllFree-kept from (p ∷ ps) s t u m a (e, f) =
    (m p (λ c l h. (a c l h).0) ∙ e, AllFree-kept from ps s t u m (λ c l h. (a c l h).1) f)

Ordering-cases : (d c : ℕ) → (d < c) ⊎ ((d ≡ c) ⊎ (suc c ≤ d))
Ordering-cases d c = elim (Bool-cases (ltb d c)) [
  | inl below ↦ inl (ground arith)
  | inr above ↦ elim (Bool-cases (d == c)) [
    | inl here ↦ inr (inl (ground arith))
    | inr other ↦ inr (inr (ground arith))
  ]
]

-- What one round does to the slot `c`.
abbrev Round : ℕ → Store → Store → Type 0
Round c s t =
    (is_free (states_of t c) ≡ true)
    × ((d : ℕ) → d ≢ c → t.connections d ≡ s.connections d)
    × ((a : Ptr) → NotIn a (waiting s c) → t.memory a ≡ s.memory a)
    × AllFree (waiting s c) t.memory
    × (t.listed ≡ s.listed)

one_round :
    (depth c : ℕ) (s : Store)
    → is_free (states_of s c) ≡ false
    → IsHeld c 1 (s.connections c).messages_to_send s
    → (t : Store) × ((do clear (suc depth) c; release (suc depth) c) s ≡ some (tt, t)) × Round c s t
one_round depth c s used h =
    let (t, run, conn, others, mem, freed, out, listed) =
      clear-release depth c (s.connections c).messages_to_send s h in
    let w = waiting_used s c used in
    (
      t,
      run,
      (
        ap (λ r. is_free r.state) conn,
        others,
        (λ a n. mem a (subst (NotIn a) w n)),
        subst (λ q. AllFree q t.memory) (sym w) freed,
        listed,
      ),
    )

IsHeld-kept :
    (d : ℕ) (s t : Store)
    → t.connections d ≡ s.connections d
    → Queued d (s.connections d).messages_to_send t
    → IsHeld d 1 (s.connections d).messages_to_send s
    → IsHeld d 1 (t.connections d).messages_to_send t
IsHeld-kept d s t e q k =
    let held : IsHeld d 1 (s.connections d).messages_to_send t = record {
      count = ap (λ r. r.reference_count) e ∙ k.count;
      range = k.range;
      queue_eq = ap (λ r. r.messages_to_send) e;
      lock_eq = ap (λ r. r.send_lock) e ∙ k.lock_eq;
      distinct = k.distinct;
      queued = q;
    } in
    subst (λ ps. IsHeld d 1 ps t) (sym (ap (λ r. r.messages_to_send) e)) held

IsReady-Round :
    (c from : ℕ) (s t : Store)
    → from ≤ c
    → c < max_connections
    → is_free (states_of s c) ≡ false
    → IsReady from s
    → Round c s t
    → IsReady (suc c) t
IsReady-Round c from s t l b used r (gone, others, mem, freed, listed) =
    let same : (d : ℕ) → suc c ≤ d → t.connections d ≡ s.connections d =
      λ d g. others d (omega arith) in
    let waits : (d : ℕ) → suc c ≤ d → waiting t d ≡ waiting s d = λ d g.
      ap {A = Connection} {B = List Ptr} (λ r. if is_free r.state then [] else r.messages_to_send)
        (same d g) in
    record {
      held = λ d g h u.
          let u' : is_free (states_of s d) ≡ false =
            ap (λ r. is_free r.state) (sym (same d g)) ∙ u in
          let k = r.held d (omega arith) h u' in
          let apart : Apart (s.connections d).messages_to_send (waiting s c) =
            subst (λ q. Apart q (waiting s c)) (waiting_used s d u')
              (r.apart d c (omega arith) (omega arith) l h b) in
          IsHeld-kept d s t (same d g)
            (Queued-kept d (s.connections d).messages_to_send (waiting s c) s t listed mem apart
              k.queued)
            k;
      apart = λ d x n g g' h h'.
          let a = r.apart d x n (omega arith) (omega arith) h h' in
          subst (λ q. Apart (waiting t d) q) (sym (waits x g'))
            (subst (λ q. Apart q (waiting s x)) (sym (waits d g)) a);
    }

Emptied-Round :
    (c from k : ℕ) (s t u : Store)
    → c ≡ from + k * 1
    → c < max_connections
    → is_free (states_of s c) ≡ false
    → ((j : ℕ) → j < k → is_free (states_of s (from + j * 1)) ≡ true)
    → IsReady from s
    → Round c s t
    → Emptied (suc c) t u
    → Emptied from s u
Emptied-Round c from k s t u at_c b used skipped r (gone, others, mem, freed, listed) e =
    let skip : (d : ℕ) → from ≤ d → d < c → is_free (states_of s d) ≡ true = λ d g h.
      let i : from + (d - from) * 1 ≡ d = omega arith in
      subst (λ x. is_free (states_of s x) ≡ true) i (skipped (d - from) (omega arith)) in
    let waits : (d : ℕ) → suc c ≤ d → waiting t d ≡ waiting s d = λ d g.
      ap {A = Connection} {B = List Ptr} (λ r. if is_free r.state then [] else r.messages_to_send)
        (others d (omega arith)) in
    record {
      free = λ d g h. elim (Ordering-cases d c) [
        | inl below ↦
            ap (λ r. is_free r.state) (e.before d (omega arith) ∙ others d (omega arith))
            ∙ skip d g below
        | inr (inl here) ↦
            ap (λ r. is_free r.state) (e.before d (omega arith))
            ∙ subst (λ x. is_free (states_of t x) ≡ true) (sym here) gone
        | inr (inr above) ↦ e.free d above h
      ];
      before = λ d h. e.before d (omega arith) ∙ others d (omega arith);
      freed = λ d g h. elim (Ordering-cases d c) [
        | inl below ↦ subst (λ q. AllFree q u.memory) (sym (waiting_free s d (skip d g below))) tt
        | inr (inl here) ↦
            subst (λ x. AllFree (waiting s x) u.memory) (sym here)
              (AllFree-kept (suc c) (waiting s c) s t u e.kept
                (λ x m n.
                  subst (Apart (waiting s c)) (sym (waits x m))
                    (r.apart c x (omega arith) (omega arith) (omega arith) b n))
                freed)
        | inr (inr above) ↦ subst (λ q. AllFree q u.memory) (waits d above) (e.freed d above h)
      ];
      kept = λ a n.
          e.kept a (λ x m h. subst (NotIn a) (sym (waits x m)) (n x (omega arith) h))
          ∙ mem a (n c (omega arith) b);
    }
