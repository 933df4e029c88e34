-- ===== src/MfBroker/Worker/Received.antt =====
-- What becomes of a message that a worker of mfbroker/mfbroker.c has received.
use avtalk.Base.{
  ℕ, suc, ◌≡◌, refl, sym, ap, ◌∙◌, ◌≢◌, Option, none, some, List, [], ◌∷◌, ◌++◌, arith, ◌==◌, eq→==,
  ==_iff, ne→==, append-nil, append_assoc, Bool-cases, inl, inr, zero, ◌⊎◌,
}
use avtalk.Base.Fault.{◌>>=◌}
use avtalk.MfMemory.{Ptr, Memory, Block, null, long_inc, write, ref_mem_release, ref_mem_add_ref}
use avtalk.MfMemory.Releases.{release_keeps, release_frees}
use avtalk.MfMessages.{Message}
use avtalk.MfBroker.Connections.{on_memory, put, add_ref, put_at}
use avtalk.MfBroker.Server.{ErrorType}
use avtalk.MfBroker.Worker.{check}
use avtalk.MfBroker.Worker.Round.{
  Event, error, Loop, Setting, Answers, on_store, touch_last, report_all,
}
use avtalk.MfBroker.Worker.Serve.{accept_message}

abbrev pub checked :
    {S : Type 0} → Setting S → Loop S → ℕ → Message → Option (ℕ × Message × List ErrorType)
checked g w conn m =
    let c = w.store.connections conn in
    check g.sodium g.calls c.state c.key g.public_key g.secret_key m

-- The blocks of the received messages are there.
abbrev pub Held : List Ptr → Memory → Type 0
Held [] memory = Unit
Held (p ∷ ps) memory = ((b : Block) × (memory p ≡ some b)) × Held ps memory

abbrev pub errors_of : List ErrorType → ℕ → List Event
errors_of [] code = []
errors_of (e ∷ es) code = error e code ∷ errors_of es code

module _ {S : Type 0} where
  touch_last_lem :
      (ps : List Ptr) (w : Loop S) → Held ps w.store.memory → touch_last ps w ≡ some (tt, w)
  touch_last_lem [] w h = refl
  touch_last_lem (p ∷ []) w ((b, e), _) =
      ap {A = Option Block} {B = Option (Unit {0} × Loop S)}
        (λ o. elim o [ none ↦ none | some c ↦ some (tt, w) ]) e
  touch_last_lem (p ∷ q ∷ ps) w (_, h) = touch_last_lem (q ∷ ps) w h

  report_all_lem :
      (es : List ErrorType) (code : ℕ) (w : Loop S)
      → report_all es code w ≡ some (tt, record w { log = w.log ++ errors_of es code })
  report_all_lem [] code w =
      ap {A = List Event} {B = Option (Unit {0} × Loop S)} (λ h. some (tt, record w { log = h }))
        (sym (append-nil w.log))
  report_all_lem (e ∷ es) code w =
      report_all_lem es code (record w { log = w.log ++ error e code ∷ [] })
      ∙ ap {A = List Event} {B = Option (Unit {0} × Loop S)} (λ h. some (tt, record w { log = h }))
          (append_assoc w.log (error e code ∷ []) (errors_of es code))

write_held :
    (p q : Ptr) (c : Block) (memory : Memory)
    → ((b : Block) × (memory q ≡ some b))
    → (b : Block) × (write p (some c) memory q ≡ some b)
write_held p q c memory (b, e) = elim (Bool-cases (q == p)) [
  | inl here ↦ (c, rw here refl)
  | inr other ↦ (b, rw other e)
]

Held-write :
    (ps : List Ptr) (p : Ptr) (b : Block) (memory : Memory)
    → Held ps memory
    → Held ps (write p (some b) memory)
Held-write [] p b memory h = tt
Held-write (q ∷ ps) p b memory (h, hs) = (write_held p q b memory h, Held-write ps p b memory hs)

-- The message at `p` is in `recvList`, with a reference to its connection.
pub record Accepted {S : Type 0} (conn p : ℕ) (m m' : Message) (w v : Loop S) : Type 0 where
  pub received : v.received ≡ w.received ++ p ∷ []
  pub listed :
      v.store.listed p ≡ record { connection = conn; original_flags = m.flags; message = m' }
  pub memory : (x : Ptr) → v.store.memory x ≡ w.store.memory x
  pub connections :
      v.store.connections
      ≡ put conn
          (record (w.store.connections conn) {
            reference_count = long_inc (w.store.connections conn).reference_count;
          })
          w.store.connections

-- The message at `p` is gone.
pub record Dropped {S : Type 0} (p : ℕ) (w v : Loop S) : Type 0 where
  pub received : v.received ≡ w.received
  pub freed : v.store.memory p ≡ none
  pub memory : (x : Ptr) → x ≢ p → v.store.memory x ≡ w.store.memory x
  pub connections : v.store.connections ≡ w.store.connections

module _ {S : Type 0} (g : Setting S) (a : Answers) (conn p k : ℕ) (m m' : Message)
    (errors : List ErrorType) (w : Loop S) (live : p ≢ null)
    (at_p : w.store.memory p ≡ some (record { refs = 1; size = k })) where
  memory_back :
      (x : Ptr)
      → write p
          (some (record { refs = 1; size = k }))
          (write p (some (record { refs = 2; size = k })) w.store.memory)
          x
        ≡ w.store.memory x
  memory_back x = elim (Bool-cases (x == p)) [
    | inl here ↦ rw here (sym at_p ∙ ap w.store.memory (sym ((==_iff x p).0 here)))
    | inr other ↦ rw other refl
  ]

  -- The last call of accept_message, behind the state `v`.
  freed :
      (v : Loop S) (memory after : Memory)
      → ref_mem_release p memory ≡ some (tt, after)
      → on_store
          (on_memory (ref_mem_release p))
          (record v { store = record v.store { memory = memory } })
        ≡ some (tt, record v { store = record v.store { memory = after } })
  freed v memory after e = rw (on_store, on_memory, e) refl

  accept_good :
      checked g w conn m ≡ some (0, m', errors)
      → Held w.received w.store.memory
      → (v : Loop S) × (accept_message g a conn p m w ≡ some (tt, v))
        × (v.ret ≡ 0)
        × (v.log ≡ w.log ++ errors_of errors 0)
        × Accepted conn p m m' w v
  unfolding accept_message ref_mem_add_ref add_ref
  accept_good e held =
      let self = eq→== p p refl in
      let c = w.store.connections conn in
      let logged : Loop S = record w {
        store = record w.store {
          listed =
              put p (record { connection = 0; original_flags = m.flags; message = m' })
                (put p (record { connection = 0; original_flags = m.flags; message = m })
                  w.store.listed);
        };
        ret = 0;
      } in
      let w2 : Loop S = record logged {
        log = w.log ++ errors_of errors 0;
        store = record logged.store {
          memory = write p (some (record { refs = 2; size = k })) w.store.memory;
        };
      } in
      let v : Loop S = record w2 {
        received = w.received ++ p ∷ [];
        store = record w2.store {
          memory = write p (some (record { refs = 1; size = k })) w2.store.memory;
          listed =
              put p (record { connection = conn; original_flags = m.flags; message = m' })
                w2.store.listed;
          connections =
              put conn (record c { reference_count = long_inc c.reference_count })
                w.store.connections;
        };
      } in
      let reported = report_all_lem errors 0 logged in
      let touched =
        touch_last_lem w.received w2
          (Held-write w.received p (record { refs = 2; size = k }) w.store.memory held) in
      let released = release_keeps p k live w2.store.memory (rw self refl) in
      (
        v,
        rw (◌>>=◌, e, ◌>>=◌, reported, ◌>>=◌, at_p, touched)
            (freed v w2.store.memory v.store.memory released),
        refl,
        refl,
        record {
          received = refl;
          listed =
              put_at p (record { connection = conn; original_flags = m.flags; message = m' })
                w2.store.listed;
          memory = memory_back;
          connections = refl;
        },
      )

  accept_bad :
      (ret : ℕ)
      → ret ≢ 0
      → checked g w conn m ≡ some (ret, m', errors)
      → (v : Loop S) × (accept_message g a conn p m w ≡ some (tt, v))
        × (v.ret ≡ ret)
        × (v.log ≡ w.log ++ errors_of errors ret)
        × Dropped p w v
  unfolding accept_message
  accept_bad ret bad e =
      let logged : Loop S = record w {
        store = record w.store {
          listed =
              put p (record { connection = 0; original_flags = m.flags; message = m' })
                (put p (record { connection = 0; original_flags = m.flags; message = m })
                  w.store.listed);
        };
        ret = ret;
      } in
      let v : Loop S = record logged {
        log = w.log ++ errors_of errors ret;
        store = record logged.store { memory = write p none w.store.memory };
      } in
      let reported = report_all_lem errors ret logged in
      (
        v,
        rw (◌>>=◌, e, ◌>>=◌, reported, ne→== ret 0 bad)
            (freed v w.store.memory v.store.memory (release_frees p k live w.store.memory at_p)),
        refl,
        refl,
        record {
          received = refl;
          freed = rw (eq→== p p refl) refl;
          memory = λ x h. rw (ne→== x p h) refl;
          connections = refl;
        },
      )

  -- A worker whose received messages are in live blocks receives one more, in a block with one
  -- reference, and its check does not fail an assertion: the worker reports the errors of its check
  -- and keeps its code; with code 0 the checked message becomes the last received one, with its
  -- original flags and one more reference of its connection, and its block keeps one reference;
  -- with any other code it is freed and nothing is queued.
  pub accept_message_lem :
      (ret : ℕ)
      → checked g w conn m ≡ some (ret, m', errors)
      → Held w.received w.store.memory
      → (v : Loop S) × (accept_message g a conn p m w ≡ some (tt, v))
        × (v.ret ≡ ret)
        × (v.log ≡ w.log ++ errors_of errors ret)
        × (((ret ≡ 0) × Accepted conn p m m' w v) ⊎ ((ret ≢ 0) × Dropped p w v))
  accept_message_lem zero e held =
      let (v, run, code, log, r) = accept_good e held in (v, run, code, log, inl (refl, r))
  accept_message_lem (suc ret) e held =
      let (v, run, code, log, r) = accept_bad (suc ret) (omega arith) e in
      (v, run, code, log, inr (omega arith, r))
