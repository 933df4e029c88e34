-- ===== src/MfBroker/Worker/Delivery.antt =====
-- The messages that a worker of mfbroker/mfbroker.c hands to MessageCallback.
use avtalk.Base.{
  ℕ, suc, ◌+◌, ◌^◌, ◌<◌, ◌≡◌, refl, sym, ap, ◌∙◌, ◌≢◌, Option, none, some, List, [], ◌∷◌, ◌++◌,
  arith, length, append-nil, append_assoc, Option-cases, Bool-cases, true, inl, inr, eq→==,
}
use avtalk.Base.Fault.{◌>>=◌}
use avtalk.MfMemory.{Ptr, null}
use avtalk.MfList.Ring.{Distinct}
use avtalk.MfBroker.Slots
use avtalk.MfBroker.Connections.{Store, Listed, release, clear_loop}
use avtalk.MfBroker.Connections.Teardown.{
  Queued, Freed, Freed-nil, round as drop_round, Queued-Freed, Freed-trans,
}
use avtalk.MfBroker.Worker.Round.{
  Event, ready, Loop, Setting, Answers, timed_out, deliver, drop_listed,
}
use avtalk.MfBroker.Worker.Rounds.{goes_on, has_array, after_poll, poll_and_serve, round}

-- The calls of MessageCallback about the messages at `ps`.
abbrev pub readies : ℕ → (Ptr → Listed) → List Ptr → List Event
readies conn listed [] = []
readies conn listed (p ∷ ps) = ready conn (listed p).message ∷ readies conn listed ps

module _ {S : Type 0} (depth conn : ℕ) where
  drop_listed_lem :
      (n p : ℕ) (w : Loop S)
      → (w.store.connections conn).reference_count ≡ suc (suc n)
      → n + 2 < 2 ^ 32
      → p ≢ null
      → ((k : ℕ) × (w.store.memory p ≡ some (record { refs = 1; size = k })))
      → (w.store.listed p).connection ≡ conn
      → (t : Store) × (drop_listed (suc depth) p w ≡ some (tt, record w { store = t }))
        × Freed conn (suc n) (p ∷ []) w.store t
  unfolding drop_listed clear_loop
  drop_listed_lem n p w c b q (k, m) l =
      let (t, step, freed) = drop_round depth conn n p w.store c b q (k, m) l in
      let run : clear_loop (release (suc depth)) (p ∷ []) w.store ≡ some (tt, t) = step [] in
      let run' = rw m at run in
      (
        t,
        ap {A = Option (Unit {0} × Store)} {B = Option (Unit {0} × Loop S)}
            (λ o. elim o [ none ↦ none | some (u, v) ↦ some (u, record w { store = v }) ]) run',
        freed,
      )

  deliver_lem :
      (n : ℕ) (ps : List Ptr) (w : Loop S)
      → (w.store.connections conn).reference_count ≡ suc n + length ps
      → suc n + length ps < 2 ^ 32
      → Distinct ps
      → Queued conn ps w.store
      → (t : Store) × (deliver (suc depth) ps w
          ≡ some (tt, record w { store = t; log = w.log ++ readies conn w.store.listed ps }))
        × Freed conn (suc n) ps w.store t
  unfolding deliver
  deliver_lem n [] w c b d q = (
    w.store,
    ap {A = List Event} {B = Option (Unit {0} × Loop S)} (λ h. some (tt, record w { log = h }))
        (sym (append-nil w.log)),
    Freed-nil conn (suc n) w.store (omega arith),
  )
  deliver_lem n (p ∷ ps) w c b d q =
      let (live, (k, m), l, more) = q in
      let w1 : Loop S = record w {
        log = w.log ++ ready (w.store.listed p).connection (w.store.listed p).message ∷ [];
      } in
      let (t, drop, f) =
        drop_listed_lem (n + length ps) p w1 (omega arith) (omega arith) live (k, m) l in
      let count : (t.connections conn).reference_count ≡ suc (n + length ps) =
        ap (λ r. r.reference_count) f.connection in
      let (u, run, g) =
        deliver_lem n ps (record w1 { store = t }) (omega arith) (omega arith) d.1
          (Queued-Freed conn (suc (n + length ps)) p ps w.store t f d.0 more) in
      let logs : w1.log ++ readies conn t.listed ps
          ≡ w.log ++ readies conn w.store.listed (p ∷ ps) =
        rw (f.listed, l)
          (append_assoc w.log (ready conn (w.store.listed p).message ∷ [])
            (readies conn w.store.listed ps)) in
      (
        u,
        rw (◌>>=◌, m, ◌>>=◌, drop, run)
            (ap {A = List Event} {B = Option (Unit {0} × Loop S)}
              (λ h. some (tt, record w { store = u; log = h })) logs),
        Freed-trans conn (suc n) (suc (n + length ps)) p ps w.store t u d.0 f g,
      )

deliver_freed :
    {S : Type 0} (depth p : ℕ) (ps : List Ptr) (w : Loop S)
    → w.store.memory p ≡ none
    → deliver depth (p ∷ ps) w ≡ none
unfolding deliver
deliver_freed depth p ps w h = rw (◌>>=◌, h) refl

abbrev pub polled_by : {S : Type 0} → Setting S → Loop S → Option (List ℕ)
polled_by g w =
    Slots.polled (λ c. (w.store.connections c).state) g.thread_index g.thread_count w.fd_count

module _ {S : Type 0} (g : Setting S) (a : Answers) (w : Loop S)
    (e : w.fd_count ≡ w.connection_count) where
  pub served_round :
      (cs : List ℕ) (u v : Loop S)
      → has_array w ≡ true
      → polled_by g w ≡ some cs
      → after_poll g a w a.poll w ≡ some (tt, u)
      → deliver g.depth u.received u ≡ some (tt, v)
      → round g a w ≡ some (goes_on, v)
  unfolding round poll_and_serve
  served_round cs u v array pol served run =
      let same = eq→== w.fd_count w.connection_count e in
      rw (same, ◌>>=◌, array, pol, ◌>>=◌, served, ◌>>=◌, run) refl

  -- A round in which nothing is received.
  idle_round_faults : a.poll ≡ timed_out → deliver g.depth w.received w ≡ none → round g a w ≡ none
  unfolding round poll_and_serve
  idle_round_faults t run =
      let same = eq→== w.fd_count w.connection_count e in
      elim (Bool-cases (has_array w)) [
        | inr missing ↦ rw (same, ◌>>=◌, missing) refl
        | inl array ↦ elim (Option-cases (polled_by g w)) [
          | inl pol ↦ rw (same, ◌>>=◌, array, pol) refl
          | inr (cs, pol) ↦ rw (same, ◌>>=◌, array, pol, t, ◌>>=◌, run) refl
        ]
      ]

-- A round of a worker with a fitting poll array that, when it gets to the delivery, has received
-- messages in distinct blocks with one reference each, all of one connection that counts a
-- reference for each and at least one more, below 2 ^ 32: it hands them to MessageCallback in
-- order, frees each and gives its reference of the connection back; but the list of received
-- messages is not emptied, so any next round in which the poll times out faults on a freed message.
pub round-round :
    {S : Type 0} (g : Setting S) (a a' : Answers) (w v : Loop S) (depth conn n p : ℕ)
    (ps cs : List Ptr)
    → g.depth ≡ suc depth
    → w.fd_count ≡ w.connection_count
    → has_array w ≡ true
    → polled_by g w ≡ some cs
    → after_poll g a w a.poll w ≡ some (tt, v)
    → v.received ≡ p ∷ ps
    → v.fd_count ≡ v.connection_count
    → (v.store.connections conn).reference_count ≡ suc n + length (p ∷ ps)
    → suc n + length (p ∷ ps) < 2 ^ 32
    → Distinct (p ∷ ps)
    → Queued conn (p ∷ ps) v.store
    → a'.poll ≡ timed_out
    → (w' : Loop S) × (round g a w ≡ some (goes_on, w'))
      × (w'.log ≡ v.log ++ readies conn v.store.listed (p ∷ ps))
      × Freed conn (suc n) (p ∷ ps) v.store w'.store
      × (round g a' w' ≡ none)
round-round {S} g a a' w v depth conn n p ps cs gd e array pol served r e' c b d q t' =
    let (u, run, f) = deliver_lem depth conn n (p ∷ ps) v c b d q in
    let w' : Loop S = record v { store = u; log = v.log ++ readies conn v.store.listed (p ∷ ps) } in
    (
      w',
      served_round g a w e cs v w' array pol served
          (ap (λ k. deliver k v.received v) gd ∙ ap (λ l. deliver (suc depth) l v) r ∙ run),
      refl,
      f,
      idle_round_faults g a' w' e' t'
          (ap (λ l. deliver g.depth l w') r ∙ deliver_freed g.depth p ps w' f.freed.0),
    )
