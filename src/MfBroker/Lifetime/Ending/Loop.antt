-- ===== src/MfBroker/Lifetime/Ending/Loop.antt =====
-- The last loop of MFBroker_Free in mfbroker/mfbroker.c: every connection ends.
use mathlib.Core.Path.{subst}
use avtalk.Base.{
  ℕ, zero, suc, ◌+◌, ◌*◌, ◌-◌, ◌≤◌, ◌<◌, ◌≡◌, refl, sym, ◌∙◌, true, Option, none, some, arith,
  Option-cases, inl, inr,
}
use avtalk.Base.Fault.{Cmd, ◌>>=◌, ◌>>◌}
use avtalk.MfBroker.Slots.{is_free, max_connections, next, first}
use avtalk.MfBroker.Slots.Search.{IsFirst, next-IsFirst}
use avtalk.MfBroker.Connections.{Store, clear, release}
use avtalk.MfBroker.Connections.Teardown.{AllFree}
use avtalk.MfBroker.Lifetime.{states_of, clear_slots, clear_all}
use avtalk.MfBroker.Lifetime.Ending.{
  IsReady, Emptied, one_round, IsReady-Round, Emptied-Round, waiting_free,
}

-- Nothing is in use any more.
nothing_left :
    (from : ℕ) (s : Store) → next (states_of s) 0 from max_connections 1 ≡ none → Emptied from s s
nothing_left from s nowhere =
    let found = next-IsFirst (states_of s) 0 from max_connections 1 (omega arith) (omega arith) in
    let all : (k : ℕ)
        → from + k * 1 < 0 + max_connections
        → is_free (states_of s (from + k * 1)) ≡ true =
      subst (IsFirst is_free (states_of s) from (0 + max_connections) 1) nowhere found in
    let free : (c : ℕ) → from ≤ c → c < max_connections → is_free (states_of s c) ≡ true = λ c g h.
      let i : from + (c - from) * 1 ≡ c = omega arith in
      subst (λ x. is_free (states_of s x) ≡ true) i (all (c - from) (omega arith)) in
    record {
      free = free;
      before = λ c h. refl;
      freed = λ c g h. subst (λ q. AllFree q s.memory) (sym (waiting_free s c (free c g h))) tt;
      kept = λ a n. refl;
    }

then_run :
    {S A : Type 0} (k : Cmd S (Unit {0})) (rest : Cmd S A) (t : S) (o : Option (Unit {0} × S))
    → (elim o [ none ↦ none | some (u, s) ↦ k s ]) ≡ some (tt, t)
    → (elim o [ none ↦ none | some (u, s) ↦ (k >> rest) s ]) ≡ rest t
then_run k rest t none e = absurd (ground arith)
then_run k rest t (some (u, s)) e = rw (◌>>=◌, e) refl

-- A round of the loop, before the slots above `c`.
slot_run :
    (depth fuel c from : ℕ) (s t u : Store)
    → next (states_of s) 0 from max_connections 1 ≡ some c
    → (do clear (suc depth) c; release (suc depth) c) s ≡ some (tt, t)
    → clear_slots (suc depth) fuel (next (states_of t) 0 (c + 1) max_connections 1) t ≡ some (tt, u)
    → clear_slots (suc depth) (suc fuel) (next (states_of s) 0 from max_connections 1) s
      ≡ some (tt, u)
unfolding clear_slots
slot_run depth fuel c from s t u here run more = rw here (
    then_run (release (suc depth) c)
      (λ v. clear_slots (suc depth) fuel (next (states_of v) 0 (c + 1) max_connections 1) v) t
      (clear (suc depth) c s) run
    ∙ more)

clear_slots_lem :
    (depth fuel from : ℕ) (s : Store)
    → max_connections ≤ fuel + from
    → IsReady from s
    → (t : Store) × (clear_slots (suc depth) fuel (next (states_of s) 0 from max_connections 1) s
        ≡ some (tt, t))
      × Emptied from s t
unfolding clear_slots
clear_slots_lem depth zero from s enough r =
    elim (Option-cases (next (states_of s) 0 from max_connections 1)) [
      | inl nowhere ↦ (s, rw nowhere refl, nothing_left from s nowhere)
      | inr (c, here) ↦
          let found =
            next-IsFirst (states_of s) 0 from max_connections 1 (omega arith) (omega arith) in
          let (k, at_c, below, used, skipped) =
            subst (IsFirst is_free (states_of s) from (0 + max_connections) 1) here found in
          absurd (omega arith)
    ]
clear_slots_lem depth (suc fuel) from s enough r =
    elim (Option-cases (next (states_of s) 0 from max_connections 1)) [
      | inl nowhere ↦ (s, rw nowhere refl, nothing_left from s nowhere)
      | inr (c, here) ↦
          let found =
            next-IsFirst (states_of s) 0 from max_connections 1 (omega arith) (omega arith) in
          let (k, at_c, below, used, skipped) =
            subst (IsFirst is_free (states_of s) from (0 + max_connections) 1) here found in
          let (t, run, step) = one_round depth c s used (r.held c (omega arith) below used) in
          let ready = IsReady-Round c from s t (omega arith) below used r step in
          let up : suc c ≡ c + 1 = omega arith in
          let (u, more, e) = clear_slots_lem depth fuel (suc c) t (omega arith) ready in
          let more' : clear_slots (suc depth) fuel (next (states_of t) 0 (c + 1) max_connections 1)
                t
              ≡ some (tt, u) =
            subst
              (λ x.
                clear_slots (suc depth) fuel (next (states_of t) 0 x max_connections 1) t
                ≡ some (tt, u))
              up more in
          (
            u,
            slot_run depth fuel c from s t u here run more',
            Emptied-Round c from k s t u at_c below used skipped r step e,
          )
    ]

-- x
pub clear_all-Emptied :
    (depth : ℕ) (s : Store)
    → IsReady 0 s
    → (t : Store) × (clear_all (suc depth) s ≡ some (tt, t)) × Emptied 0 s t
unfolding clear_all first
clear_all-Emptied depth s r = clear_slots_lem depth max_connections 0 s (omega arith) r
