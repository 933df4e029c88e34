-- ===== src/Base/Fault.antt =====
-- Code that reads and writes a state of type `S`: `none` is an access to memory that is not allocated.
use mathlib.Core.Option.{Option, none, some}
use mathlib.Core.Bool.{Bool, true, false}

abbrev pub Cmd : Type 0 → Type 0 → Type 0
Cmd S A = S → Option (A × S)

module _ {S : Type 0} where
  abbrev pub pure : {A : Type 0} → A → Cmd S A
  pure a s = some (a, s)

  abbrev pub fault : {A : Type 0} → Cmd S A
  fault s = none

  abbrev pub get_state : Cmd S S
  get_state s = some (s, s)

  abbrev pub modify : (S → S) → Cmd S (Unit {0})
  modify f s = some (tt, f s)

  infixl 5 ◌>>=◌ ◌>>◌
  abbrev pub ◌>>=◌ : {A B : Type 0} → Cmd S A → (A → Cmd S B) → Cmd S B
  ◌>>=◌ m f s = elim (m s) [ none ↦ none | some (a, t) ↦ f a t ]

  abbrev pub ◌>>◌ : {A B : Type 0} → Cmd S A → Cmd S B → Cmd S B
  m >> k = m >>= λ _. k

  -- `if (b) c;`
  abbrev pub when : Bool → Cmd S (Unit {0}) → Cmd S (Unit {0})
  when true c = c
  when false c = pure tt
