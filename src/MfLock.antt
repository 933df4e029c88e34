-- ===== src/MfLock.antt =====
-- mflock/mflock.c: critical sections, as one thread sees them while no other holds them.
-- A section is deleted (`none`) or held some number of times by the thread. To enter or to leave a
-- deleted one, to leave one that is not held, or to delete one that is held, is a fault.
use avtalk.Base.{ℕ, zero, suc, Option, none, some}
use avtalk.Base.Fault.{Cmd}

abbrev pub Lock : Type 0
Lock = Option ℕ

-- The answer of InitializeCriticalSectionAndSpinCount: `some` error of GetLastError, or success.
unfoldable pub init : Option ℕ → Cmd Lock ℕ
init none l = some (0, some 0)
init (some last_error) l = some (last_error, l)

unfoldable pub enter : Cmd Lock (Unit {0})
enter none = none
enter (some held) = some (tt, some (suc held))

unfoldable pub leave : Cmd Lock (Unit {0})
leave none = none
leave (some zero) = none
leave (some (suc held)) = some (tt, some held)

unfoldable pub finit : Cmd Lock (Unit {0})
finit none = none
finit (some zero) = some (tt, none)
finit (some (suc held)) = none
