-- ===== src/Connection/Lifecycle/Reconnect.antt =====
-- connection.py, `_reconnect_loop`: attempts to open a lost connection again.
use fitz_py.Prelude.{ℕ, zero, suc, ◌+◌, List, if◌then◌else◌, Option, none, some}
use fitz_py.Errors.{Result}
use fitz_py.Connection.{Connection, set_state, reconnecting}
use fitz_py.Connection.Retry.{continues, exhausted, after_attempt}
use fitz_py.Connection.Lifecycle.{Event, run}

-- One `_open_and_authenticate` of the loop: its result, and all events until it came back, those
-- of the attempt and any others.
pub record Attempt : Type 0 where
  pub events : List Event
  pub result : Result (Unit {0})

-- `_reconnect_loop`, less its pauses; `attempts` gives the attempts by their number. It returns how
-- many there were.
unfoldable pub reconnect_loop : ℕ → (ℕ → Attempt) → ℕ → Connection → Option ℕ × Connection
reconnect_loop zero attempts made c = (none, c)
reconnect_loop (suc fuel) attempts made c =
    if continues made c
    then (let attempt = attempts (made + 1) in
        let (again, t) =
          after_attempt attempt.result (run attempt.events (set_state reconnecting c)) in
        let rest = reconnect_loop fuel attempts (made + 1) t in
        if again then rest else (some (made + 1), t))
    else (some made, exhausted c)
