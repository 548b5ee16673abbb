-- ===== src/Connection/Retry.antt =====
-- connection.py, `_reconnect_loop`: what it decides and writes between the attempts.
use fitz_py.Prelude.{ℕ, Bool, true, false, not, ◌&&◌, ltb, ◌==◌, if◌then◌else◌, none, some}
use fitz_py.Errors.{Result, ok, err, protocol_error, authentication_error, cancelled}
use fitz_py.Connection.{Connection, set_state, disconnected, closed}

-- `_reconnect_loop` goes on while this holds, after so many attempts.
unfoldable pub continues : ℕ → Connection → Bool
continues made c =
    not c.is_closed && (elim c.config.max_attempts [ none ↦ true | some most ↦ ltb made most ])

-- Its end without a connection.
unfoldable pub exhausted : Connection → Connection
exhausted c =
    if c.is_closed
    then record c { reconnect_task = false }
    else record (set_state disconnected c) { reconnect_task = false; close_notified = true }

-- What the loop does about the result of an attempt: it ends, or goes on.
unfoldable pub after_attempt : Result (Unit {0}) → Connection → Bool × Connection
after_attempt (ok u) c = (false, record c { reconnect_task = false })
after_attempt (err cancelled) c = (false, record c { reconnect_task = false })
after_attempt (err authentication_error) c =
    (false, set_state closed (record c { is_closed = true; reconnect_task = false }))
after_attempt (err (protocol_error (some code))) c =
    if code == 50
    then (
      false,
      record (set_state disconnected c) { reconnect_task = false; close_notified = true },
    )
    else (true, c)
after_attempt (err e) c = (true, c)
