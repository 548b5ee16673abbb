-- ===== src/Connection/Lifecycle/Transitions.antt =====
-- The machine of the connection's states: its steps, by the events of Connection.Lifecycle.
use fitz_py.Prelude.{ℕ, ◌≡◌, ◌≢◌, Bool, true, false, some}
use fitz_py.Prelude.Bytes.{Bytes}
use fitz_py.Errors.{Error, Result, err, authentication_error, protocol_error}
use fitz_py.Connection.{
  ConnectionState, disconnected, connecting, authenticating, authenticated, reconnecting, closed,
}
use fitz_py.Connection.Lifecycle
use fitz_py.Connection.Lifecycle.States.{IsUp, IsDown}

-- The ends of a part that write no state.
abbrev pub IsQuiet : Lifecycle.Event → Type 0
IsQuiet (Lifecycle.answered t b) = Unit {0}
IsQuiet (Lifecycle.failed_at t) = Unit {0}
IsQuiet (Lifecycle.failed e) = e ≡ authentication_error
IsQuiet Lifecycle.failed_closed = Unit {0}
IsQuiet Lifecycle.lost = Unit {0}
IsQuiet Lifecycle.closes_transport = Unit {0}
IsQuiet e = ⊥

-- What an event does to the state: the steps of the machine, each with its event, for a connection
-- that is not closed (`false`) and for one that is (`true`).
pub data Transition : Lifecycle.Event → Bool → ConnectionState → ConnectionState → Type 0 where
  opens : (s : ConnectionState) → Transition (Lifecycle.opens false) false s connecting
  reopens : (s : ConnectionState) → Transition (Lifecycle.opens true) false s reconnecting
  handshakes :
      (s : ConnectionState) (t : ℕ) → Transition (Lifecycle.transport_up t) false s authenticating
  succeeds :
      (s : ConnectionState) (t : ℕ)
      → s ≢ disconnected
      → Transition (Lifecycle.restored t) false s authenticated
  refused : (s : ConnectionState) (t : ℕ) → Transition (Lifecycle.restored t) false s s
  fails :
      (s : ConnectionState) (e : Error)
      → e ≢ authentication_error
      → Transition (Lifecycle.failed e) false s disconnected
  loses : (s : ConnectionState) → IsUp s → Transition Lifecycle.loses false s disconnected
  is_down : (s : ConnectionState) → IsDown s → Transition Lifecycle.loses false s s
  receives :
      (s : ConnectionState) (t : ℕ) (bs : Bytes) → Transition (Lifecycle.receives t bs) false s s
  drops :
      (s : ConnectionState) (t : ℕ) (bs : Bytes)
      → IsUp s
      → Transition (Lifecycle.receives t bs) false s disconnected
  receive_ends :
      (s : ConnectionState) (t : ℕ) (e : Error) → Transition (Lifecycle.receive_fails t e) false s s
  receive_fails :
      (s : ConnectionState) (t : ℕ) (e : Error)
      → IsUp s
      → Transition (Lifecycle.receive_fails t e) false s disconnected
  closes : (s : ConnectionState) → Transition Lifecycle.closes false s closed
  retries : (s : ConnectionState) → Transition Lifecycle.retries false s reconnecting
  goes_on :
      (s : ConnectionState) (r : Result (Unit {0})) → Transition (Lifecycle.retry_ends r) false s s
  outdated :
      (s : ConnectionState) (r : Result (Unit {0})) (code : ℕ)
      → r ≡ err (protocol_error (some code))
      → code ≡ 50
      → Transition (Lifecycle.retry_ends r) false s disconnected
  exhausts : (s : ConnectionState) → Transition Lifecycle.retries_exhausted false s disconnected
  waits : (s : ConnectionState) (e : Lifecycle.Event) → IsQuiet e → Transition e false s s
  stays : (s : ConnectionState) (e : Lifecycle.Event) → Transition e true s s
  rejected : (s : ConnectionState) → Transition Lifecycle.failed_closed true s closed
  rejects :
      (s : ConnectionState)
      → Transition (Lifecycle.retry_ends (err authentication_error)) true s closed
