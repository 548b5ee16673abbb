-- ===== src/Connection/Lifecycle.antt =====
-- connection.py: opening, losing, reconnecting and closing. A method is cut at its `await`s, and
-- each part is an operation here; what an `await` comes back with is an argument. An attempt to open
-- is named by its transport. Waiting for tasks, closing a transport and calling listeners are left
-- out: they change nothing here.
pub mod Parts
pub mod Closing
pub mod Access
pub mod Reconnect
pub mod Attempts
pub mod Stale
pub mod States
pub mod Transitions
pub mod Machine
pub mod Received
use fitz_py.Prelude.{
  ℕ, zero, suc, ◌+◌, Bool, true, false, not, ◌&&◌, ◌||◌, [], ◌∷◌, List, ltb, ◌==◌, if◌then◌else◌,
  Option, none, some,
}
use fitz_py.Prelude.Bytes.{Bytes}
use fitz_py.Errors.{
  Error, Result, ok, err, connection_error, protocol_error, authentication_error, type_error,
  cancelled,
}
use fitz_py.Exec.{Exec, pure, raise, guard, ◌>>=◌, ◌>>◌}
use fitz_py.Multiplexer.{set_connected, set_disconnected}
use fitz_py.Runtime.Gate
use fitz_py.Runtime.Dispatcher
use fitz_py.Connection.{
  ConnectionState, disconnected, connecting, connected, authenticating, authenticated, reconnecting,
  closed, Connection, Handshake, idle, awaiting, accepted, rejected, new_gate, set_state,
  is_authenticated,
}
use fitz_py.Connection.Inbound.{dispatch_transport_frame}
use fitz_py.Connection.Retry.{exhausted, after_attempt}

-- `x is t`, for a transport or the task that receives from it.
abbrev pub is_own : ℕ → Option ℕ → Bool
is_own t none = false
is_own t (some u) = u == t

-- `_open_and_authenticate`, up to `transport.connect()`.
unfoldable pub open_transport : Bool → Exec Connection ℕ
open_transport reconnect c = if c.is_closed then (err connection_error, c) else (
  ok c.next_transport,
  set_state (if reconnect then reconnecting else connecting) (record c {
    gate = new_gate c.config;
    transport = some c.next_transport;
    next_transport = c.next_transport + 1;
  }),
)

-- From there to the wait for `_auth_error`.
unfoldable pub begin_handshake : ℕ → Connection → Connection
begin_handshake t c = record (set_state authenticating (set_state connected c)) {
  handshake = awaiting;
  receive_task = some t;
}

is_disconnected : ConnectionState → Bool
is_disconnected disconnected = true
is_disconnected _ = false

-- `_assert_transport_owner`
unfoldable pub owns_transport : ℕ → Connection → Bool
unfolding is_disconnected
owns_transport t c =
    not c.is_closed
    && (is_own t c.transport && (is_own t c.receive_task && not (is_disconnected c.state)))

-- The `except` part, up to `transport.close()`. It follows at once on an exception of the parts
-- below; an `await` that raises is an event.
unfoldable pub abandon_open : ℕ → Connection → Connection
abandon_open t c = record c {
  multiplexer = set_disconnected c.multiplexer;
  transport = if is_own t c.transport then none else c.transport;
  receive_task = if is_own t c.receive_task then none else c.receive_task;
  restoring = false;
}

-- `self._auth_error.result()`. When another attempt has dropped the future there is none, and the
-- `AttributeError` of that is a type error here.
handshake_result : Handshake → Result (Unit {0})
handshake_result (rejected e) = err e
handshake_result idle = err type_error
handshake_result h = ok tt

-- From the end of the handshake to the restoring of registrations.
unfoldable pub end_handshake : ℕ → Bool → Exec Connection Unit
unfolding handshake_result
end_handshake t reconnect c =
    elim (handshake_result c.handshake) as (λ _. Result (Unit {0}) × Connection) [
      | err e ↦ (err e, abandon_open t c)
      | ok u ↦
          if owns_transport t c
          then (
            ok tt,
            record c {
              handshake = idle;
              generation = c.generation + 1;
              multiplexer = set_connected c.multiplexer;
              restoring = reconnect;
            },
          )
          else (err connection_error, abandon_open t (record c { handshake = idle }))
    ]

-- From there to the end.
unfoldable pub complete_open : ℕ → Exec Connection Unit
complete_open t c =
    let s = record c { restoring = false } in
    if owns_transport t s
    then (ok tt, set_state authenticated (record s { ever_authenticated = true }))
    else (err connection_error, abandon_open t s)

-- From there on; a rejected authentication closes the dispatcher, and waits for it.
unfoldable pub fail_open : Error → Connection → Connection
fail_open authentication_error c = record c {
  is_closed = true;
  gate = Gate.close c.gate;
  dispatcher = Dispatcher.close c.dispatcher;
}
fail_open e c = if c.is_closed then c else set_state disconnected c

-- The end of it, after a rejected authentication.
unfoldable pub fail_closed : Connection → Connection
fail_closed c = set_state closed c

-- `_connection_lost` returns at once in these states.
abbrev pub already_down : ConnectionState → Bool
already_down disconnected = true
already_down reconnecting = true
already_down closed = true
already_down _ = false

-- `_connection_lost`, up to its first `await`.
unfoldable pub connection_lost : Connection → Connection
connection_lost c =
    if already_down c.state
    then c
    else record (set_state disconnected
        (record c { multiplexer = set_disconnected c.multiplexer; gate = Gate.close c.gate })) {
          transport = none;
          receive_task = none;
        }

-- The rest of it.
unfoldable pub after_loss : Connection → Connection
after_loss c =
    if not c.ever_authenticated || (not c.config.reconnect_enabled || c.is_closed)
    then c
    else record c { reconnect_task = true }

is_authenticating : ConnectionState → Bool
is_authenticating authenticating = true
is_authenticating _ = false

has_handshake : Handshake → Bool
has_handshake idle = false
has_handshake _ = true

-- `_auth_error.set_exception(e)` on a future that is not done.
reject : Error → Handshake → Handshake
reject e awaiting = rejected e
reject e h = h

-- The task that receives from `t` ends.
unfoldable pub end_receive : ℕ → Connection → Connection
end_receive t c = if is_own t c.receive_task then record c { receive_task = none } else c

-- `_receive_loop` on an exception: the handshake fails by it, or the connection is lost.
unfoldable pub receive_failed : ℕ → Error → Connection → Connection
unfolding is_authenticating has_handshake reject
receive_failed t cancelled c = end_receive t c
receive_failed t e c =
    if is_authenticating c.state && has_handshake c.handshake
    then end_receive t (record c { handshake = reject e c.handshake })
    else if not c.is_closed && is_own t c.transport
    then end_receive t (connection_lost c)
    else end_receive t c

-- `_receive_loop`, from `transport.receive()` on.
unfoldable pub received : ℕ → Bytes → Connection → Connection
received t bs c =
    if c.is_closed || not (is_own t c.transport)
    then end_receive t c
    else (let (answer, s) = dispatch_transport_frame bs c in
        elim answer [ ok u ↦ s | err e ↦ receive_failed t e s ])

-- `_close`, up to its first `await`.
unfoldable pub close : Connection → Connection
close c =
    if c.is_closed
    then c
    else (let s = set_state closed (record c { is_closed = true }) in
        record s {
          gate = Gate.close s.gate;
          multiplexer = set_disconnected s.multiplexer;
          close_notified = true;
        })

-- The rest of it.
unfoldable pub finish_close : Connection → Connection
finish_close c = record c {
  transport = none;
  receive_task = none;
  reconnect_task = false;
  dispatcher = Dispatcher.close c.dispatcher;
}

-- `transport_up`, `answered` and `restored` are the ends of the waits of an attempt; `failed_at`,
-- `failed` and `failed_closed` are the parts of its failure, the last of them only after `failed` has
-- closed the connection. `retries`, `retry_ends` and `retries_exhausted` are what `_reconnect_loop`
-- writes before an attempt, after it and at its end. Requests are no events: they write neither the
-- state nor the transport.
pub data Event : Type 0 where
  opens : Bool → Event
  transport_up restored : ℕ → Event
  answered : ℕ → Bool → Event
  failed_at : ℕ → Event
  failed : Error → Event
  receives : ℕ → Bytes → Event
  receive_fails : ℕ → Error → Event
  retry_ends : Result (Unit {0}) → Event
  failed_closed loses lost closes closes_transport retries retries_exhausted : Event

is_rejection : Result (Unit {0}) → Bool
is_rejection (err authentication_error) = true
is_rejection r = false

-- An attempt closes the connection before it raises an `AuthenticationError`.
unfoldable pub end_retry : Result (Unit {0}) → Connection → Connection
unfolding is_rejection
end_retry r c = if is_rejection r && not c.is_closed then c else (after_attempt r c).1

unfoldable pub step : Event → Connection → Connection
step (opens reconnect) c = (open_transport reconnect c).1
step (transport_up t) c = begin_handshake t c
step (answered t reconnect) c = (end_handshake t reconnect c).1
step (restored t) c = (complete_open t c).1
step (failed_at t) c = abandon_open t c
step (failed e) c = fail_open e c
step (receives t bs) c = received t bs c
step (receive_fails t e) c = receive_failed t e c
step failed_closed c = if c.is_closed then fail_closed c else c
step loses c = connection_lost c
step lost c = after_loss c
step closes c = close c
step closes_transport c = finish_close c
step retries c = set_state reconnecting c
step (retry_ends r) c = end_retry r c
step retries_exhausted c = exhausted c

unfoldable pub run : List Event → Connection → Connection
run [] c = c
run (e ∷ es) c = run es (step e c)
