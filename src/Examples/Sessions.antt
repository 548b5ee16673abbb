-- ===== src/Examples/Sessions.antt =====
-- The connection at concrete inputs.
use fitz_py.Prelude.{
  ℕ, ◌≡◌, ◌≢◌, ◌⊎◌, if◌then◌else◌, refl, List, [], ◌∷◌, true, false, none, some, arith, get_elem?,
}
use fitz_py.Prelude.Bytes.{Bytes, to_bytes}
use fitz_py.Errors.{ok, err, connection_error}
use fitz_py.Multiplexer.{resolved, patch_frame, set_connected, set_disconnected}
use fitz_py.Protocol.Frame.{encode_frame, decode_frame}
use fitz_py.Runtime.Dispatcher.{new_dispatcher}
use fitz_py.Connection.{
  ClientConfig, Connection, new_connection, new_multiplexer, authenticated, connected, disconnected,
  ensure_authenticated, idle, set_state, new_gate, is_closed_state, authenticating, awaiting,
}
use fitz_py.Connection.Inbound.{dispatch_transport_frame}
use fitz_py.Connection.Outbound.{request_without_admission, frame_sent}
use fitz_py.Connection.Outbound.Answered.{IsReady, IsOrdinary, request_answered}
use fitz_py.Connection.Lifecycle
use fitz_py.Connection.Lifecycle.{
  Event, run, step, close, opens, transport_up, answered, restored, failed_at, failed, loses,
  complete_open, retries, is_own, fail_open,
}
use fitz_py.Connection.Lifecycle.Reconnect.{Attempt, reconnect_loop}
use fitz_py.Connection.Lifecycle.Closing.{closed_for_good}
use fitz_py.Connection.Lifecycle.Access.{IsAuthenticatedBy, authenticated_by}
use fitz_py.Connection.Lifecycle.Attempts.{Ends, reconnect_loop-Ends}
use fitz_py.Connection.Lifecycle.Stale.{stale_attempt}
use fitz_py.Connection.Lifecycle.Transitions.{Transition}
use fitz_py.Connection.Lifecycle.Machine.{run-Transition}

abbrev config : ClientConfig
config = record {
  max_frame_size = 1024;
  max_in_flight = 2;
  request_queue_size = 4;
  reconnect_enabled = true;
  max_attempts = some 3;
}

abbrev opening : List Event
opening = opens false ∷ transport_up 0 ∷ answered 0 false ∷ restored 0 ∷ []

abbrev reopening : List Event
reopening = opens true ∷ transport_up 1 ∷ answered 1 true ∷ restored 1 ∷ []

closed_for_good_example :
    let d = run reopening (close (run opening (new_connection config 1 1))) in
    (d.is_closed ≡ true)
    × (d.gate.closed ≡ true)
    × ((ensure_authenticated d).0 ≡ err connection_error)
closed_for_good_example = closed_for_good config 1 1 opening reopening

run-Transition_example :
    let c = run opening (new_connection config 1 1) in
    Transition loses c.is_closed c.state (step loses c).state
    × (c.state ≢ connected)
    × ((is_closed_state c.state ≡ false) ⊎ (c.is_closed ≡ true))
run-Transition_example = run-Transition config 1 1 opening loses

opening_authenticated : (run opening (new_connection config 1 1)).state ≡ authenticated
unfolding run step Lifecycle.open_transport Lifecycle.begin_handshake Lifecycle.end_handshake
    Lifecycle.complete_open Lifecycle.owns_transport set_state new_connection new_multiplexer
    set_connected
opening_authenticated = refl

authenticated_by_example : IsAuthenticatedBy opening (new_connection config 1 1)
authenticated_by_example = authenticated_by config 1 1 opening opening_authenticated

-- An authenticated connection, over transport 0.
abbrev session : Connection
session = record {
  config = config;
  state = authenticated;
  generation = 1;
  multiplexer = record {
    correlated = [];
    requests = [];
    handlers = [];
    classifiers = [];
    connected = true;
    protocol_version = 3;
    capabilities = 0;
    capability_ids = 1 ∷ [];
    next_id = 1;
    pushed = [];
    errors = [];
  };
  gate = new_gate config;
  dispatcher = new_dispatcher 1 1;
  transport = some 0;
  receive_task = some 0;
  next_transport = 1;
  reconnect_task = false;
  is_closed = false;
  ever_authenticated = true;
  restoring = false;
  close_notified = false;
  handshake = idle;
  max_message_bytes = 1024;
  max_in_flight = 2;
  session_id = 7;
  goaway = none;
}

abbrev lost_session : Connection
lost_session = record session { state = disconnected; transport = none; receive_task = none }

stale_attempt_example :
    let d = run reopening lost_session in
    let raised = complete_open 0 d in
    let f = run (retries ∷ []) raised.1 in
    (raised.0 ≡ err connection_error)
    × (raised.1.state ≡ d.state)
    × (raised.1.transport ≡ d.transport)
    × (raised.1.multiplexer ≡ set_disconnected d.multiplexer)
    × (is_own 0 f.transport ≡ false)
    × ((fail_open connection_error f).state ≡ (if f.is_closed then f.state else disconnected))
stale_attempt_example =
    stale_attempt 0 reopening (retries ∷ []) lost_session
      (record { made = omega arith; foreign = refl })

-- A handshake under way.
abbrev greeted : Connection
greeted = record session {
  state = authenticating;
  handshake = awaiting;
  multiplexer = new_multiplexer;
}

-- HELLO: version 3, messages of 4096 bytes, 8 requests, session 7, and the capability 1.
abbrev hello : Bytes
hello =
    0 ∷ 2 ∷ 4 ∷ 0 ∷ 0 ∷ 0 ∷ 0 ∷ 0 ∷ 0 ∷ 0 ∷ 0 ∷ 0 ∷ 0 ∷ 0 ∷ 38 ∷ 0 ∷ 0 ∷ 0 ∷ 22 ∷ 0 ∷ 3 ∷ 0 ∷ 0 ∷ 0
    ∷ 0 ∷ 0 ∷ 0 ∷ 16 ∷ 0 ∷ 0 ∷ 0 ∷ 0 ∷ 8 ∷ 0 ∷ 0 ∷ 0 ∷ 0 ∷ 0 ∷ 0 ∷ 0 ∷ 7 ∷ 0 ∷ 1 ∷ 0 ∷ 0 ∷ 0 ∷ 6 ∷ 0
    ∷ 1 ∷ 0 ∷ 0 ∷ 0 ∷ 1 ∷ []

abbrev refusal : ℕ → Attempt
refusal n = record {
  events = opens true ∷ failed_at 1 ∷ failed connection_error ∷ [];
  result = err connection_error;
}

reconnect_loop-Ends_example : Ends 3 (reconnect_loop 4 refusal 0 lost_session)
reconnect_loop-Ends_example = reconnect_loop-Ends 3 refusal lost_session refl

session-IsReady : IsReady session
session-IsReady = record {
  opened = refl;
  live = refl;
  transport = 0;
  attached = refl;
  correlates = omega arith;
  started = omega arith;
  room = omega arith;
}

kv_get-IsOrdinary : IsOrdinary 106
kv_get-IsOrdinary = record {
  not_hello = λ e. omega arith;
  not_rejected = λ e. omega arith;
  not_goaway = λ e. omega arith;
}

abbrev asked : Bytes
asked = 0 ∷ 106 ∷ 0 ∷ 0 ∷ 0 ∷ 0 ∷ 0 ∷ 0 ∷ 0 ∷ 0 ∷ 0 ∷ 0 ∷ 0 ∷ 0 ∷ 1 ∷ 5 ∷ []

abbrev replied : Bytes
replied = 0 ∷ 106 ∷ 2 ∷ 0 ∷ 0 ∷ 0 ∷ 0 ∷ 0 ∷ 0 ∷ 0 ∷ 1 ∷ 0 ∷ 0 ∷ 0 ∷ 1 ∷ 9 ∷ []

request_answered_example :
    let frame = patch_frame asked 0 1 in
    let d = frame_sent 0 (request_without_admission 106 (5 ∷ []) 0 session).1 in
    ((request_without_admission 106 (5 ∷ []) 0 session).0 ≡ ok (0, frame))
    × (decode_frame frame
        ≡ ok (record { message_type = 106; flags = 0; correlation_id = 1; payload = 5 ∷ [] }))
    × ((dispatch_transport_frame replied d).0 ≡ ok tt)
    × (get_elem? (dispatch_transport_frame replied d).1.multiplexer.requests 0
        ≡ some
            (record { linked = true; future = resolved (9 ∷ []); sent = true; correlation_id = 1 }))
unfolding encode_frame to_bytes patch_frame
request_answered_example =
    request_answered 106 0 106 (5 ∷ []) asked (9 ∷ []) replied session session-IsReady
      kv_get-IsOrdinary refl (omega arith) refl (omega arith)
