-- ===== src/Connection.antt =====
-- connection.py: the object that the clients share. What it only reports (logs, metrics, lifecycle
-- events) is left out, and so are the listeners, which are functions of other objects, and the
-- clock. A transport is named by the order of its making, and the task that receives from it by the
-- same number; `receive_task` is `none` when that task has ended.
pub mod Inbound
pub mod Outbound
pub mod Retry
pub mod Lifecycle
use fitz_py.Prelude.{
  ℕ, ◌+◌, min, Bool, true, false, not, ◌&&◌, ◌||◌, ◌∷◌, [], List, ltb, leb, ◌==◌, if◌then◌else◌,
  Option, none, some, take,
}
use fitz_py.Prelude.Bytes.{Bytes}
use fitz_py.Errors.{Error, Result, ok, err, connection_error}
use fitz_py.Exec.{Exec, pure, raise}
use fitz_py.Text.{Str}
use fitz_py.Multiplexer.{Multiplexer}
use fitz_py.Protocol.Messages.{
  msg_rpc_subscribe_worker, msg_rpc_lifecycle, msg_rpc_response, msg_rpc_cancellation,
}
use fitz_py.Runtime.Gate
use fitz_py.Runtime.Dispatcher.{AsyncDispatcher, new_dispatcher}

pub data ConnectionState : Type 0 where
  disconnected connecting connected authenticating authenticated reconnecting closed :
      ConnectionState

-- The part of `ClientConfig` that the connection decides by.
pub record ClientConfig : Type 0 where
  pub max_frame_size : ℕ
  pub max_in_flight : ℕ
  pub request_queue_size : ℕ
  pub reconnect_enabled : Bool
  pub max_attempts : Option ℕ

-- `_auth_error`: no future, one that waits, or its result.
pub data Handshake : Type 0 where
  idle awaiting accepted : Handshake
  rejected : Error → Handshake

pub record Connection : Type 0 where
  pub config : ClientConfig
  pub state : ConnectionState
  pub generation : ℕ
  pub multiplexer : Multiplexer
  pub gate : Gate.World
  pub dispatcher : AsyncDispatcher
  pub transport : Option ℕ
  pub receive_task : Option ℕ
  pub next_transport : ℕ
  pub reconnect_task : Bool
  pub is_closed : Bool
  pub ever_authenticated : Bool
  pub restoring : Bool
  pub close_notified : Bool
  pub handshake : Handshake
  pub max_message_bytes : ℕ
  pub max_in_flight : ℕ
  pub session_id : ℕ
  pub goaway : Option (ℕ × ℕ × Str)

unfoldable pub new_multiplexer : Multiplexer
new_multiplexer = record {
  correlated = [];
  requests = [];
  handlers = [];
  classifiers = [];
  connected = false;
  protocol_version = 0;
  capabilities = 0;
  capability_ids = [];
  next_id = 1;
  pushed = [];
  errors = [];
}

-- `_new_gate`
unfoldable pub new_gate : ClientConfig → Gate.World
new_gate config = Gate.new_world config.max_in_flight config.request_queue_size

-- `concurrency` and `handler_queue` are the limits of the dispatcher.
unfoldable pub new_connection : ClientConfig → ℕ → ℕ → Connection
new_connection config concurrency handler_queue = record {
  config = config;
  state = disconnected;
  generation = 0;
  multiplexer = new_multiplexer;
  gate = new_gate config;
  dispatcher = new_dispatcher concurrency handler_queue;
  transport = none;
  receive_task = none;
  next_transport = 0;
  reconnect_task = false;
  is_closed = false;
  ever_authenticated = false;
  restoring = false;
  close_notified = false;
  handshake = idle;
  max_message_bytes = min config.max_frame_size 1048576;
  max_in_flight = config.max_in_flight;
  session_id = 0;
  goaway = none;
}

abbrev pub is_authenticated : ConnectionState → Bool
is_authenticated authenticated = true
is_authenticated _ = false

abbrev pub is_closed_state : ConnectionState → Bool
is_closed_state closed = true
is_closed_state _ = false

unfoldable pub is_connected : Connection → Bool
is_connected c = is_authenticated c.state

-- `_set_state`
unfoldable pub set_state : ConnectionState → Connection → Connection
set_state s c = if c.is_closed && not (is_closed_state s) then c else record c { state = s }

-- `_ensure_authenticated`
unfoldable pub ensure_authenticated : Exec Connection Unit
ensure_authenticated c =
    if c.is_closed || (not (is_authenticated c.state) && not c.restoring)
    then (err connection_error, c)
    else (ok tt, c)

-- `payload[:1] == b"\x01"`
abbrev pub starts_with_one : Bytes → Bool
starts_with_one [] = false
starts_with_one (b ∷ bs) = b == 1

-- `_one_way_needs_correlation`
unfoldable pub one_way_needs_correlation : ℕ → Bytes → Bool
one_way_needs_correlation message_type payload =
    if not (leb msg_rpc_subscribe_worker message_type && leb message_type msg_rpc_lifecycle)
    then false
    else if message_type == msg_rpc_response || message_type == msg_rpc_lifecycle
    then false
    else if message_type == msg_rpc_cancellation
    then starts_with_one payload
    else true
