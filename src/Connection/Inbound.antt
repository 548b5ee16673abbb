-- ===== src/Connection/Inbound.antt =====
-- connection.py, `_dispatch_transport_frame`: what one message of the transport does.
pub mod Limits
use fitz_py.Prelude.{
  ℕ, ◌/◌, ◌%◌, min, Bool, true, false, not, ◌&&◌, ◌||◌, [], ◌∷◌, List, ltb, ◌==◌, if◌then◌else◌,
  Option, none, some, length, filter,
}
use fitz_py.Prelude.Bytes.{Bytes}
use fitz_py.Errors.{Error, Result, ok, err, connection_error, protocol_error, authentication_error}
use fitz_py.Exec.{Exec, pure, raise, gets, lift, guard, ◌>>=◌, ◌>>◌}
use fitz_py.Text.{Str}
use fitz_py.Multiplexer.{Multiplexer, set_capabilities, dispatch, dispatch_correlated}
use fitz_py.Protocol.Buffer.{
  Reader, reader, read_u16_be, read_u32_be, read_u64_be, read_string, is_eof,
}
use fitz_py.Protocol.Extensions.{has_extensions, decode_payload}
use fitz_py.Protocol.Frame.{Frame, parse_frames}
use fitz_py.Protocol.Messages.{msg_hello, msg_connect_rejected, msg_goaway}
use fitz_py.Runtime.Gate
use fitz_py.Connection.{Connection, Handshake, idle, awaiting, accepted, rejected, ClientConfig}

-- The fields of a HELLO.
pub record Hello : Type 0 where
  pub version : ℕ
  pub capabilities : ℕ
  pub max_message_bytes : ℕ
  pub max_in_flight : ℕ
  pub session_id : ℕ

unfoldable pub read_hello : Reader Hello
read_hello = do
  version ← read_u16_be
  capabilities ← read_u32_be
  max_message_bytes ← read_u32_be
  max_in_flight ← read_u32_be
  session_id ← read_u64_be
  pure (record {
    version = version;
    capabilities = capabilities;
    max_message_bytes = max_message_bytes;
    max_in_flight = max_in_flight;
    session_id = session_id;
  })

unfoldable pub valid_limits : Hello → Bool
valid_limits h =
    (h.version == 3 && h.capabilities == 0)
    && (not (ltb h.max_message_bytes 15) && not (ltb h.max_in_flight 1))

-- The ids of `CLIENT_CAPABILITY_IDS`.
abbrev pub is_client_capability : ℕ → Bool
is_client_capability id = id == 1 || id == 2

-- `_auth_error.set_result(None)` on a future that is not done.
abbrev pub accept : Handshake → Handshake
accept awaiting = accepted
accept h = h

-- What an accepted HELLO changes.
unfoldable pub negotiate : Hello → List ℕ → Connection → Connection
negotiate h ids c =
    let flight = min h.max_in_flight c.config.max_in_flight in
    record c {
      max_message_bytes = min h.max_message_bytes (min c.config.max_frame_size 1048576);
      max_in_flight = flight;
      multiplexer = record (set_capabilities h.version h.capabilities c.multiplexer) {
        capability_ids = filter is_client_capability ids;
      };
      gate = Gate.new_world flight c.config.request_queue_size;
      handshake = accept c.handshake;
    }

-- The session id is taken over before the limits are looked at.
unfoldable pub apply_hello : Hello → List ℕ → Exec Connection Unit
apply_hello h ids c =
    let s = record c { session_id = h.session_id } in
    if valid_limits h then (ok tt, negotiate h ids s) else (err connection_error, s)

unfoldable pub well_formed_hello : ℕ → ℕ → Bytes → Bool
well_formed_hello flags correlation_id payload =
    flags == 4 && (correlation_id == 0 && length payload == 22)

unfoldable pub receive_hello : ℕ → ℕ → Bytes → List ℕ → Exec Connection Unit
receive_hello flags correlation_id payload ids = do
  version ← gets (λ c. c.multiplexer.protocol_version)
  guard (version == 0) (protocol_error none)
  guard (well_formed_hello flags correlation_id payload) connection_error
  h ← lift ((read_hello (reader payload)).0)
  apply_hello h ids

-- `frame.flags & ~EXTENSIONS_PRESENT or frame.correlation_id != 0`, for flags below 8.
abbrev pub plain_header : ℕ → ℕ → Bool
plain_header flags correlation_id = (flags == 0 || flags == 4) && correlation_id == 0

unfoldable pub read_rejected : Reader (ℕ × Bool)
read_rejected = do code ← read_u16_be; message ← read_string; eof ← is_eof; pure (code, eof)

unfoldable pub receive_rejected : ℕ → ℕ → Bytes → Exec Connection Unit
receive_rejected flags correlation_id payload = do
  (code, eof) ← lift ((read_rejected (reader payload)).0)
  guard (eof && plain_header flags correlation_id) connection_error
  if code == 50 then raise (protocol_error (some code)) else raise authentication_error

unfoldable pub read_goaway : Reader ((ℕ × ℕ × Str) × Bool)
read_goaway = do
  code ← read_u16_be
  grace_ms ← read_u32_be
  reason ← read_string
  eof ← is_eof
  pure ((code, grace_ms, reason), eof)

-- The grace is kept in milliseconds; the callback `on_goaway` is left out.
unfoldable pub receive_goaway : ℕ → ℕ → Bytes → Exec Connection Unit
receive_goaway flags correlation_id payload = do
  (notice, eof) ← lift ((read_goaway (reader payload)).0)
  guard (eof && plain_header flags correlation_id) connection_error
  λ c. (ok tt, record c { goaway = some notice })

-- `frame.flags & RESPONSE_FINAL`, bit 1.
abbrev pub is_final : ℕ → Bool
is_final flags = flags / 2 % 2 == 1

unfoldable pub receive_message : Frame → Bytes → Exec Connection Unit
receive_message f payload c =
    if f.correlation_id == 0
    then (ok tt, record c { multiplexer = dispatch f.message_type payload c.multiplexer })
    else (let (answer, m) =
          dispatch_correlated f.correlation_id payload (is_final f.flags) c.multiplexer in
        (answer, record c { multiplexer = m }))

unfoldable pub receive_decoded : Frame → Bytes × List ℕ → Exec Connection Unit
receive_decoded f (payload, ids) =
    if f.message_type == msg_hello
    then receive_hello f.flags f.correlation_id payload ids
    else if f.message_type == msg_connect_rejected
    then receive_rejected f.flags f.correlation_id payload
    else if f.message_type == msg_goaway
    then receive_goaway f.flags f.correlation_id payload
    else receive_message f payload

unfoldable pub decoded_payload : Frame → Result (Bytes × List ℕ)
decoded_payload f =
    if has_extensions f.flags || f.message_type == msg_hello
    then decode_payload f.payload f.message_type f.flags
    else ok (f.payload, [])

unfoldable pub receive_frames : List Frame → Exec Connection Unit
receive_frames [] = pure tt
receive_frames (f ∷ fs) = do decoded ← lift (decoded_payload f); receive_decoded f decoded

unfoldable pub dispatch_transport_frame : Bytes → Exec Connection Unit
dispatch_transport_frame bs = do
  limit ← gets (λ c. c.max_message_bytes)
  guard (not (ltb limit (length bs))) connection_error
  frames ← lift (parse_frames bs)
  receive_frames frames
