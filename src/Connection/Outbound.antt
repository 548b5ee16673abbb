-- ===== src/Connection/Outbound.antt =====
-- connection.py: the CONNECT message, and a request on its way out.
pub mod Answered
use fitz_py.Prelude.{ℕ, Bool, [], ◌∷◌, ltb, not, if◌then◌else◌, Option, none, some, length, is_some}
use fitz_py.Prelude.Bytes.{Bytes}
use fitz_py.Errors.{
  Error, Result, ok, err, connection_error, transport_error, timeout_error, cancelled,
}
use fitz_py.Exec.{Exec, pure, raise, gets, lift, guard, ◌>>=◌, ◌>>◌}
use fitz_py.Errors
use fitz_py.Text.{Str, codes}
use fitz_py.Multiplexer.{issue_request, send_failed, send_done, next_correlation_id}
use fitz_py.Protocol.Buffer.{Writer, written, write_u16_be, write_u32_be, write_string}
use fitz_py.Protocol.Extensions.{encode_payload, encode_capabilities}
use fitz_py.Protocol.Frame.{encode_frame}
use fitz_py.Protocol.Messages.{msg_connect}
use fitz_py.Runtime.Gate
use fitz_py.Connection.{Connection, ensure_authenticated, one_way_needs_correlation}

-- `service_name` comes stripped, and is empty when there is none.
unfoldable pub write_connect : Str → Str → Writer Unit
write_connect token service_name = do
  write_u16_be 3
  write_u16_be 3
  write_u32_be 0
  write_string token
  write_string service_name
  write_string (codes "fitz-py/0.4.0")

-- `_send_connect`, up to `_send_frame`.
unfoldable pub connect_frame : Str → Str → Result Bytes
connect_frame token service_name =
    Errors.◌>>=◌ (written (write_connect token service_name)) (λ core.
      Errors.◌>>=◌ (encode_capabilities (1 ∷ 2 ∷ [])) (λ ids.
        Errors.◌>>=◌ (encode_payload core ((1, ids) ∷ []))
          (λ payload. encode_frame msg_connect payload 4 0)))

-- `_send_frame`, up to `transport.send`.
unfoldable pub check_frame : Bytes → Exec Connection Unit
check_frame frame = do
  transport ← gets (λ c. c.transport)
  guard (is_some transport) connection_error
  limit ← gets (λ c. c.max_message_bytes)
  guard (not (ltb limit (length frame))) transport_error

-- `request`, from the admission on: the place of the request, and the frame for the transport. The
-- frame is made before the request is registered, and is looked at after.
unfoldable pub issue : ℕ → Bytes → ℕ → Exec Connection (ℕ × Bytes)
issue message_type payload flags c =
    elim (encode_frame message_type payload flags 0) as (λ _. Result (ℕ × Bytes) × Connection) [
      | err e ↦ (err e, c)
      | ok frame ↦
          let (issued, m) = issue_request frame flags c.multiplexer in
          (issued, record c { multiplexer = m })
    ]

-- The check of the frame, up to `transport.send`; when the frame may not go out, the request is given
-- up as after a failed send.
sent_or_dropped : ℕ × Bytes → Result (Unit {0}) × Connection → Result (ℕ × Bytes) × Connection
sent_or_dropped (place, frame) (ok u, c) = (ok (place, frame), c)
sent_or_dropped (place, frame) (err e, c) =
    (err e, record c { multiplexer = (send_failed place e c.multiplexer).1 })

-- `_request_without_gate`, which `request` calls when the gate has let it in.
unfoldable pub request_without_gate : ℕ → Bytes → ℕ → Exec Connection (ℕ × Bytes)
unfolding sent_or_dropped
request_without_gate message_type payload flags = do
  (place, frame) ← issue message_type payload flags
  λ c. sent_or_dropped (place, frame) (check_frame frame c)

unfoldable pub request_without_admission : ℕ → Bytes → ℕ → Exec Connection (ℕ × Bytes)
request_without_admission message_type payload flags = do
  ensure_authenticated
  request_without_gate message_type payload flags

-- `transport.send` returned.
unfoldable pub frame_sent : ℕ → Connection → Connection
frame_sent place c = record c { multiplexer = send_done place c.multiplexer }

-- What `request` and `reserve_admission` do first: the outcome of the gate.
unfoldable pub reserve_admission : Exec Connection Gate.Outcome
reserve_admission = do
  ensure_authenticated
  λ c. (let (outcome, w) = Gate.acquire c.gate in (ok outcome, record c { gate = w }))

-- `release()`, on the gate that gave the token.
unfoldable pub release_admission : ℕ → Connection → Connection
release_admission token c = record c { gate = Gate.release token c.gate }

correlation_for : Bool → Exec Connection ℕ
correlation_for needed c =
    if needed
    then (let (id, m) = next_correlation_id c.multiplexer in (id, record c { multiplexer = m }))
    else (ok 0, c)

-- `send`, from the admission to `transport.send`.
unfoldable pub send_one_way : ℕ → Bytes → Exec Connection Bytes
unfolding correlation_for
send_one_way message_type payload = do
  id ← correlation_for (one_way_needs_correlation message_type payload)
  frame ← lift (encode_frame message_type payload 0 id)
  check_frame frame
  pure frame
