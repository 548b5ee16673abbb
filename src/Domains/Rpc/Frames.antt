-- ===== src/Domains/Rpc/Frames.antt =====
-- domains/rpc.py: the payloads of requests and responses, and what the client makes of them.
use fitz_py.Prelude.{
  ℕ, ◌%◌, Bool, false, not, ◌&&◌, ◌||◌, [], ◌∷◌, ltb, leb, ◌==◌, if◌then◌else◌, bit, Option, none,
  some, length, is_empty,
}
use fitz_py.Prelude.Bytes.{Bytes}
use fitz_py.Errors.{
  Error, Result, ok, err, rpc, domain_error, value_error, codec_error, unicode_error,
  protocol_error,
}
use fitz_py.Exec.{pure, guard, ◌>>=◌, ◌>>◌}
use fitz_py.Text.{Str}
use fitz_py.Protocol.Buffer.{
  Writer, write_u8, write_u16_be, write_u32_be, write_u64_be, write_bytes, write_string,
  write_route, Reader, reader, read_u8, read_u32_be, read_u64_be, read_bytes, read_route,
  remaining_bytes, is_eof,
}
use fitz_py.Protocol.Response.{Response, success, parse_response}
use fitz_py.Protocol.Messages.{msg_rpc_subscribe_worker, msg_rpc_unsubscribe_worker}
use fitz_py.Domains.Link.{Link, call, succeeded, reading}
use fitz_py.Exec.{Exec}
use fitz_py.Domains.Rpc.{rpc_error}

-- `_MAX_RPC_BUDGET_MS`
abbrev pub max_budget : ℕ
max_budget = 86400000

-- `_write_request_budget`
unfoldable pub write_request_budget : Option ℕ → Writer Unit
write_request_budget none = write_u8 0
write_request_budget (some budget) = do
  guard (leb budget max_budget) value_error
  write_u8 1
  write_u32_be budget

-- The payload of a request.
unfoldable pub request_payload : Bytes → Str → Bytes → Option ℕ → Writer Unit
request_payload correlation_id route body budget = do
  write_bytes correlation_id
  write_route route
  write_u32_be (length body)
  write_bytes body
  write_request_budget budget

unfoldable pub read_some_budget : Reader (Option ℕ)
read_some_budget = do
  budget ← read_u32_be
  guard (leb budget max_budget) (rpc_error "INVALID_RESPONSE")
  pure (some budget)

unfoldable pub read_flagged_budget : ℕ → Reader (Option ℕ)
read_flagged_budget flag =
    if flag == 0
    then (do eof ← is_eof; guard eof (rpc_error "INVALID_RESPONSE"); pure none)
    else (do
      left ← remaining_bytes
      guard ((flag == 1) && (left == 4)) (rpc_error "INVALID_RESPONSE")
      read_some_budget)

-- `_read_request_budget`
unfoldable pub read_request_budget : Reader (Option ℕ)
read_request_budget = do
  eof ← is_eof
  guard (not eof) (rpc_error "INVALID_RESPONSE")
  flag ← read_u8
  read_flagged_budget flag

-- What `_on_request` reads; the deadline that the budget gives is left out.
pub record Inbound : Type 0 where
  pub correlation_id : Bytes
  pub route : Str
  pub body : Bytes
  pub budget : Option ℕ

unfoldable pub read_inbound : Reader Inbound
read_inbound = do
  correlation_id ← read_bytes 16
  route ← read_route
  size ← read_u32_be
  body ← read_bytes size
  budget ← read_request_budget
  pure (record { correlation_id = correlation_id; route = route; body = body; budget = budget })

unfoldable pub read_request : Reader Inbound
read_request = do
  request ← read_inbound
  eof ← is_eof
  guard eof (rpc_error "INVALID_RESPONSE")
  pure request

-- `except BaseException: return False`
abbrev pub or_false : Result Bool → Bool
or_false (ok b) = b
or_false (err e) = false

-- `_looks_like_request`
unfoldable pub looks_like_request : Bytes → Bool
looks_like_request payload = or_false (((do request ← read_inbound; is_eof) (reader payload)).0)

-- The payload of a response.
unfoldable pub response_payload : Bytes → ℕ → Bool → Bytes → Writer Unit
response_payload correlation_id sequence end body = do
  write_bytes correlation_id
  write_u64_be sequence
  write_u8 (bit end)
  write_u32_be (length body)
  write_bytes body

-- What `_on_response` reads.
pub record Answer : Type 0 where
  pub correlation_id : Bytes
  pub sequence : ℕ
  pub end : Bool
  pub body : Bytes

unfoldable pub read_response : Reader Answer
read_response = do
  correlation_id ← read_bytes 16
  sequence ← read_u64_be
  flags ← read_u8
  guard (not (ltb 1 flags)) (rpc_error "INVALID_RESPONSE")
  size ← read_u32_be
  body ← read_bytes size
  eof ← is_eof
  guard eof (rpc_error "INVALID_RESPONSE")
  pure (record {
    correlation_id = correlation_id;
    sequence = sequence;
    end = flags == 1;
    body = body;
  })

-- `_looks_like_response`
unfoldable pub looks_like_response : Bytes → Bool
looks_like_response payload = or_false ((looks (reader payload)).0)
  where
    looks : Reader Bool
    looks = do
      correlation_id ← read_bytes 16
      sequence ← read_u64_be
      flags ← read_u8
      size ← read_u32_be
      body ← read_bytes size
      eof ← is_eof
      pure (not (ltb 1 flags) && eof)

-- The effect that `_send_error` writes.
abbrev pub effect_of : ℕ → ℕ
effect_of code = if code % 1000 == 5 then 0 else bit ((code % 1000 == 6) || (code % 1000 == 7))

-- What `_send_error` sends as its last frame.
unfoldable pub error_body : ℕ → Str → Writer Unit
error_body code message = do
  write_u8 1
  write_u16_be code
  write_u8 (code % 1000)
  write_u8 (effect_of code)
  write_string message

abbrev pub is_call_code : ℕ → Bool
is_call_code code = (leb 6001 code && leb code 6010) || (leb 6050 code && leb code 6055)

abbrev call_error : Response → Option ℕ → Option Error
call_error r none = none
call_error r (some code) =
    if is_call_code code && is_empty r.content
    then some (domain_error rpc "CALL" (some code) r.error_class r.effect)
    else none

-- The errors of `parse_response` that are caught.
abbrev pub terminal_of : Result Response → Result (Option Error)
terminal_of (ok r) = ok (if success r then none else call_error r r.error_code)
terminal_of (err codec_error) = ok none
terminal_of (err (protocol_error code)) = ok none
terminal_of (err unicode_error) = ok none
terminal_of (err e) = err e

abbrev pub first_is_one : Bytes → Bool
first_is_one [] = false
first_is_one (b ∷ bs) = b == 1

-- `_decode_terminal_error`
unfoldable pub decode_terminal_error : Bytes → Result (Option Error)
decode_terminal_error body =
    if ltb (length body) 9 || not (first_is_one body)
    then ok none
    else terminal_of (parse_response body)

-- What `_abandon_call` sends to ask for a cancellation.
unfoldable pub cancellation_payload : Bytes → ℕ → Writer Unit
cancellation_payload key reason = do write_u8 1; write_bytes key; write_u8 reason

-- What `_expect_empty_rpc_success` reads.
unfoldable pub empty_success : Reader (Unit {0})
empty_success = do
  size ← read_u32_be
  payload ← read_bytes size
  eof ← is_eof
  guard (is_empty payload && eof) (rpc_error "INVALID_RESPONSE")

-- `_subscribe`
unfoldable pub subscribe_wire : Str → ℕ → Exec Link (Unit {0})
subscribe_wire route max_concurrency = do
  response ←
      call msg_rpc_subscribe_worker (do write_route route; write_u32_be max_concurrency; write_u8 1)
  succeeded rpc "SUBSCRIBE" response
  reading empty_success response.content

-- The request of `_unregister`.
unfoldable pub unsubscribe_wire : Str → Exec Link (Unit {0})
unsubscribe_wire route = do
  response ← call msg_rpc_unsubscribe_worker (write_route route)
  succeeded rpc "UNSUBSCRIBE" response
  reading empty_success response.content
