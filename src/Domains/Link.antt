-- ===== src/Domains/Link.antt =====
-- What a client asks of its connection: domains/base.py, with the answers of `Connection.request` as
-- a script, and the tests of a response that the clients share.
pub mod Takes
use fitz_py.Prelude.{
  ℕ, zero, suc, String, Bool, [], ◌∷◌, List, if◌then◌else◌, Option, none, some, is_empty,
}
use fitz_py.Prelude.Bytes.{Bytes}
use fitz_py.Errors.{Domain, domain_error, Error, Result, ok, err, connection_error}
use fitz_py.Errors.Retry.{response_error, is_retryable}
use fitz_py.Exec.{Exec, lift, guard, ◌>>=◌}
use fitz_py.Protocol.Buffer.{BufferReader, Writer, written, reader}
use fitz_py.Protocol.Response.{Response, success, parse_response}

-- What a call of `Connection.request` comes back with: what it returns or raises, the generation
-- that the connection has by then, and whether it lost its transport meanwhile.
pub record Reply : Type 0 where
  pub answer : Result Bytes
  pub generation : ℕ
  pub lost : Bool

-- A frame handed to the connection: message type, payload, flags.
pub record Sent : Type 0 where
  pub message_type : ℕ
  pub payload : Bytes
  pub flags : ℕ

-- `lost` is what the last request left; `attempts` is the policy of `run_with_retry`, 1 when the
-- policy is off.
pub record Link : Type 0 where
  pub generation : ℕ
  pub capability_ids : List ℕ
  pub replies : List Reply
  pub sent : List Sent
  pub lost : Bool
  pub attempts : ℕ

-- A script that has run out stands for a connection that is closed.
answered : List Reply → Link → Result Bytes × Link
answered [] s = (err connection_error, s)
answered (r ∷ rs) s =
    (r.answer, record s { generation = r.generation; replies = rs; lost = r.lost })

-- `request_frame_with_flags`
unfoldable pub request_frame_with_flags : ℕ → Bytes → ℕ → Exec Link Bytes
unfolding answered
request_frame_with_flags message_type payload flags s = answered s.replies (record s {
  sent = record { message_type = message_type; payload = payload; flags = flags } ∷ s.sent;
})

unfoldable pub request_frame : ℕ → Bytes → Exec Link Bytes
request_frame message_type payload = request_frame_with_flags message_type payload 0

-- `response.error_code or 0`
abbrev pub code_or_zero : Option ℕ → ℕ
code_or_zero none = 0
code_or_zero (some code) = code

abbrev pub invalid_response : Domain → Error
invalid_response d = domain_error d "INVALID_RESPONSE" none none none

-- `if not response.success: raise domain_error(...)`
unfoldable pub succeeded : Domain → String → Response → Exec Link Unit
succeeded d operation r =
    guard (success r)
      (response_error d operation (code_or_zero r.error_code) r.error_class r.effect)

-- `if not response.success: raise XError(message, operation, code, class, effect)`
unfoldable pub succeeded_coded : Domain → String → Response → Exec Link Unit
succeeded_coded d operation r =
    guard (success r) (domain_error d operation r.error_code r.error_class r.effect)

-- What a reader makes of a response's data.
abbrev pub reading : {A : Type 0} → (BufferReader → Result A × BufferReader) → Bytes → Exec Link A
reading m bs = lift ((m (reader bs)).0)

-- A payload is built and sent, and the envelope of the answer is opened.
unfoldable pub call : ℕ → Writer Unit → Exec Link Response
call message_type payload = do
  bs ← lift (written payload)
  raw ← request_frame message_type bs
  lift (parse_response raw)

-- `if response.data: raise XError(message, "INVALID_RESPONSE")`
unfoldable pub no_data : Domain → Response → Exec Link Unit
no_data d r = guard (is_empty r.content) (invalid_response d)

retry_after : {S A : Type 0} → Result A × S → Exec S A → Result A × S
retry_after (ok a, s) next = (ok a, s)
retry_after (err e, s) next = if is_retryable e then next s else (err e, s)

-- `Connection.run_with_retry`, less the pauses: after each of the first `n` tries an error that may
-- be retried leads to another try.
unfoldable pub run_with_retry : {S A : Type 0} → ℕ → Exec S A → Exec S A
unfolding retry_after
run_with_retry zero operation s = operation s
run_with_retry (suc n) operation s = retry_after (operation s) (run_with_retry n operation)
