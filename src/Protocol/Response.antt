-- ===== src/Protocol/Response.antt =====
-- protocol/response.py: the envelope of every response. The arguments `plain` and `stream` of the
-- source are dropped by it, and are left out; `parse_stream_response` and
-- `parse_plain_or_coded_response` are `parse_response`.
pub mod Envelope
use fitz_py.Prelude.{
  ℕ, Bool, not, ◌||◌, [], ◌∷◌, ltb, ◌==◌, if◌then◌else◌, Option, none, some, is_some,
}
use fitz_py.Prelude.Bytes.{Bytes}
use fitz_py.Errors.{Error, Result, err, protocol_error}
use fitz_py.Exec.{pure, raise, ◌>>=◌}
use fitz_py.Text.{Str}
use fitz_py.Protocol.Buffer.{Reader, reader, read_u8, read_u16_be, read_string, remaining, is_eof}

pub record Response : Type 0 where
  pub content : Bytes
  pub error_code : Option ℕ
  pub error_class : Option ℕ
  pub effect : Option ℕ
  pub error : Option Str

abbrev pub success : Response → Bool
success r = not (is_some r.error)

abbrev pub success_response : Bytes → Response
success_response bs = record {
  content = bs;
  error_code = none;
  error_class = none;
  effect = none;
  error = none;
}

abbrev pub error_response : ℕ → ℕ → ℕ → Str → Response
error_response code error_class effect message = record {
  content = [];
  error_code = some code;
  error_class = some error_class;
  effect = some effect;
  error = some message;
}

read_error : Reader Response
read_error = do
  code ← read_u16_be
  error_class ← read_u8
  effect ← read_u8
  if ltb 10 error_class || ltb 2 effect then raise (protocol_error (some code)) else do
    message ← read_string
    eof ← is_eof
    if eof
        then pure (error_response code error_class effect message)
        else raise (protocol_error (some code))

-- What follows the status byte.
read_body : ℕ → Reader Response
unfolding read_error
read_body status =
    if status == 0
    then (do bs ← remaining; pure (success_response bs))
    else if status == 1
    then read_error
    else raise (protocol_error (some status))

read_response : Reader Response
unfolding read_body
read_response = do status ← read_u8; read_body status

unfoldable pub parse_response : Bytes → Result Response
unfolding read_response
parse_response [] = err (protocol_error none)
parse_response (b ∷ bs) = (read_response (reader (b ∷ bs))).0
