-- ===== src/Domains/Stream/Session.antt =====
-- domains/stream.py: an append session. The text of its error names the operation and the reason of
-- its end; the model's has neither.
use fitz_py.Prelude.{
  ℕ, String, Bool, true, false, not, ◌&&◌, ◌==◌, if◌then◌else◌, Option, none, some, length,
  is_empty,
}
use fitz_py.Prelude.Bytes.{Bytes, from_bytes}
use fitz_py.Errors.{stream, stale_handle, err, ok}
use fitz_py.Exec.{Exec, pure, gets, lift, guard, ◌>>=◌, ◌>>◌}
use fitz_py.Errors
use fitz_py.Text.{Str}
use fitz_py.Protocol.Buffer.{
  Writer, written, write_u8, write_u64_be, write_string, Reader, reader, read_u32_be, read_bytes,
  is_eof,
}
use fitz_py.Protocol.Response.{Response, parse_response, success}
use fitz_py.Protocol.Messages.{msg_stream_append, msg_stream_commit, msg_stream_rollback}
use fitz_py.Domains.Link.{Link, request_frame}
use fitz_py.Domains.Stream.{
  StreamCommitMode, buffered, sync, stream_error, write_sized, write_optional,
}

-- `StreamSession`, with the connection it works on.
pub record StreamSession : Type 0 where
  pub connection : Link
  pub session_id : ℕ
  pub closed : Bool
  pub closed_reason : Option String
  pub generation : ℕ

-- `StreamSession.__init__`
unfoldable pub new_session : Link → ℕ → StreamSession
new_session connection session_id = record {
  connection = connection;
  session_id = session_id;
  closed = false;
  closed_reason = none;
  generation = connection.generation;
}

-- `_ensure_open`
unfoldable pub ensure_open : Exec StreamSession Unit
ensure_open s =
    if not s.closed && (s.generation == s.connection.generation)
    then (ok tt, s)
    else (err (stale_handle "Stream session"), s)

-- `_invalidate`
unfoldable pub invalidate : StreamSession → StreamSession
invalidate s =
    if s.closed then s else record s { closed = true; closed_reason = some "disconnected" }

-- A request of the session; `_invalidate` is called when the transport is lost meanwhile.
unfoldable pub request : ℕ → Bytes → Exec StreamSession Bytes
request message_type payload s =
    let (answer, link) = request_frame message_type payload s.connection in
    (
      answer,
      if link.lost
          then invalidate (record s { connection = link })
          else record s { connection = link },
    )

-- The payload is built and sent, and the envelope of the answer is opened; an error in it is raised.
unfoldable pub exchange : ℕ → String → Writer Unit → Exec StreamSession Response
exchange message_type operation payload = do
  bs ← lift (written payload)
  raw ← request message_type bs
  response ← lift (parse_response raw)
  guard (success response) (
      Errors.domain_error stream operation response.error_code response.error_class response.effect)
  pure response

-- The data of an answer to `append`.
unfoldable pub read_appended : Reader (Option ℕ)
read_appended = do
  size ← read_u32_be
  bs ← read_bytes size
  eof ← is_eof
  guard eof (stream_error "INVALID_RESPONSE")
  pure (if length bs == 8 then some (from_bytes bs) else none)

unfoldable pub append_payload : ℕ → ℕ → Bytes → Option Bytes → Option Str → Writer Unit
append_payload session_id expected_offset body metadata discriminator = do
  write_u64_be session_id
  write_u64_be expected_offset
  write_sized body
  write_optional write_sized metadata
  write_optional write_string discriminator

unfoldable pub append : ℕ → Bytes → Option Bytes → Option Str → Exec StreamSession (Option ℕ)
append expected_offset body metadata discriminator = do
  ensure_open
  id ← gets (λ s. s.session_id)
  response ←
      exchange msg_stream_append "APPEND"
        (append_payload id expected_offset body metadata discriminator)
  if is_empty response.content
      then pure none
      else lift ((read_appended (reader response.content)).0)

-- What a COMMIT is answered with, beside its status.
unfoldable pub read_committed : Reader Unit
read_committed = do
  size ← read_u32_be
  bs ← read_bytes size
  eof ← is_eof
  guard eof (stream_error "INVALID_RESPONSE")

-- `_expect_status`
unfoldable pub expect_status : ℕ → Writer Unit → String → Exec StreamSession Unit
expect_status message_type payload operation = do
  response ← exchange message_type operation payload
  if message_type == msg_stream_commit
      then lift ((read_committed (reader response.content)).0)
      else guard (is_empty response.content) (stream_error "INVALID_RESPONSE")

-- The session is over.
unfoldable pub close : String → Exec StreamSession Unit
close reason s = (ok tt, record s { closed = true; closed_reason = some reason })

abbrev pub mode_byte : StreamCommitMode → ℕ
mode_byte buffered = 0
mode_byte sync = 1

unfoldable pub commit : StreamCommitMode → Exec StreamSession Unit
commit mode = do
  ensure_open
  id ← gets (λ s. s.session_id)
  expect_status msg_stream_commit (do write_u64_be id; write_u8 (mode_byte mode)) "COMMIT"
  close "committed"

unfoldable pub rollback : Exec StreamSession Unit
rollback = do
  ensure_open
  id ← gets (λ s. s.session_id)
  expect_status msg_stream_rollback (write_u64_be id) "ROLLBACK"
  close "rolled back"

-- `__aexit__`
unfoldable pub leave : Exec StreamSession Unit
leave s = if s.closed then (ok tt, s) else rollback s
