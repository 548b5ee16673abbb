-- ===== src/Domains/Stream/Client.antt =====
-- domains/stream.py: the operations of the client.
use fitz_py.Prelude.{
  ℕ, false, not, ◌||◌, [], List, ltb, ◌==◌, if◌then◌else◌, Option, none, some, is_empty,
}
use fitz_py.Prelude.Bytes.{Bytes}
use fitz_py.Errors.{stream}
use fitz_py.Exec.{Exec, pure, gets, lift, guard, ◌>>=◌, ◌>>◌}
use fitz_py.Text.{Str}
use fitz_py.Protocol.Buffer.{
  Writer, write_u64_be, write_route, write_optional_u64, Reader, read_u8, read_u32_be, read_u64_be,
  read_bytes, read_route, remaining_bytes, is_eof,
}
use fitz_py.Protocol.Messages.{
  msg_stream_begin, msg_stream_read, msg_stream_last, msg_stream_get_metadata, msg_stream_subscribe,
  msg_stream_unsubscribe,
}
use fitz_py.Domains.Link.{Link, call, succeeded, succeeded_coded, reading, code_or_zero}
use fitz_py.Domains.Stream.{
  StreamRecord, StreamMetadata, StreamFilterClause, StreamReadPage, empty_cursor, stream_error,
  assert_stream_route, assert_stream_pattern, write_sized, write_optional, encode_stream_filter_set,
}
use fitz_py.Domains.Stream.Records.{
  read_optional_u64, read_stream_record, read_stream_read_page, flatten_stream_read_items,
}
use fitz_py.Domains.Stream.Session.{StreamSession, new_session}

-- `if not reader.is_eof(): raise ...`, and the result.
unfoldable pub at_end : {A : Type 0} → A → Reader A
at_end a = do eof ← is_eof; guard eof (stream_error "INVALID_RESPONSE"); pure a

unfoldable pub read_begun : Reader ℕ
read_begun = do
  left ← remaining_bytes
  guard (not (ltb left 12)) (stream_error "MISSING_SESSION_ID")
  session_id ← read_u64_be
  size ← read_u32_be
  bs ← read_bytes size
  at_end session_id

unfoldable pub begin : Str → Option Bytes → Exec Link StreamSession
begin route ingest_metadata = do
  assert_stream_route route
  response ←
      call msg_stream_begin (do write_route route; write_optional write_sized ingest_metadata)
  succeeded_coded stream "BEGIN" response
  session_id ← reading read_begun response.content
  gets (λ link. new_session link session_id)

-- What `read_page` writes; the bytes of the filter are made meanwhile.
unfoldable pub read_payload :
    Str → ℕ → ℕ → List StreamFilterClause → Option ℕ → Option ℕ → Option ℕ → Writer Unit
read_payload route start_offset limit stream_filter max_bytes cursor_fingerprint
      captured_watermark =
    do
      write_route route
      write_u64_be start_offset
      write_u64_be limit
      write_optional write_u64_be max_bytes
      filter_bytes ← lift (encode_stream_filter_set stream_filter)
      write_optional write_sized (if is_empty filter_bytes then none else some filter_bytes)
      write_optional_u64 cursor_fingerprint
      write_optional_u64 captured_watermark

-- The envelope of a page.
unfoldable pub read_envelope : Reader Bytes
read_envelope = do
  flag ← read_u8
  guard (flag == 0) (stream_error "INVALID_RESPONSE")
  size ← read_u32_be
  bs ← read_bytes size
  at_end bs

unfoldable pub read_page :
    Str
    → ℕ
    → ℕ
    → List StreamFilterClause
    → Option ℕ
    → Option ℕ
    → Option ℕ
    → Exec Link StreamReadPage
read_page route start_offset limit stream_filter max_bytes cursor_fingerprint captured_watermark =
    do
      assert_stream_pattern route
      response ← call msg_stream_read (
          read_payload route start_offset limit stream_filter max_bytes cursor_fingerprint
            captured_watermark)
      succeeded stream "READ" response
      if is_empty response.content then pure (record { items = []; cursor = empty_cursor }) else (do
        bs ← reading read_envelope response.content
        reading (read_stream_read_page route) bs)

-- `read`
unfoldable pub read_records :
    Str
    → ℕ
    → ℕ
    → List StreamFilterClause
    → Option ℕ
    → Option ℕ
    → Option ℕ
    → Exec Link (List StreamRecord)
read_records route start_offset limit stream_filter max_bytes cursor_fingerprint
      captured_watermark =
    do
      page ←
          read_page route start_offset limit stream_filter max_bytes cursor_fingerprint
            captured_watermark
      pure (flatten_stream_read_items page.items)

unfoldable pub read_last : Str → Reader StreamRecord
read_last route = do entry ← read_stream_record route false; at_end entry

unfoldable pub peek : Str → Exec Link (Option StreamRecord)
peek route = do
  assert_stream_route route
  response ← call msg_stream_last (write_route route)
  succeeded_coded stream "LAST" response
  if is_empty response.content
      then pure none
      else (do entry ← reading (read_last route) response.content; pure (some entry))

unfoldable pub read_metadata : Reader StreamMetadata
read_metadata = do
  first_offset ← read_optional_u64
  last_offset ← read_optional_u64
  record_count ← read_u64_be
  max_batch_events ← read_u64_be
  max_batch_bytes ← read_u64_be
  ttl_seconds ← read_optional_u64
  area_watermark ← read_u64_be
  realm_watermark ← read_u64_be
  at_end (record {
    first_offset = code_or_zero first_offset;
    last_offset = code_or_zero last_offset;
    record_count = record_count;
    max_batch_events = some max_batch_events;
    max_batch_bytes = some max_batch_bytes;
    ttl_seconds = ttl_seconds;
    area_watermark = some area_watermark;
    realm_watermark = some realm_watermark;
  })

abbrev empty_metadata : StreamMetadata
empty_metadata = record {
  first_offset = 0;
  last_offset = 0;
  record_count = 0;
  max_batch_events = none;
  max_batch_bytes = none;
  ttl_seconds = none;
  area_watermark = none;
  realm_watermark = none;
}

unfoldable pub metadata : Str → Exec Link StreamMetadata
metadata route = do
  assert_stream_route route
  response ← call msg_stream_get_metadata (write_route route)
  succeeded_coded stream "METADATA" response
  if is_empty response.content then pure empty_metadata else reading read_metadata response.content

unfoldable pub read_subscription : Reader ℕ
read_subscription = do
  has_sub_id ← read_u8
  eof ← is_eof
  guard (not (not (has_sub_id == 1) || eof)) (stream_error "MISSING_SUB_ID")
  sub_id ← read_u64_be
  at_end sub_id

-- `_subscribe_wire`
unfoldable pub subscribe_wire : Str → Exec Link ℕ
subscribe_wire pattern = do
  response ← call msg_stream_subscribe (write_route pattern)
  succeeded_coded stream "SUBSCRIBE" response
  reading read_subscription response.content

-- `_unsubscribe_wire`
unfoldable pub unsubscribe_wire : Str → Exec Link Unit
unsubscribe_wire pattern = do
  response ← call msg_stream_unsubscribe (write_route pattern)
  succeeded_coded stream "UNSUBSCRIBE" response
  guard (is_empty response.content) (stream_error "INVALID_RESPONSE")

-- `_notify`, up to the decoding of the body, which is a JSON object.
unfoldable pub notify : Reader (ℕ × Str × Bytes)
notify = do
  sub_id ← read_u64_be
  route ← read_route
  size ← read_u32_be
  body ← read_bytes size
  eof ← is_eof
  guard eof (stream_error "INVALID_RESPONSE")
  assert_stream_route route
  pure (sub_id, route, body)
