-- ===== src/Domains/Stream/Records.antt =====
-- domains/stream.py: the readers of records, of read items and of pages.
use fitz_py.Prelude.{
  ℕ, zero, suc, Bool, true, false, not, ◌||◌, [], ◌∷◌, List, ltb, ◌==◌, if◌then◌else◌, Option, none,
  some,
}
use fitz_py.Prelude.Bytes.{Bytes}
use fitz_py.Exec.{pure, raise, guard, ◌>>=◌, ◌>>◌}
use fitz_py.Text.{Str, codes, str_eq, startswith}
use fitz_py.Protocol.Buffer.{
  Reader, read_u8, read_u32_be, read_u64_be, read_bytes, read_route, is_eof,
}
use fitz_py.Domains.Stream.{
  StreamRecord, StreamFilteredReason, server_filter, permission, projection, event, filtered,
  filtered_range, StreamReadCursor, StreamReadItem, StreamReadPage, stream_error,
  assert_stream_route,
}

-- `_read_optional_u64`
unfoldable pub read_optional_u64 : Reader (Option ℕ)
read_optional_u64 = do
  flag ← read_u8
  if flag == 0
      then pure none
      else if not (flag == 1)
      then raise (stream_error "INVALID_RESPONSE")
      else (do value ← read_u64_be; pure (some value))

-- `_read_optional_bytes`
unfoldable pub read_optional_bytes : Reader (Option Bytes)
read_optional_bytes = do
  flag ← read_u8
  if flag == 0
      then pure none
      else if not (flag == 1)
      then raise (stream_error "INVALID_RESPONSE")
      else (do size ← read_u32_be; value ← read_bytes size; pure (some value))

-- `_read_optional_u64(reader) if extended else None`
unfoldable pub read_extended : Bool → Reader (Option ℕ)
read_extended true = read_optional_u64
read_extended false = pure none

-- `_read_stream_record`
unfoldable pub read_stream_record : Str → Bool → Reader StreamRecord
read_stream_record route extended = do
  offset ← read_u64_be
  area_offset ← read_optional_u64
  realm_offset ← read_optional_u64
  global_offset ← read_extended extended
  size ← read_u32_be
  body ← read_bytes size
  metadata ← read_optional_bytes
  timestamp ← read_u64_be
  pure (record {
    route = route;
    offset = offset;
    area_offset = area_offset;
    realm_offset = realm_offset;
    global_offset = global_offset;
    body = body;
    metadata = metadata;
    timestamp = timestamp;
  })

-- `_read_filtered_reason`
unfoldable pub read_filtered_reason : Reader (Option StreamFilteredReason)
read_filtered_reason = do
  tag ← read_u8
  if tag == 0
      then pure none
      else if tag == 1
      then pure (some server_filter)
      else if tag == 2
      then pure (some permission)
      else if tag == 3
      then pure (some projection)
      else raise (stream_error "INVALID_FILTERED_REASON")

unfoldable pub read_event : Str → Bool → Reader StreamReadItem
read_event route extended = do
  entry ← read_stream_record route extended
  pure (record {
    kind = event;
    route = route;
    entry = some entry;
    offset = 0;
    from_offset = 0;
    to_offset = 0;
    reason = none;
  })

unfoldable pub read_filtered : Str → Reader StreamReadItem
read_filtered route = do
  offset ← read_u64_be
  reason ← read_filtered_reason
  pure (record {
    kind = filtered;
    route = route;
    entry = none;
    offset = offset;
    from_offset = 0;
    to_offset = 0;
    reason = reason;
  })

unfoldable pub read_filtered_range : Str → Reader StreamReadItem
read_filtered_range route = do
  from_offset ← read_u64_be
  to_offset ← read_u64_be
  reason ← read_filtered_reason
  pure (record {
    kind = filtered_range;
    route = route;
    entry = none;
    offset = 0;
    from_offset = from_offset;
    to_offset = to_offset;
    reason = reason;
  })

-- `_read_stream_read_item`
unfoldable pub read_stream_read_item : Str → Bool → Reader StreamReadItem
read_stream_read_item route extended = do
  tag ← read_u8
  if tag == 0
      then read_event route extended
      else if tag == 1
      then read_filtered route
      else if tag == 2
      then read_filtered_range route
      else raise (stream_error "INVALID_READ_ITEM")

-- `_read_bool_u8`
unfoldable pub read_bool_u8 : Reader Bool
read_bool_u8 = do
  value ← read_u8
  if ltb 1 value then raise (stream_error "INVALID_BOOLEAN_FLAG") else pure (value == 1)

-- The loop over the items.
unfoldable pub read_items : Bool → ℕ → Reader (List StreamReadItem)
read_items extended zero = pure []
read_items extended (suc count) = do
  route ← read_route
  assert_stream_route route
  item ← read_stream_read_item route extended
  items ← read_items extended count
  pure (item ∷ items)

unfoldable pub read_cursor : Bool → Reader StreamReadCursor
read_cursor extended = do
  last_resource_offset ← read_u64_be
  last_area_offset ← read_optional_u64
  last_realm_offset ← read_optional_u64
  last_global_offset ← read_extended extended
  has_more ← read_bool_u8
  cursor_fingerprint ← read_extended extended
  captured_watermark ← read_extended extended
  pure (record {
    last_resource_offset = last_resource_offset;
    last_area_offset = last_area_offset;
    last_realm_offset = last_realm_offset;
    last_global_offset = last_global_offset;
    cursor_fingerprint = cursor_fingerprint;
    captured_watermark = captured_watermark;
    has_more = has_more;
  })

-- The selector is one over all realms.
unfoldable pub is_extended : Str → Bool
is_extended selector =
    str_eq selector (codes "stream://**") || startswith selector (codes "stream://*/")

-- `_read_stream_read_page`
unfoldable pub read_stream_read_page : Str → Reader StreamReadPage
read_stream_read_page selector = do
  count ← read_u32_be
  items ← read_items (is_extended selector) count
  cursor ← read_cursor (is_extended selector)
  eof ← is_eof
  guard eof (stream_error "INVALID_RESPONSE")
  pure (record { items = items; cursor = cursor })

-- `_flatten_stream_read_items`: only an event has a record.
unfoldable pub flatten_stream_read_items : List StreamReadItem → List StreamRecord
flatten_stream_read_items [] = []
flatten_stream_read_items (item ∷ items) = elim item.entry [
  | none ↦ flatten_stream_read_items items
  | some entry ↦ elim item.kind [
    | event ↦ entry ∷ flatten_stream_read_items items
    | filtered ↦ flatten_stream_read_items items
    | filtered_range ↦ flatten_stream_read_items items
  ]
]
