-- ===== src/Examples/Services.antt =====
-- The clients of the schedule, stream and notice services at concrete inputs.
use fitz_py.Prelude.{◌≡◌, refl, [], ◌∷◌, true, false, none, some, arith}
use fitz_py.Prelude.Dict.{nat_key}
use fitz_py.Errors.{ok}
use fitz_py.Text.{codes, str_key, startswith, split, contains, str_eq}
use fitz_py.Text.Utf8.{encode_utf8, encode_point}
use fitz_py.Protocol.Buffer.{reader}
use fitz_py.Domains.Link.{Link}
use fitz_py.Domains.Routes.{
  parts_of, checked_parts, has_star, is_star, is_double_star, ends_double, is_exact_route_shape,
}
use fitz_py.Domains.Stream.{StreamRecord, StreamReadCursor, permission, sync}
use fitz_py.Domains.Stream.Records.{read_stream_read_page, is_extended}
use fitz_py.Domains.Stream.Session.{StreamSession, commit, rollback}
use fitz_py.Domains.Stream.Fields.{IsRecord}
use fitz_py.Domains.Stream.Pages.{
  Placed, stored, skipped, IsPlaced, IsCursor, page_bytes, items_of, cursor_of,
  read_stream_read_page-page_bytes,
}
use fitz_py.Domains.Stream.Settled.{Outcome, commit-Outcome}

abbrev link : Link
link = record {
  generation = 4;
  capability_ids = [];
  replies = record { answer = ok (0 ∷ 0 ∷ 0 ∷ 0 ∷ 0 ∷ []); generation = 4; lost = false } ∷ [];
  sent = [];
  lost = false;
  attempts = 1;
}

abbrev appending : StreamSession
appending = record {
  connection = link;
  session_id = 6;
  closed = false;
  closed_reason = none;
  generation = 4;
}

commit-Outcome_example :
    Outcome appending (commit sync appending) × Outcome appending (rollback appending)
commit-Outcome_example = commit-Outcome sync appending

abbrev first_event : StreamRecord
first_event = record {
  route = codes "stream://a/b/c";
  offset = 3;
  area_offset = some 4;
  realm_offset = none;
  global_offset = some 9;
  body = 1 ∷ 2 ∷ [];
  metadata = none;
  timestamp = 77;
}

first_event-IsRecord : IsRecord first_event
first_event-IsRecord = record {
  offset_fits = omega arith;
  area_fits = omega arith;
  realm_fits = tt;
  global_fits = omega arith;
  body_fits = omega arith;
  metadata_fits = tt;
  timestamp_fits = omega arith;
}

stream_route : is_exact_route_shape (codes "stream://a/b/c") (codes "stream") 3 ≡ true
unfolding is_exact_route_shape parts_of checked_parts startswith split has_star contains is_star
    is_double_star ends_double str_eq
stream_route = refl

stream_encodes : encode_utf8 (codes "stream://a/b/c") ≡ some (codes "stream://a/b/c")
unfolding encode_utf8 encode_point
stream_encodes = refl

abbrev event_item : Placed
event_item = record {
  route = codes "stream://a/b/c";
  route_bytes = codes "stream://a/b/c";
  marker = stored first_event;
}

abbrev skipped_item : Placed
skipped_item = record event_item { marker = skipped 5 (some permission) }

event_item-IsPlaced : IsPlaced event_item
event_item-IsPlaced = record {
  shape = stream_route;
  route_encodes = stream_encodes;
  route_fits = omega arith;
  marked = first_event-IsRecord;
}

skipped_item-IsPlaced : IsPlaced skipped_item
skipped_item-IsPlaced = record {
  shape = stream_route;
  route_encodes = stream_encodes;
  route_fits = omega arith;
  marked = omega arith;
}

abbrev cursor : StreamReadCursor
cursor = record {
  last_resource_offset = 5;
  last_area_offset = none;
  last_realm_offset = some 8;
  last_global_offset = some 9;
  cursor_fingerprint = none;
  captured_watermark = some 12;
  has_more = true;
}

cursor-IsCursor : IsCursor cursor
cursor-IsCursor = record {
  resource_fits = omega arith;
  area_fits = tt;
  realm_fits = omega arith;
  global_fits = omega arith;
  fingerprint_fits = tt;
  watermark_fits = omega arith;
}

read_stream_read_page-page_bytes_example :
    (read_stream_read_page
      (codes "stream://**")
      (reader (page_bytes (codes "stream://**") (event_item ∷ skipped_item ∷ []) cursor))).0
    ≡ ok (record {
      items = items_of (is_extended (codes "stream://**")) (event_item ∷ skipped_item ∷ []);
      cursor = cursor_of (is_extended (codes "stream://**")) cursor;
    })
read_stream_read_page-page_bytes_example =
    read_stream_read_page-page_bytes (codes "stream://**") (event_item ∷ skipped_item ∷ []) cursor
      (omega arith) (event_item-IsPlaced, (skipped_item-IsPlaced, tt)) cursor-IsCursor
