-- ===== src/Domains/Stream/Pages.antt =====
-- The pages of a stream: their wire form.
use fitz_py.Prelude.{
  ℕ, ◌^◌, ◌<◌, ◌≡◌, Bool, true, ◌++◌, [], ◌∷◌, List, length, All, bit, Option, none, some,
}
use fitz_py.Prelude.Bytes.{Bytes, to_bytes}
use fitz_py.Errors.{ok}
use fitz_py.Text.{Str, codes}
use fitz_py.Text.Utf8.{encode_utf8}
use fitz_py.Protocol.Buffer.{reader, read_u32_be, read_u64_be, read_route}
use fitz_py.Protocol.Buffer.Writes.{string_bytes}
use fitz_py.Protocol.Buffer.RoundTrip.{optional_bytes, Fits}
use fitz_py.Protocol.Buffer.Reads.{
  Reads, Reads-bind, Reads-pure, Reads-uint, Reads-u8, Reads-string, ReadsAll-bind,
  ReadsAll-bind_last, ReadsAll-is_eof, ReadsAll-pure, reader-ReadsAll,
}
use fitz_py.Domains.Routes.{is_exact_route_shape}
use fitz_py.Domains.Stream.{
  StreamRecord, StreamFilteredReason, event, filtered, filtered_range, StreamReadCursor,
  StreamReadItem, assert_stream_route,
}
use fitz_py.Domains.Stream.Records.{
  read_event, read_filtered, read_filtered_range, read_stream_read_item, read_items, read_cursor,
  is_extended, read_stream_read_page,
}
use fitz_py.Domains.Stream.Fields.{
  Reads-optional_u64, Reads-extended, Reads-reason, Reads-bool, Reads-record, IsRecord,
  record_bytes, seen, held, extended_bytes, reason_bytes,
}

-- One item of a page, as the broker means it.
pub data Marker : Type 0 where
  stored : StreamRecord → Marker
  skipped : ℕ → Option StreamFilteredReason → Marker
  skipped_range : ℕ → ℕ → Option StreamFilteredReason → Marker

-- With its route and the UTF-8 form of the route.
pub record Placed : Type 0 where
  pub route : Str
  pub route_bytes : Bytes
  pub marker : Marker

abbrev pub marker_bytes : Bool → Marker → Bytes
marker_bytes extended (stored r) = 0 ∷ (record_bytes extended r ++ [])
marker_bytes extended (skipped offset reason) =
    1 ∷ (to_bytes 8 offset ++ (reason_bytes reason ++ []))
marker_bytes extended (skipped_range first last reason) =
    2 ∷ (to_bytes 8 first ++ (to_bytes 8 last ++ (reason_bytes reason ++ [])))

-- The item that the client makes of it.
abbrev pub item_of : Bool → Str → Marker → StreamReadItem
item_of extended route (stored r) = record {
  kind = event;
  route = route;
  entry = some (seen extended (record r { route = route }));
  offset = 0;
  from_offset = 0;
  to_offset = 0;
  reason = none;
}
item_of extended route (skipped offset reason) = record {
  kind = filtered;
  route = route;
  entry = none;
  offset = offset;
  from_offset = 0;
  to_offset = 0;
  reason = reason;
}
item_of extended route (skipped_range first last reason) = record {
  kind = filtered_range;
  route = route;
  entry = none;
  offset = 0;
  from_offset = first;
  to_offset = last;
  reason = reason;
}

abbrev pub IsMarker : Marker → Type 0
IsMarker (stored r) = IsRecord r
IsMarker (skipped offset reason) = offset < 256 ^ 8
IsMarker (skipped_range first last reason) = (first < 256 ^ 8) × (last < 256 ^ 8)

-- The route is one of a stream, and everything fits.
pub record IsPlaced (p : Placed) : Type 0 where
  pub shape : is_exact_route_shape p.route (codes "stream") 3 ≡ true
  pub route_encodes : encode_utf8 p.route ≡ some p.route_bytes
  pub route_fits : length p.route_bytes < 2 ^ 32
  pub marked : IsMarker p.marker

under_route : (route : Str) (r : StreamRecord) → IsRecord r → IsRecord (record r { route = route })
under_route route r h = record {
  offset_fits = h.offset_fits;
  area_fits = h.area_fits;
  realm_fits = h.realm_fits;
  global_fits = h.global_fits;
  body_fits = h.body_fits;
  metadata_fits = h.metadata_fits;
  timestamp_fits = h.timestamp_fits;
}

Reads-item :
    (extended : Bool) (route : Str) (m : Marker)
    → IsMarker m
    → Reads
        (read_stream_read_item route extended)
        (item_of extended route m)
        (marker_bytes extended m)
unfolding read_stream_read_item read_event read_filtered read_filtered_range read_u64_be
Reads-item extended route (stored r) h = Reads-bind _ (Reads-u8 0) (
    Reads-bind _ (Reads-record extended (record r { route = route }) (under_route route r h))
      (Reads-pure (item_of extended route (stored r))))
Reads-item extended route (skipped offset reason) h = Reads-bind _ (Reads-u8 1) (
    Reads-bind _ (Reads-uint 8 offset h) (
      Reads-bind _ (Reads-reason reason)
        (Reads-pure (item_of extended route (skipped offset reason)))))
Reads-item extended route (skipped_range first last reason) (h, k) = Reads-bind _ (Reads-u8 2) (
    Reads-bind _ (Reads-uint 8 first h) (
      Reads-bind _ (Reads-uint 8 last k) (
        Reads-bind _ (Reads-reason reason)
          (Reads-pure (item_of extended route (skipped_range first last reason))))))

abbrev pub items_bytes : Bool → List Placed → Bytes
items_bytes extended [] = []
items_bytes extended (p ∷ ps) =
    string_bytes p.route_bytes
    ++ ([] ++ (marker_bytes extended p.marker ++ (items_bytes extended ps ++ [])))

abbrev pub items_of : Bool → List Placed → List StreamReadItem
items_of extended [] = []
items_of extended (p ∷ ps) = item_of extended p.route p.marker ∷ items_of extended ps

Reads-route : (p : Placed) → IsPlaced p → Reads (assert_stream_route p.route) tt []
unfolding assert_stream_route
Reads-route p h = rw h.shape (Reads-pure tt)

Reads-items :
    (extended : Bool) (ps : List Placed)
    → All IsPlaced ps
    → Reads (read_items extended (length ps)) (items_of extended ps) (items_bytes extended ps)
unfolding read_items read_route
Reads-items extended [] h = Reads-pure []
Reads-items extended (p ∷ ps) (hp, hs) =
    Reads-bind _ (Reads-string p.route p.route_bytes hp.route_encodes hp.route_fits) (
      Reads-bind _ (Reads-route p hp) (
        Reads-bind _ (Reads-item extended p.route p.marker hp.marked)
          (Reads-bind _ (Reads-items extended ps hs) (Reads-pure (items_of extended (p ∷ ps))))))

abbrev pub cursor_bytes : Bool → StreamReadCursor → Bytes
cursor_bytes extended c =
    to_bytes 8 c.last_resource_offset
    ++ (optional_bytes c.last_area_offset
        ++ (optional_bytes c.last_realm_offset
            ++ (extended_bytes extended c.last_global_offset
                ++ ((bit c.has_more ∷ [])
                    ++ (extended_bytes extended c.cursor_fingerprint
                        ++ (extended_bytes extended c.captured_watermark ++ []))))))

pub record IsCursor (c : StreamReadCursor) : Type 0 where
  pub resource_fits : c.last_resource_offset < 256 ^ 8
  pub area_fits : Fits c.last_area_offset
  pub realm_fits : Fits c.last_realm_offset
  pub global_fits : Fits c.last_global_offset
  pub fingerprint_fits : Fits c.cursor_fingerprint
  pub watermark_fits : Fits c.captured_watermark

abbrev pub cursor_of : Bool → StreamReadCursor → StreamReadCursor
cursor_of extended c = record c {
  last_global_offset = held extended c.last_global_offset;
  cursor_fingerprint = held extended c.cursor_fingerprint;
  captured_watermark = held extended c.captured_watermark;
}

Reads-cursor :
    (extended : Bool) (c : StreamReadCursor)
    → IsCursor c
    → Reads (read_cursor extended) (cursor_of extended c) (cursor_bytes extended c)
unfolding read_cursor read_u64_be
Reads-cursor extended c h = Reads-bind _ (Reads-uint 8 c.last_resource_offset h.resource_fits) (
    Reads-bind _ (Reads-optional_u64 c.last_area_offset h.area_fits) (
      Reads-bind _ (Reads-optional_u64 c.last_realm_offset h.realm_fits) (
        Reads-bind _ (Reads-extended extended c.last_global_offset h.global_fits) (
          Reads-bind _ (Reads-bool c.has_more) (
            Reads-bind _ (Reads-extended extended c.cursor_fingerprint h.fingerprint_fits) (
              Reads-bind _ (Reads-extended extended c.captured_watermark h.watermark_fits)
                (Reads-pure (cursor_of extended c))))))))

-- The page that a read with the selector gets for these items and this cursor.
abbrev pub page_bytes : Str → List Placed → StreamReadCursor → Bytes
page_bytes selector ps c =
    to_bytes 4 (length ps)
    ++ (items_bytes (is_extended selector) ps ++ cursor_bytes (is_extended selector) c)

-- Every page is read back: all its items in order, each of its kind and with its route, and its
-- cursor; the offsets over all realms are read exactly when the selector is one over all realms, and
-- are absent otherwise.
pub read_stream_read_page-page_bytes :
    (selector : Str) (ps : List Placed) (c : StreamReadCursor)
    → length ps < 256 ^ 4
    → All IsPlaced ps
    → IsCursor c
    → (read_stream_read_page selector (reader (page_bytes selector ps c))).0
      ≡ ok (record {
        items = items_of (is_extended selector) ps;
        cursor = cursor_of (is_extended selector) c;
      })
unfolding read_stream_read_page read_u32_be
read_stream_read_page-page_bytes selector ps c fits hs hc =
    reader-ReadsAll (read_stream_read_page selector) _ _ (
      ReadsAll-bind _ (Reads-uint 4 (length ps) fits) (
        ReadsAll-bind _ (Reads-items (is_extended selector) ps hs) (
          ReadsAll-bind_last _ (Reads-cursor (is_extended selector) c hc)
            (ReadsAll-is_eof _ (ReadsAll-pure _ [])))))
