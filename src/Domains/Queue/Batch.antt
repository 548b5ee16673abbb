-- ===== src/Domains/Queue/Batch.antt =====
-- The payloads of the queue client against their wire form.
use fitz_py.Prelude.{
  ℕ, ◌^◌, ◌<◌, ◌≡◌, Bool, true, false, ◌++◌, [], ◌∷◌, List, some, length, map, All, if◌then◌else◌,
  refl,
}
use fitz_py.Prelude.Bytes.{Bytes, to_bytes}
use fitz_py.Errors.{ok}
use fitz_py.Text.{Str, codes}
use fitz_py.Text.Utf8.{encode_utf8}
use fitz_py.Protocol.Buffer.{reader, read_u32_be, read_u64_be, read_route}
use fitz_py.Protocol.Buffer.Writes.{string_bytes}
use fitz_py.Protocol.Buffer.Reads.{
  Reads, Reads-bytes, Reads-bind, Reads-pure, Reads-uint, Reads-string, ReadsAll-bind,
  ReadsAll-bind_last, ReadsAll-is_eof, ReadsAll-pure, ReadsAll-more, reader-ReadsAll,
}
use fitz_py.Domains.Routes.{is_exact_route_shape}
use fitz_py.Domains.Queue.{QueueItem, read_found, read_item, read_items, read_batch, item_route}

-- An item as the broker delivers it: `route_bytes` is its route in UTF-8.
pub record Delivery : Type 0 where
  pub route : Str
  pub route_bytes : Bytes
  pub body : Bytes
  pub id : ℕ
  pub token : ℕ

abbrev pub route_part : Bool → Bytes → Bytes
route_part wildcard bs = if wildcard then string_bytes bs else []

abbrev pub fields_bytes : Delivery → Bytes
fields_bytes d =
    to_bytes 8 d.id ++ (to_bytes 8 d.token ++ (to_bytes 4 (length d.body) ++ (d.body ++ [])))

abbrev pub delivery_bytes : Bool → Delivery → Bytes
delivery_bytes wildcard d = route_part wildcard d.route_bytes ++ fields_bytes d

abbrev pub deliveries_bytes : Bool → List Delivery → Bytes
deliveries_bytes wildcard [] = []
deliveries_bytes wildcard (d ∷ ds) =
    delivery_bytes wildcard d ++ (deliveries_bytes wildcard ds ++ [])

-- The item that the client makes of it.
abbrev pub delivered : ℕ → Delivery → QueueItem
delivered generation d = record {
  route = d.route;
  body = d.body;
  id = d.id;
  token = d.token;
  generation = generation;
  closed = false;
}

-- A delivery fits its fields; without a wildcard its route is the one that was asked for.
pub record IsDelivery (wildcard : Bool) (route : Str) (d : Delivery) : Type 0 where
  pub exact_route : is_exact_route_shape d.route (codes "queue") 3 ≡ true
  pub encodes : encode_utf8 d.route ≡ some d.route_bytes
  pub route_fits : length d.route_bytes < 2 ^ 32
  pub asked : wildcard ≡ false → route ≡ d.route
  pub id_fits : d.id < 256 ^ 8
  pub token_fits : d.token < 256 ^ 8
  pub body_fits : length d.body < 256 ^ 4

item_route-Reads :
    (wildcard : Bool) (route : Str) (d : Delivery)
    → IsDelivery wildcard route d
    → Reads (item_route wildcard route) d.route (route_part wildcard d.route_bytes)
unfolding read_route
item_route-Reads true route d h = Reads-string d.route d.route_bytes h.encodes h.route_fits
item_route-Reads false route d h = rw (h.asked refl) (Reads-pure d.route)

read_found-Reads :
    (generation : ℕ) (d : Delivery)
    → d.id < 256 ^ 8
    → d.token < 256 ^ 8
    → length d.body < 256 ^ 4
    → Reads (read_found d.route generation) (delivered generation d) (fields_bytes d)
unfolding read_found read_u64_be read_u32_be
read_found-Reads generation d hi ht hb = Reads-bind _ (Reads-uint 8 d.id hi) (
    Reads-bind _ (Reads-uint 8 d.token ht) (
      Reads-bind _ (Reads-uint 4 (length d.body) hb)
        (Reads-bind _ (Reads-bytes d.body) (Reads-pure (delivered generation d)))))

read_item-Reads :
    (wildcard : Bool) (route : Str) (generation : ℕ) (d : Delivery)
    → IsDelivery wildcard route d
    → Reads
        (read_item wildcard route generation)
        (delivered generation d)
        (delivery_bytes wildcard d)
unfolding read_item
read_item-Reads wildcard route generation d h =
    Reads-bind _ (item_route-Reads wildcard route d h)
      (rw h.exact_route (read_found-Reads generation d h.id_fits h.token_fits h.body_fits))

read_items-Reads :
    (wildcard : Bool) (route : Str) (generation : ℕ) (ds : List Delivery)
    → All (IsDelivery wildcard route) ds
    → Reads
        (read_items (length ds) wildcard route generation)
        (map (delivered generation) ds)
        (deliveries_bytes wildcard ds)
unfolding read_items
read_items-Reads wildcard route generation [] h = Reads-pure []
read_items-Reads wildcard route generation (d ∷ ds) (h, hs) =
    Reads-bind _ (read_item-Reads wildcard route generation d h) (
      Reads-bind _ (read_items-Reads wildcard route generation ds hs)
        (Reads-pure (map (delivered generation) (d ∷ ds))))

-- A batch of items that fit their fields is read back item by item, in the broker's order, each open
-- and of the connection's generation; with no wildcard in the selector the routes are not on the
-- wire.
pub read_batch-deliveries_bytes :
    (wildcard : Bool) (route : Str) (generation : ℕ) (ds : List Delivery)
    → All (IsDelivery wildcard route) ds
    → length ds < 256 ^ 4
    → (read_batch wildcard route generation
        (reader (to_bytes 4 (length ds) ++ deliveries_bytes wildcard ds))).0
      ≡ ok (map (delivered generation) ds)
unfolding read_batch read_u32_be to_bytes
read_batch-deliveries_bytes wildcard route generation ds h hl =
    reader-ReadsAll (read_batch wildcard route generation) _ _ (
      ReadsAll-more _ _ _ (
        ReadsAll-bind _ (Reads-uint 4 (length ds) hl) (
          ReadsAll-bind_last _ (read_items-Reads wildcard route generation ds h)
            (ReadsAll-is_eof _ (ReadsAll-pure (map (delivered generation) ds) [])))))
