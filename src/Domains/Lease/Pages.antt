-- ===== src/Domains/Lease/Pages.antt =====
-- The pages of the lease list: their wire form.
use fitz_py.Prelude.{
  ◌^◌, ◌<◌, ◌≡◌, Bool, true, false, ◌++◌, [], ◌∷◌, List, length, All, bit, Option, none, some, not,
  ltb, ◌==◌,
}
use fitz_py.Prelude.Bytes.{Bytes, to_bytes}
use fitz_py.Errors.{ok}
use fitz_py.Exec.{guard, ◌>>=◌, ◌>>◌}
use fitz_py.Text.Utf8.{encode_utf8}
use fitz_py.Protocol.Buffer.{reader, read_u8, read_u32_be, read_u64_be, read_route}
use fitz_py.Protocol.Buffer.Writes.{string_bytes}
use fitz_py.Protocol.Buffer.Reads.{
  Reads, ReadsAll, Reads-bind, Reads-pure, Reads-uint, Reads-u8, Reads-string, ReadsAll-bind,
  ReadsAll-bind_last, ReadsAll-is_eof, ReadsAll-pure, reader-ReadsAll,
}
use fitz_py.Domains.Lease.{LeaseListCursor, LeaseListItem, LeaseListPage, lease_error}
use fitz_py.Domains.Lease.Client.{read_item, read_items, read_cursor, read_page, at_end}

-- An item with the UTF-8 forms of its texts.
pub record Stored : Type 0 where
  pub item : LeaseListItem
  pub route_bytes : Bytes
  pub owner_bytes : Bytes
  pub since_bytes : Bytes

-- The texts are the ones of the item, and everything fits.
pub record IsStored (e : Stored) : Type 0 where
  pub route_encodes : encode_utf8 e.item.route ≡ some e.route_bytes
  pub route_fits : length e.route_bytes < 2 ^ 32
  pub owner_encodes : encode_utf8 e.item.owner_id ≡ some e.owner_bytes
  pub owner_fits : length e.owner_bytes < 2 ^ 32
  pub since_encodes : encode_utf8 e.item.acquired_at ≡ some e.since_bytes
  pub since_fits : length e.since_bytes < 2 ^ 32
  pub incarnation_fits : e.item.holder_incarnation < 256 ^ 8
  pub expiry_fits : e.item.expires_in_secs < 256 ^ 8
  pub renewals_fit : e.item.renewals < 256 ^ 4

abbrev pub stored_bytes : Stored → Bytes
stored_bytes e =
    string_bytes e.route_bytes
    ++ (string_bytes e.owner_bytes
        ++ (to_bytes 8 e.item.holder_incarnation
            ++ (string_bytes e.since_bytes
                ++ (to_bytes 8 e.item.expires_in_secs ++ (to_bytes 4 e.item.renewals ++ [])))))

abbrev pub items_bytes : List Stored → Bytes
items_bytes [] = []
items_bytes (e ∷ es) = stored_bytes e ++ (items_bytes es ++ [])

abbrev pub items_of : List Stored → List LeaseListItem
items_of [] = []
items_of (e ∷ es) = e.item ∷ items_of es

abbrev pub IsCursor : Option LeaseListCursor → Type 0
IsCursor none = Unit {0}
IsCursor (some c) = (c.snapshot_id < 256 ^ 8) × (c.start < 256 ^ 4)

abbrev pub cursor_flag : Option LeaseListCursor → Bool
cursor_flag none = false
cursor_flag (some c) = true

abbrev pub cursor_bytes : Option LeaseListCursor → Bytes
cursor_bytes none = []
cursor_bytes (some c) = to_bytes 8 c.snapshot_id ++ (to_bytes 4 c.start ++ [])

-- A page with these items, and a cursor to the next if there is one.
abbrev pub page_bytes : List Stored → Option LeaseListCursor → Bytes
page_bytes es c =
    to_bytes 4 (length es) ++ (items_bytes es ++ ((bit (cursor_flag c) ∷ []) ++ cursor_bytes c))

abbrev pub page_of : List Stored → Option LeaseListCursor → LeaseListPage
page_of es c = record { items = items_of es; cursor = c }

-- What a page may hold.
abbrev pub IsPage : List Stored → Option LeaseListCursor → Type 0
IsPage es c = All IsStored es × ((length es < 256 ^ 4) × IsCursor c)

Reads-item : (e : Stored) → IsStored e → Reads read_item e.item (stored_bytes e)
unfolding read_item read_u64_be read_u32_be read_route
Reads-item e h =
    Reads-bind _ (Reads-string e.item.route e.route_bytes h.route_encodes h.route_fits) (
      Reads-bind _ (Reads-string e.item.owner_id e.owner_bytes h.owner_encodes h.owner_fits) (
        Reads-bind _ (Reads-uint 8 e.item.holder_incarnation h.incarnation_fits) (
          Reads-bind _ (Reads-string e.item.acquired_at e.since_bytes h.since_encodes h.since_fits)
            (Reads-bind _ (Reads-uint 8 e.item.expires_in_secs h.expiry_fits)
              (Reads-bind _ (Reads-uint 4 e.item.renewals h.renewals_fit) (Reads-pure e.item))))))

Reads-items :
    (es : List Stored)
    → All IsStored es
    → Reads (read_items (length es)) (items_of es) (items_bytes es)
unfolding read_items
Reads-items [] h = Reads-pure []
Reads-items (e ∷ es) (h, hs) =
    Reads-bind _ (Reads-item e h)
      (Reads-bind _ (Reads-items es hs) (Reads-pure (items_of (e ∷ es))))

Reads-cursor :
    (c : Option LeaseListCursor)
    → IsCursor c
    → Reads (read_cursor (cursor_flag c)) c (cursor_bytes c)
unfolding read_cursor read_u64_be read_u32_be
Reads-cursor none h = Reads-pure none
Reads-cursor (some c) (hs, ho) =
    Reads-bind _ (Reads-uint 8 c.snapshot_id hs)
      (Reads-bind _ (Reads-uint 4 c.start ho) (Reads-pure (some c)))

ReadsAll-at_end : {A : Type 0} (a : A) → ReadsAll (at_end a) a []
unfolding at_end
ReadsAll-at_end a = ReadsAll-is_eof _ (ReadsAll-pure a [])

ReadsAll-tail :
    (es : List Stored) (c : Option LeaseListCursor)
    → IsCursor c
    → ReadsAll
        (read_cursor (cursor_flag c) >>= λ cursor.
          at_end (record { items = items_of es; cursor = cursor }))
        (page_of es c)
        (cursor_bytes c)
ReadsAll-tail es c h = ReadsAll-bind_last _ (Reads-cursor c h) (ReadsAll-at_end (page_of es c))

ReadsAll-flag :
    (es : List Stored) (c : Option LeaseListCursor)
    → IsCursor c
    → ReadsAll
        (read_u8 >>= λ has_next.
          guard (not (ltb 1 has_next)) (lease_error "INVALID_RESPONSE")
          >> (read_cursor (has_next == 1) >>= λ cursor.
              at_end (record { items = items_of es; cursor = cursor })))
        (page_of es c)
        ((bit (cursor_flag c) ∷ []) ++ cursor_bytes c)
ReadsAll-flag es none h = ReadsAll-bind _ (Reads-u8 0) (ReadsAll-tail es none h)
ReadsAll-flag es (some c) h = ReadsAll-bind _ (Reads-u8 1) (ReadsAll-tail es (some c) h)

-- A page is read back: its items in order, and the cursor to the next page if it has one.
pub read_page-page_bytes :
    (es : List Stored) (c : Option LeaseListCursor)
    → IsPage es c
    → (read_page (reader (page_bytes es c))).0 ≡ ok (page_of es c)
unfolding read_page read_u32_be
read_page-page_bytes es c (hs, (fits, hc)) = reader-ReadsAll read_page _ _ (
    ReadsAll-bind _ (Reads-uint 4 (length es) fits)
      (ReadsAll-bind _ (Reads-items es hs) (ReadsAll-flag es c hc)))
