-- ===== src/Domains/Schedule/Pages.antt =====
-- The pages of the schedule list: their wire form.
use fitz_py.Prelude.{
  ℕ, zero, suc, ◌^◌, ◌<◌, ◌≡◌, Bool, true, false, ◌++◌, [], ◌∷◌, List, length, All, bit, arith,
  length-append, Option, none, some,
}
use fitz_py.Prelude.Bytes.{Bytes, to_bytes}
use fitz_py.Errors.{ok}
use fitz_py.Text.{Str}
use fitz_py.Text.Utf8.{encode_utf8}
use fitz_py.Protocol.Buffer.{reader, read_u32_be}
use fitz_py.Protocol.Buffer.Writes.{string_bytes}
use fitz_py.Protocol.Buffer.Reads.{
  Reads, ReadsAll, Reads-bytes, Reads-bind, Reads-pure, Reads-uint, Reads-u8, Reads-string,
  ReadsAll-bind, ReadsAll-bind_last, ReadsAll-is_eof, ReadsAll-pure, ReadsAll-remaining_bytes,
  reader-ReadsAll,
}
use fitz_py.Domains.Schedule.{
  DeliveryMode, broadcast, single, ScheduleEntry, mode_byte, read_flag, read_mode, read_entry,
  read_entries, read_continuation, read_page_entries, read_page_flags, read_page,
}

-- An entry with the UTF-8 forms of its texts.
pub record Stored : Type 0 where
  pub entry : ScheduleEntry
  pub route_bytes : Bytes
  pub cron_bytes : Bytes

abbrev pub stored_bytes : Stored → Bytes
stored_bytes e =
    string_bytes e.route_bytes
    ++ (string_bytes e.cron_bytes
        ++ ((mode_byte e.entry.delivery_mode ∷ [])
            ++ (to_bytes 4 (length e.entry.payload) ++ (e.entry.payload ++ []))))

-- The texts are the ones of the entry, and all lengths fit.
pub record IsStored (e : Stored) : Type 0 where
  pub route_encodes : encode_utf8 e.entry.route ≡ some e.route_bytes
  pub route_fits : length e.route_bytes < 2 ^ 32
  pub cron_encodes : encode_utf8 e.entry.cron ≡ some e.cron_bytes
  pub cron_fits : length e.cron_bytes < 2 ^ 32
  pub payload_fits : length e.entry.payload < 256 ^ 4

-- Each entry stands behind a mark 1, and a mark 0 ends the list.
abbrev pub list_bytes : List Stored → Bytes
list_bytes [] = 0 ∷ []
list_bytes (e ∷ es) = 1 ∷ (stored_bytes e ++ (list_bytes es ++ []))

abbrev pub entries_of : List Stored → List ScheduleEntry
entries_of [] = []
entries_of (e ∷ es) = e.entry ∷ entries_of es

Reads-flag : (b : Bool) → Reads read_flag b (bit b ∷ [])
unfolding read_flag
Reads-flag true = Reads-bind _ (Reads-u8 1) (Reads-pure true)
Reads-flag false = Reads-bind _ (Reads-u8 0) (Reads-pure false)

Reads-mode : (m : DeliveryMode) → Reads read_mode m (mode_byte m ∷ [])
unfolding read_mode
Reads-mode broadcast = Reads-bind _ (Reads-flag false) (Reads-pure broadcast)
Reads-mode single = Reads-bind _ (Reads-flag true) (Reads-pure single)

read_entry-Reads : (e : Stored) → IsStored e → Reads read_entry e.entry (stored_bytes e)
unfolding read_entry read_u32_be
read_entry-Reads e h =
    Reads-bind _ (Reads-string e.entry.route e.route_bytes h.route_encodes h.route_fits) (
      Reads-bind _ (Reads-string e.entry.cron e.cron_bytes h.cron_encodes h.cron_fits) (
        Reads-bind _ (Reads-mode e.entry.delivery_mode) (
          Reads-bind _ (Reads-uint 4 (length e.entry.payload) h.payload_fits)
            (Reads-bind _ (Reads-bytes e.entry.payload) (Reads-pure e.entry)))))

read_entries-Reads :
    (fuel : ℕ) (es : List Stored)
    → All IsStored es
    → length es < fuel
    → Reads (read_entries fuel) (entries_of es) (list_bytes es)
unfolding read_entries
read_entries-Reads zero es h l = absurd (omega arith)
read_entries-Reads (suc fuel) [] h l = Reads-bind _ (Reads-flag false) (Reads-pure [])
read_entries-Reads (suc fuel) (e ∷ es) (he, hs) l = Reads-bind _ (Reads-flag true) (
    Reads-bind _ (read_entry-Reads e he) (
      Reads-bind _ (read_entries-Reads fuel es hs (omega arith))
        (Reads-pure (entries_of (e ∷ es)))))

length-list_bytes : (es : List Stored) → length es < length (list_bytes es)
length-list_bytes [] = omega arith
length-list_bytes (e ∷ es) = omega (
  arith,
  length-list_bytes es,
  length-append (stored_bytes e) (list_bytes es ++ []),
  length-append (list_bytes es) [],
)

read_page_entries-ReadsAll :
    (has_more : Bool) (continuation : Option Str) (es : List Stored)
    → All IsStored es
    → ReadsAll
        (read_page_entries has_more continuation)
        (record { entries = entries_of es; has_more = has_more; continuation = continuation })
        (list_bytes es)
unfolding read_page_entries
read_page_entries-ReadsAll has_more continuation es h =
    let enough = length-list_bytes es in
    ReadsAll-remaining_bytes _ (
      ReadsAll-bind_last _ (read_entries-Reads (suc (length (list_bytes es))) es h (omega arith))
        (ReadsAll-is_eof _ (ReadsAll-pure _ [])))

-- The continuation of a page, with its UTF-8 form.
abbrev pub cursor_bytes : Option (Str × Bytes) → Bytes
cursor_bytes none = []
cursor_bytes (some (text, bs)) = string_bytes bs ++ []

abbrev pub cursor_text : Option (Str × Bytes) → Option Str
cursor_text none = none
cursor_text (some (text, bs)) = some text

abbrev pub cursor_flag : Option (Str × Bytes) → Bool
cursor_flag none = false
cursor_flag (some c) = true

abbrev pub IsCursor : Option (Str × Bytes) → Type 0
IsCursor none = Unit {0}
IsCursor (some (text, bs)) = (encode_utf8 text ≡ some bs) × (length bs < 2 ^ 32)

read_continuation-Reads :
    (c : Option (Str × Bytes))
    → IsCursor c
    → Reads (read_continuation (cursor_flag c)) (cursor_text c) (cursor_bytes c)
unfolding read_continuation
read_continuation-Reads none h = Reads-pure none
read_continuation-Reads (some (text, bs)) (e, l) =
    Reads-bind _ (Reads-string text bs e l) (Reads-pure (some text))

-- A page of version 1 is read back: its entries in order, its flag, and its continuation if it has
-- one.
pub read_page-list_bytes :
    (has_more : Bool) (c : Option (Str × Bytes)) (es : List Stored)
    → IsCursor c
    → All IsStored es
    → (read_page
        (reader (1 ∷ bit has_more ∷ bit (cursor_flag c) ∷ (cursor_bytes c ++ list_bytes es)))).0
      ≡ ok (record { entries = entries_of es; has_more = has_more; continuation = cursor_text c })
unfolding read_page read_page_flags
read_page-list_bytes has_more c es hc h = reader-ReadsAll read_page _ _ (
    ReadsAll-bind _ (Reads-u8 1) (
      ReadsAll-bind _ (Reads-flag has_more) (
        ReadsAll-bind _ (Reads-flag (cursor_flag c)) (
          ReadsAll-bind _ (read_continuation-Reads c hc)
            (read_page_entries-ReadsAll has_more (cursor_text c) es h)))))
