-- ===== src/Protocol/Extensions.antt =====
-- protocol/extensions.py: the length-delimited extension fields of Wire 3.
pub mod Rounds
pub mod RoundTrip
pub mod Capabilities
use fitz_py.Prelude.{
  ℕ, zero, suc, ◌+◌, ◌-◌, ◌*◌, ◌/◌, ◌%◌, ◌^◌, Bool, true, false, not, ◌&&◌, ◌||◌, ◌++◌, [], ◌∷◌,
  List, ltb, leb, ◌==◌, if◌then◌else◌, Option, none, some, is_some, length,
}
use fitz_py.Prelude.Bytes.{Bytes, to_bytes, from_bytes}
use fitz_py.Errors.{Result, ok, err, codec_error, struct_error, diverged, ◌>>=◌, ◌>>◌}
use fitz_py.Protocol.Frame.{slice}

-- `flags & EXTENSIONS_PRESENT`, bit 2.
abbrev pub has_extensions : ℕ → Bool
has_extensions flags = flags / 4 % 2 == 1

-- `struct.pack` and `struct.unpack_from` of one unsigned big-endian integer of `size` bytes.
unfoldable pub pack : ℕ → ℕ → Result Bytes
pack size value = if ltb value (256 ^ size) then ok (to_bytes size value) else err struct_error

unfoldable pub unpack_from : ℕ → Bytes → ℕ → Result ℕ
unpack_from size view cursor =
    if ltb (length view) (cursor + size)
    then err struct_error
    else ok (from_bytes (slice cursor (cursor + size) view))

abbrev not_above : Option ℕ → ℕ → Bool
not_above none value = false
not_above (some previous) value = leb value previous

-- Some id is zero, too wide or not above the one before it.
unfoldable pub invalid_ids : Option ℕ → List ℕ → Bool
invalid_ids previous [] = false
invalid_ids previous (value ∷ ids) =
    (value == 0 || ltb 0xFFFF_FFFF value || not_above previous value)
    || invalid_ids (some value) ids

unfoldable pub join_ids : List ℕ → Bytes
join_ids [] = []
join_ids (value ∷ ids) = to_bytes 4 value ++ join_ids ids

unfoldable pub encode_capabilities : List ℕ → Result Bytes
encode_capabilities ids =
    if ltb 65535 (length ids) || invalid_ids none ids
    then err codec_error
    else ok (to_bytes 2 (length ids) ++ join_ids ids)

-- The loop over the fields; `previous` is the id before.
unfoldable pub encode_entries : ℕ → List (ℕ × Bytes) → Result Bytes
encode_entries previous [] = ok []
encode_entries previous ((id, value) ∷ fields) =
    let rest = encode_entries id fields in
    if not (ltb previous id && leb id 65535) then err codec_error else (do
      size ← pack 4 (length value)
      entries ← rest
      ok (to_bytes 2 id ++ (size ++ (value ++ entries))))

unfoldable pub encode_payload : Bytes → List (ℕ × Bytes) → Result Bytes
encode_payload core [] = ok core
encode_payload core (field ∷ fields) = do
  entries ← encode_entries 0 (field ∷ fields)
  size ← pack 4 (length core)
  ok (size ++ (core ++ entries))

-- The variables of the decoding loop.
pub record Scan : Type 0 where
  pub cursor : ℕ
  pub capabilities : Option (List ℕ)
  pub fields_seen : Bool

-- `count` ids from `cursor` on.
unfoldable pub read_ids : ℕ → Bytes → ℕ → Result (List ℕ)
read_ids zero view cursor = ok []
read_ids (suc count) view cursor = do
  value ← unpack_from 4 view cursor
  ids ← read_ids count view (cursor + 4)
  ok (value ∷ ids)

unfoldable pub capability_list : Bytes → ℕ → ℕ → Option (List ℕ) → Result (Option (List ℕ))
capability_list view cursor size seen = if is_some seen || ltb size 2 then err codec_error else (do
  count ← unpack_from 2 view cursor
  if not (size == 2 + 4 * count)
      then err codec_error
      else (do ids ← read_ids count view (cursor + 2); encode_capabilities ids; ok (some ids)))

-- One round of the loop.
unfoldable pub scan_field : Bool → Bytes → Scan → Result Scan
scan_field handshake view s = if ltb (length view - s.cursor) 6 then err codec_error else (do
  id ← unpack_from 2 view s.cursor
  size ← unpack_from 4 view (s.cursor + 2)
  if id == 0 || ltb (length view - (s.cursor + 6)) size then err codec_error else (do
    capabilities ←
        if handshake && id == 1
        then capability_list view (s.cursor + 6) size s.capabilities
        else ok s.capabilities
    ok (record { cursor = s.cursor + 6 + size; capabilities = capabilities; fields_seen = true })))

-- `while cursor < len(view)`, on fuel.
unfoldable pub scan : ℕ → Bool → Bytes → Scan → Result Scan
scan zero handshake view s = err diverged
scan (suc fuel) handshake view s =
    if ltb s.cursor (length view)
    then (do s' ← scan_field handshake view s; scan fuel handshake view s')
    else ok s

abbrev pub or_empty : Option (List ℕ) → List ℕ
or_empty none = []
or_empty (some ids) = ids

abbrev pub scan_start : ℕ → Scan
scan_start cursor = record { cursor = cursor; capabilities = none; fields_seen = false }

-- What the loop leaves behind is checked and returned.
abbrev pub decoded_payload : Bool → Bytes → ℕ → Scan → Result (Bytes × List ℕ)
decoded_payload handshake payload core_end s =
    if not s.fields_seen || (handshake && not (is_some s.capabilities))
    then err codec_error
    else ok (slice 4 core_end payload, or_empty s.capabilities)

-- Each round moves the cursor on, so that a round for each byte is enough.
unfoldable pub decode_extensions : Bool → Bytes → Result (Bytes × List ℕ)
decode_extensions handshake payload = if ltb (length payload) 4 then err codec_error else (do
  core_length ← unpack_from 4 payload 0
  if ltb (length payload) (4 + core_length) then err codec_error else (do
    s ← scan (suc (length payload)) handshake payload (scan_start (4 + core_length))
    decoded_payload handshake payload (4 + core_length) s))

unfoldable pub decode_payload : Bytes → ℕ → ℕ → Result (Bytes × List ℕ)
decode_payload payload message_type flags =
    let handshake = message_type == 2 in
    if not (has_extensions flags)
    then (if handshake then err codec_error else ok (payload, []))
    else decode_extensions handshake payload
