-- ===== src/Protocol/Buffer/RoundTrip.antt =====
-- What a writer writes, a reader reads back.
use fitz_py.Prelude.{ℕ, ◌^◌, ◌<◌, ◌≡◌, [], ◌∷◌, Option, none, some, length, arith}
use fitz_py.Prelude.Bytes.{Bytes, to_bytes}
use fitz_py.Errors.{ok}
use fitz_py.Text.{Str}
use fitz_py.Text.Utf8.{encode_utf8}
use fitz_py.Protocol.Buffer.{
  written, reader, write_u8, write_u64_be, write_string, read_string, read_u64_be,
  write_optional_u64, read_optional_u64,
}
use fitz_py.Protocol.Buffer.Writes.{
  Writes-then, Writes-uint, Writes-string, string_bytes, written-Writes,
}
use fitz_py.Protocol.Buffer.Reads.{
  Reads-uint, Reads-u8, Reads-string, Reads-All, ReadsAll-bind, ReadsAll-bind_last, ReadsAll-pure,
  reader-ReadsAll,
}

-- A text that has an encoding is written as the length of that encoding and its bytes, and is read
-- back from them.
pub read_string-write_string :
    (text : Str) (bs : Bytes)
    → encode_utf8 text ≡ some bs
    → length bs < 2 ^ 32
    → (written (write_string text) ≡ ok (string_bytes bs))
      × ((read_string (reader (string_bytes bs))).0 ≡ ok text)
read_string-write_string text bs e h = (
  written-Writes (write_string text) (string_bytes bs) (Writes-string text bs e h),
  reader-ReadsAll read_string text (string_bytes bs) (Reads-All (Reads-string text bs e h)),
)

-- The wire form of an optional integer.
abbrev pub optional_bytes : Option ℕ → Bytes
optional_bytes none = 0 ∷ []
optional_bytes (some v) = 1 ∷ to_bytes 8 v

abbrev pub Fits : Option ℕ → Type 0
Fits none = Unit {0}
Fits (some v) = v < 256 ^ 8

-- An optional integer that fits is written as a flag and its eight bytes, and is read back.
pub read_optional_u64-write_optional_u64 :
    (v : Option ℕ)
    → Fits v
    → (written (write_optional_u64 v) ≡ ok (optional_bytes v))
      × ((read_optional_u64 (reader (optional_bytes v))).0 ≡ ok v)
unfolding write_optional_u64 read_optional_u64 write_u8 write_u64_be read_u64_be to_bytes
read_optional_u64-write_optional_u64 none h = (
  written-Writes _ _ (Writes-uint 1 0 (omega arith)),
  reader-ReadsAll read_optional_u64 none (0 ∷ [])
      (ReadsAll-bind_last _ (Reads-u8 0) (ReadsAll-pure none [])),
)
read_optional_u64-write_optional_u64 (some v) h = (
  written-Writes _ _ (Writes-then (Writes-uint 1 1 (omega arith)) (Writes-uint 8 v h)),
  reader-ReadsAll read_optional_u64 (some v) (1 ∷ to_bytes 8 v) (
      ReadsAll-bind _ (Reads-u8 1)
        (ReadsAll-bind_last _ (Reads-uint 8 v h) (ReadsAll-pure (some v) []))),
)
