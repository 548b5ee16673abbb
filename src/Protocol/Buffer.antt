-- ===== src/Protocol/Buffer.antt =====
-- protocol/buffer.py: a growing write buffer and a bounds-checked read cursor.
pub mod Writes
pub mod Reads
pub mod RoundTrip
pub mod Progress
pub mod Tails
use fitz_py.Prelude.{
  ℕ, ◌+◌, ◌-◌, ◌^◌, max, Bool, ◌++◌, ltb, leb, ◌==◌, if◌then◌else◌, Option, none, some, length,
  take, drop, replicate,
}
use fitz_py.Prelude.Bytes.{Bytes, to_bytes, from_bytes}
use fitz_py.Errors.{Error, Result, ok, err, codec_error, struct_error, unicode_error}
use fitz_py.Exec.{Exec, pure, raise, gets, lift, ◌>>=◌, ◌>>◌}
use fitz_py.Text.{Str}
use fitz_py.Text.Utf8.{encode_utf8, decode_utf8}

pub record BufferWriter : Type 0 where
  pub buffer : Bytes
  pub offset : ℕ

abbrev pub Writer : Type 0 → Type 0
Writer A = Exec BufferWriter A

-- `BufferWriter(capacity)`; every caller takes the default of 128.
unfoldable pub new_writer : ℕ → BufferWriter
new_writer capacity = record { buffer = replicate capacity 0; offset = 0 }

-- The buffer at least doubles when it has to grow.
unfoldable pub grow : ℕ → Bytes → Bytes
grow end buf =
    let len = length buf in if ltb len end then buf ++ replicate (max (end - len) len) 0 else buf

-- `_reserve`
unfoldable pub reserve : ℕ → Writer ℕ
reserve size w =
    let end = w.offset + size in (ok w.offset, record { buffer = grow end w.buffer; offset = end })

-- `buffer[start : start + len(value)] = value`
unfoldable pub splice : ℕ → Bytes → Writer Unit
splice start value w = (
  ok tt,
  record w { buffer = take start w.buffer ++ (value ++ drop (start + length value) w.buffer) },
)

-- `struct.pack_into` of an unsigned big-endian integer of `size` bytes.
unfoldable pub pack_into : ℕ → ℕ → ℕ → Writer Unit
pack_into size start value =
    if ltb value (256 ^ size) then splice start (to_bytes size value) else raise struct_error

unfoldable pub write_uint : ℕ → ℕ → Writer Unit
write_uint size value = do start ← reserve size; pack_into size start value

unfoldable pub write_u8 : ℕ → Writer Unit
write_u8 = write_uint 1

unfoldable pub write_u16_be : ℕ → Writer Unit
write_u16_be = write_uint 2

unfoldable pub write_u32_be : ℕ → Writer Unit
write_u32_be = write_uint 4

unfoldable pub write_u64_be : ℕ → Writer Unit
write_u64_be = write_uint 8

unfoldable pub write_bytes : Bytes → Writer Unit
write_bytes value = do start ← reserve (length value); splice start value

-- `value.encode("utf-8")`
encoded : Option Bytes → Writer Bytes
encoded none = raise unicode_error
encoded (some bs) = pure bs

unfoldable pub write_string : Str → Writer Unit
unfolding encoded
write_string value = do bs ← encoded (encode_utf8 value); write_u32_be (length bs); write_bytes bs

unfoldable pub write_route : Str → Writer Unit
write_route = write_string

unfoldable pub write_optional_u64 : Option ℕ → Writer Unit
write_optional_u64 none = write_u8 0
write_optional_u64 (some value) = do write_u8 1; write_u64_be value

unfoldable pub build : BufferWriter → Bytes
build w = take w.offset w.buffer

-- The bytes that a sequence of writes into a fresh writer builds.
abbrev pub finish : Result (Unit {0}) × BufferWriter → Result Bytes
finish (ok u, w) = ok (build w)
finish (err e, w) = err e

abbrev pub written : Writer Unit → Result Bytes
written m = finish (m (new_writer 128))

pub record BufferReader : Type 0 where
  pub buffer : Bytes
  pub offset : ℕ

abbrev pub Reader : Type 0 → Type 0
Reader A = Exec BufferReader A

abbrev pub reader : Bytes → BufferReader
reader bs = record { buffer = bs; offset = 0 }

-- `_read`: nothing moves when the bytes are not there.
unfoldable pub read : ℕ → Reader Bytes
read size r =
    if ltb (length r.buffer) (r.offset + size)
    then (err codec_error, r)
    else (ok (take size (drop r.offset r.buffer)), record r { offset = r.offset + size })

unfoldable pub read_uint : ℕ → Reader ℕ
read_uint size = do bs ← read size; pure (from_bytes bs)

unfoldable pub read_u8 : Reader ℕ
read_u8 = read_uint 1

unfoldable pub read_u16_be : Reader ℕ
read_u16_be = read_uint 2

unfoldable pub read_u32_be : Reader ℕ
read_u32_be = read_uint 4

unfoldable pub read_u64_be : Reader ℕ
read_u64_be = read_uint 8

unfoldable pub read_bytes : ℕ → Reader Bytes
read_bytes = read

-- `.decode("utf-8")`
abbrev pub decoded : Option Str → Reader Str
decoded none = raise unicode_error
decoded (some text) = pure text

unfoldable pub read_string : Reader Str
read_string = do n ← read_u32_be; bs ← read_bytes n; decoded (decode_utf8 bs)

unfoldable pub read_route : Reader Str
read_route = read_string

abbrev optional_u64 : ℕ → Reader (Option ℕ)
optional_u64 flag =
    if flag == 0
    then pure none
    else if flag == 1
    then (do v ← read_u64_be; pure (some v))
    else raise codec_error

unfoldable pub read_optional_u64 : Reader (Option ℕ)
read_optional_u64 = do flag ← read_u8; optional_u64 flag

unfoldable pub remaining : Reader Bytes
remaining = gets (λ r. drop r.offset r.buffer)

unfoldable pub remaining_bytes : Reader ℕ
remaining_bytes = gets (λ r. length r.buffer - r.offset)

unfoldable pub is_eof : Reader Bool
is_eof = gets (λ r. leb (length r.buffer) r.offset)
