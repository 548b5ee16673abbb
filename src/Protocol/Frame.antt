-- ===== src/Protocol/Frame.antt =====
-- protocol/frame.py: one message with its 15-byte header. Numbers are never negative here, so the
-- source's `0 <=` tests are left out.
pub mod RoundTrip
use fitz_py.Prelude.{
  ℕ, ◌+◌, ◌-◌, ◌*◌, ◌/◌, Bool, true, false, not, ◌++◌, [], ◌∷◌, List, ltb, leb, ◌==◌, if◌then◌else◌,
  Option, none, some, length, take, drop, get_elem?,
}
use fitz_py.Prelude.Bytes.{Bytes, to_bytes, from_bytes}
use fitz_py.Errors.{Error, Result, ok, err, codec_error, index_error, ◌>>=◌}

abbrev pub header_len : ℕ
header_len = 15

abbrev pub max_message_size : ℕ
max_message_size = 1_048_576

-- `flags & ~VALID_FLAGS`, where `VALID_FLAGS` is 7: the low three bits are cleared.
abbrev pub invalid_flags : ℕ → ℕ
invalid_flags flags = flags / 8 * 8

pub record Frame : Type 0 where
  pub message_type : ℕ
  pub flags : ℕ
  pub correlation_id : ℕ
  pub payload : Bytes

-- `data[start:stop]`
abbrev pub slice : ℕ → ℕ → Bytes → Bytes
slice start stop bs = take (stop - start) (drop start bs)

-- `data[i]`
abbrev pub or_index_error : Option ℕ → Result ℕ
or_index_error none = err index_error
or_index_error (some b) = ok b

abbrev pub byte_at : Bytes → ℕ → Result ℕ
byte_at bs i = or_index_error (get_elem? bs i)

abbrev pub frame_bytes : Frame → Bytes
frame_bytes f =
    to_bytes 2 f.message_type
    ++ (f.flags ∷ (to_bytes 8 f.correlation_id ++ (to_bytes 4 (length f.payload) ++ f.payload)))

unfoldable pub encode_frame : ℕ → Bytes → ℕ → ℕ → Result Bytes
encode_frame message_type payload flags correlation_id =
    if ltb 0xFFFF message_type
    then err codec_error
    else if not (invalid_flags flags == 0)
    then err codec_error
    else if ltb 0xFFFF_FFFF_FFFF_FFFF correlation_id
    then err codec_error
    else if ltb max_message_size (header_len + length payload)
    then err codec_error
    else ok (
        frame_bytes (record {
          message_type = message_type;
          flags = flags;
          correlation_id = correlation_id;
          payload = payload;
        }))

-- The part of `decode_frame` below the test of the flags.
abbrev decode_body : Bytes → ℕ → Result Frame
decode_body bs flags =
    if not (invalid_flags flags == 0)
    then err codec_error
    else if not (length bs == header_len + from_bytes (slice 11 15 bs))
    then err codec_error
    else ok (record {
      message_type = from_bytes (slice 0 2 bs);
      flags = flags;
      correlation_id = from_bytes (slice 3 11 bs);
      payload = drop header_len bs;
    })

unfoldable pub decode_frame : Bytes → Result Frame
decode_frame bs =
    if ltb max_message_size (length bs)
    then err codec_error
    else if ltb (length bs) header_len
    then err codec_error
    else (do flags ← byte_at bs 2; decode_body bs flags)

-- `FrameParser.parse_frames`: one message to a transport frame.
unfoldable pub parse_frames : Bytes → Result (List Frame)
parse_frames [] = ok []
parse_frames (b ∷ bs) = do f ← decode_frame (b ∷ bs); ok (f ∷ [])
