-- ===== src/Examples/Wire.antt =====
-- protocol/ at concrete inputs.
use fitz_py.Prelude.{◌≡◌, ◌≢◌, ◌≤◌, ◌⊎◌, ◌+◌, refl, [], ◌∷◌, some, ◌<◌}
use fitz_py.Prelude.Bytes.{Bytes, to_bytes}
use fitz_py.Errors.{ok, err, codec_error, diverged}
use fitz_py.Text.Utf8.{encode_utf8, decode_utf8, decode_utf8-encode_utf8, encode_point}
use fitz_py.Protocol.Buffer.{reader, read}
use fitz_py.Protocol.Buffer.Reads.{skip, read_pieces, read_pieces-read}
use fitz_py.Protocol.Frame.{encode_frame, decode_frame}
use fitz_py.Protocol.Frame.RoundTrip.{decode_frame-encode_frame}
use fitz_py.Protocol.Extensions.{decode_payload, encode_payload, encode_entries, pack}
use fitz_py.Protocol.Extensions.Rounds.{decode_payload-ne-diverged}
use fitz_py.Protocol.Extensions.RoundTrip.{decode_payload-encode_payload}

abbrev frame : Bytes
frame = 0 ∷ 200 ∷ 0 ∷ 0 ∷ 0 ∷ 0 ∷ 0 ∷ 0 ∷ 0 ∷ 0 ∷ 7 ∷ 0 ∷ 0 ∷ 0 ∷ 2 ∷ 5 ∷ 9 ∷ []

decode_frame-encode_frame_example :
    decode_frame frame
    ≡ ok (record { message_type = 200; flags = 0; correlation_id = 7; payload = 5 ∷ 9 ∷ [] })
unfolding encode_frame to_bytes
decode_frame-encode_frame_example = decode_frame-encode_frame 200 0 7 (5 ∷ 9 ∷ []) frame refl

abbrev extended : Bytes
extended = 0 ∷ 0 ∷ 0 ∷ 1 ∷ 9 ∷ 0 ∷ 3 ∷ 0 ∷ 0 ∷ 0 ∷ 1 ∷ 4 ∷ []

decode_payload-encode_payload_example : decode_payload extended 200 4 ≡ ok (9 ∷ [], [])
unfolding encode_payload encode_entries pack to_bytes
decode_payload-encode_payload_example =
    decode_payload-encode_payload (9 ∷ []) (3, 4 ∷ []) [] extended 200 4 refl refl refl

decode_payload-ne-diverged_example : decode_payload (0 ∷ 0 ∷ 0 ∷ 0 ∷ 0 ∷ []) 2 4 ≢ err diverged
decode_payload-ne-diverged_example = decode_payload-ne-diverged (0 ∷ 0 ∷ 0 ∷ 0 ∷ 0 ∷ []) 2 4

abbrev answer : Bytes
answer = 0 ∷ 7 ∷ []

read_pieces-read_example :
    let r = record (reader (1 ∷ 2 ∷ 3 ∷ 4 ∷ [])) { offset = 1 } in
    ((1 + (1 + 2) ≤ 4)
      × (read_pieces 1 2 r ≡ read (1 + 2) r)
      × (read (1 + 2) r ≡ (ok (2 ∷ 3 ∷ 4 ∷ []), skip (1 + 2) r)))
    ⊎ ((4 < 1 + (1 + 2))
        × ((read_pieces 1 2 r).0 ≡ err codec_error)
        × (read (1 + 2) r ≡ (err codec_error, r)))
read_pieces-read_example =
    read_pieces-read 1 2 (record (reader (1 ∷ 2 ∷ 3 ∷ 4 ∷ [])) { offset = 1 })

decode_utf8-encode_utf8_example : decode_utf8 (195 ∷ 169 ∷ 33 ∷ []) ≡ some (233 ∷ 33 ∷ [])
unfolding encode_utf8 encode_point
decode_utf8-encode_utf8_example = decode_utf8-encode_utf8 (233 ∷ 33 ∷ []) (195 ∷ 169 ∷ 33 ∷ []) refl
