-- ===== src/Protocol/Frame/RoundTrip.antt =====
-- Encoding and decoding of frames undo one another.
use fitz_py.Prelude.{
  ℕ, ◌+◌, ◌-◌, ◌≡◌, ◌≤◌, ap, sym, ◌∙◌, ◌++◌, [], ◌∷◌, ◌==◌, length, length-append, take, drop,
  arith, true, some, get_elem?, ==_self, ltb_ge, take_eq, drop_eq, get_elem?-append_mid,
}
use mathlib.Core.List.{append_assoc}
use fitz_py.Prelude.Bytes.{Bytes, to_bytes, from_bytes, length-to_bytes, from_bytes-to_bytes}
use fitz_py.Errors.{ok}
use fitz_py.Protocol.Frame.{max_message_size, encode_frame, decode_frame, slice, invalid_flags}

slice_mid :
    (n k : ℕ) (a b c : Bytes) → length a ≡ n → n + length b ≡ k → slice n k (a ++ (b ++ c)) ≡ b
slice_mid n k a b c ea eb =
    ap (take (k - n)) (drop_eq n a (b ++ c) ea) ∙ take_eq (k - n) b c (omega arith)

decode_frame_of :
    (bs kind id size p : Bytes) (fl : ℕ)
    → length bs ≡ 15 + length p
    → get_elem? bs 2 ≡ some fl
    → slice 0 2 bs ≡ kind
    → slice 3 11 bs ≡ id
    → slice 11 15 bs ≡ size
    → drop 15 bs ≡ p
    → from_bytes size ≡ length p
    → (invalid_flags fl == 0) ≡ true
    → 15 + length p ≤ max_message_size
    → decode_frame bs
      ≡ ok (record {
        message_type = from_bytes kind;
        flags = fl;
        correlation_id = from_bytes id;
        payload = p;
      })
unfolding decode_frame
decode_frame_of bs kind id size p fl el eg ek ei es ep ez ef small = rw (
  ltb_ge max_message_size (length bs) (omega arith),
  ltb_ge (length bs) 15 (omega arith),
  eg,
  ef,
  es,
  ek,
  ei,
  ep,
  ez,
  el,
  ==_self (15 + length p),
)

-- `decode_frame` on a message whose four header fields have their lengths.
module _ (kind id size p : Bytes) (fl : ℕ) (ek : length kind ≡ 2) (ei : length id ≡ 8)
    (es : length size ≡ 4) where
  abbrev message : Bytes
  message = kind ++ (fl ∷ (id ++ (size ++ p)))

  length-message : length message ≡ 15 + length p
  length-message = omega (
    arith,
    length-append kind (fl ∷ (id ++ (size ++ p))),
    length-append id (size ++ p),
    length-append size p,
  )

  length-front : length (kind ++ (fl ∷ [])) ≡ 3
  length-front = omega (arith, length-append kind (fl ∷ []))

  kind-eq : slice 0 2 message ≡ kind
  kind-eq = take_eq 2 kind (fl ∷ (id ++ (size ++ p))) ek

  id-eq : slice 3 11 message ≡ id
  id-eq =
      ap (slice 3 11) (sym (append_assoc kind (fl ∷ []) (id ++ (size ++ p))))
      ∙ slice_mid 3 11 (kind ++ (fl ∷ [])) id (size ++ p) length-front (omega arith)

  regroup : ((kind ++ (fl ∷ [])) ++ id) ++ (size ++ p) ≡ message
  regroup =
      append_assoc (kind ++ (fl ∷ [])) id (size ++ p)
      ∙ append_assoc kind (fl ∷ []) (id ++ (size ++ p))

  length-regroup : length ((kind ++ (fl ∷ [])) ++ id) ≡ 11
  length-regroup = omega (arith, length-append (kind ++ (fl ∷ [])) id, length-front)

  size-eq : slice 11 15 message ≡ size
  size-eq =
      ap (slice 11 15) (sym regroup)
      ∙ slice_mid 11 15 ((kind ++ (fl ∷ [])) ++ id) size p length-regroup (omega arith)

  payload-eq : drop 15 message ≡ p
  payload-eq =
      ap (drop 15) (sym (append_assoc ((kind ++ (fl ∷ [])) ++ id) size p ∙ regroup))
      ∙ drop_eq 15 (((kind ++ (fl ∷ [])) ++ id) ++ size) p
          (omega (arith, length-append ((kind ++ (fl ∷ [])) ++ id) size, length-regroup))

  decode_frame-message :
      from_bytes size ≡ length p
      → (invalid_flags fl == 0) ≡ true
      → 15 + length p ≤ max_message_size
      → decode_frame message
        ≡ ok (record {
          message_type = from_bytes kind;
          flags = fl;
          correlation_id = from_bytes id;
          payload = p;
        })
  decode_frame-message =
      decode_frame_of message kind id size p fl length-message
        (get_elem?-append_mid 2 kind fl (id ++ (size ++ p)) ek) kind-eq id-eq size-eq payload-eq

-- A message that `encode_frame` accepts is decoded to what it was made of, its payload untouched.
pub decode_frame-encode_frame :
    (message_type flags correlation_id : ℕ) (payload bs : Bytes)
    → encode_frame message_type payload flags correlation_id ≡ ok bs
    → decode_frame bs
      ≡ ok (record {
        message_type = message_type;
        flags = flags;
        correlation_id = correlation_id;
        payload = payload;
      })
unfolding encode_frame
decode_frame-encode_frame message_type flags correlation_id payload bs h = ground (
  arith,
  from_bytes-to_bytes 2 message_type,
  from_bytes-to_bytes 8 correlation_id,
  from_bytes-to_bytes 4 (length payload),
  decode_frame-message (to_bytes 2 message_type) (to_bytes 8 correlation_id)
      (to_bytes 4 (length payload)) payload flags (length-to_bytes 2 message_type)
      (length-to_bytes 8 correlation_id) (length-to_bytes 4 (length payload)),
)
