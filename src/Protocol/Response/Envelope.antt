-- ===== src/Protocol/Response/Envelope.antt =====
-- What `parse_response` accepts, and what it makes of it.
use fitz_py.Prelude.{
  ℕ, ◌^◌, ◌≤◌, ◌<◌, ◌≡◌, ◌⊎◌, refl, ap, sym, ◌∙◌, ◌++◌, [], ◌∷◌, ltb, ◌==◌, ◌||◌, if◌then◌else◌,
  drop, some, length, arith, true, false, ltb_ge, inl, inr, Bool-cases,
}
use fitz_py.Prelude.Bytes.{Bytes, to_bytes}
use fitz_py.Errors.{ok, protocol_error}
use fitz_py.Exec.{continue, Ensures, Ensures-bind, Ensures-pure, Ensures-raise, pure, raise}
use fitz_py.Text.{Str}
use fitz_py.Text.Utf8.{encode_utf8}
use fitz_py.Protocol.Buffer.{
  BufferReader, reader, read_u8, read_u16_be, read_string, is_eof, remaining,
}
use fitz_py.Protocol.Buffer.Writes.{string_bytes}
use fitz_py.Protocol.Buffer.Reads.{
  skip, rest_of, ReadsAll, Reads-uint, Reads-u8, ReadsAll-bind_last, Reads-string, ReadsAll-pure,
  ReadsAll-bind, ReadsAll-is_eof, ReadsAll-remaining, reader-ReadsAll,
}
use fitz_py.Protocol.Response.{
  Response, success_response, error_response, read_error, read_body, read_response, parse_response,
}

-- The wire form of an error, behind its status byte.
abbrev pub error_bytes : ℕ → ℕ → ℕ → Bytes → Bytes
error_bytes code error_class effect message =
    to_bytes 2 code ++ (error_class ∷ effect ∷ string_bytes message)

read_error-ReadsAll :
    (code error_class effect : ℕ) (text : Str) (message : Bytes)
    → code < 2 ^ 16
    → error_class ≤ 10
    → effect ≤ 2
    → encode_utf8 text ≡ some message
    → length message < 2 ^ 32
    → ReadsAll read_error
        (error_response code error_class effect text)
        (error_bytes code error_class effect message)
unfolding read_error read_u16_be
read_error-ReadsAll code error_class effect text message hc hk hf e hl =
    ReadsAll-bind _ (Reads-uint 2 code (omega arith)) (
      ReadsAll-bind _ (Reads-u8 error_class) (
        ReadsAll-bind _ (Reads-u8 effect) (
          rw (ltb_ge 10 error_class hk, ltb_ge 2 effect hf)
            (ReadsAll-bind_last _ (Reads-string text message e hl)
              (ReadsAll-is_eof _ (ReadsAll-pure _ []))))))

-- An error envelope with a class up to 10 and an effect up to 2 is read back field by field, and
-- carries no data.
pub parse_response-error_bytes :
    (code error_class effect : ℕ) (text : Str) (message : Bytes)
    → code < 2 ^ 16
    → error_class ≤ 10
    → effect ≤ 2
    → encode_utf8 text ≡ some message
    → length message < 2 ^ 32
    → parse_response (1 ∷ error_bytes code error_class effect message)
      ≡ ok (error_response code error_class effect text)
unfolding parse_response
parse_response-error_bytes code error_class effect text message hc hk hf e hl =
    reader-ReadsAll read_response _ _ (
      ReadsAll-bind _ (Reads-u8 1)
        (read_error-ReadsAll code error_class effect text message hc hk hf e hl))

pub parse_response-success_bytes : (bs : Bytes) → parse_response (0 ∷ bs) ≡ ok (success_response bs)
unfolding parse_response
parse_response-success_bytes bs =
    reader-ReadsAll read_response _ _
      (ReadsAll-bind _ (Reads-u8 0) (ReadsAll-remaining {xs = bs} _ (ReadsAll-pure _ bs)))

-- An error response with its class and effect in range.
abbrev pub IsErrorResponse : Response → Type 0
IsErrorResponse r =
    (code : ℕ) × (error_class : ℕ) × (effect : ℕ) × (text : Str) × (r
      ≡ error_response code error_class effect text)
    × (error_class ≤ 10)
    × (effect ≤ 2)

in_range : (k f : ℕ) → (ltb 10 k || ltb 2 f) ≡ false → (k ≤ 10) × (f ≤ 2)
in_range k f h = ground arith

read_error-IsErrorResponse : Ensures IsErrorResponse read_error
unfolding read_error
read_error-IsErrorResponse = Ensures-bind read_u16_be _ λ code. Ensures-bind read_u8 _ λ k.
    Ensures-bind read_u8 _ λ f. elim (Bool-cases (ltb 10 k || ltb 2 f)) [
      | inl bad ↦ rw bad (Ensures-raise _)
      | inr good ↦ rw good (
          Ensures-bind read_string _ λ text. Ensures-bind is_eof _ λ eof.
            let (kr, fr) = in_range k f good in
            elim eof
              as (λ b. Ensures {S = BufferReader} IsErrorResponse (
                if b
                then pure (error_response code k f text)
                else raise (protocol_error (some code)))) [
                  | true ↦ Ensures-pure _ (code, k, f, text, refl, kr, fr)
                  | false ↦ Ensures-raise _
                ])
    ]

first_byte : (b : ℕ) (bs : Bytes) → read_u8 (reader (b ∷ bs)) ≡ (ok b, skip 1 (reader (b ∷ bs)))
first_byte b bs =
    (Reads-u8 b).at (reader (b ∷ bs)) bs (record { within = omega arith; ahead = refl })

parse_response-first :
    (b : ℕ) (bs : Bytes) → parse_response (b ∷ bs) ≡ (read_body b (skip 1 (reader (b ∷ bs)))).0
unfolding parse_response
parse_response-first b bs = ap (λ p. (continue read_body p).0) (first_byte b bs)

read_body_cases :
    (b : ℕ) (s : BufferReader) (r : Response)
    → (read_body b s).0 ≡ ok r
    → ((b ≡ 0) × (r ≡ success_response (rest_of s))) ⊎ ((b ≡ 1) × IsErrorResponse r)
unfolding read_body remaining
read_body_cases b s r h = elim (Bool-cases (b == 0)) [
  | inl zero ↦ inl (ground arith, ground arith)
  | inr nonzero ↦ elim (Bool-cases (b == 1)) [
    | inl one ↦ inr (ground arith, read_error-IsErrorResponse.at s r (rw (nonzero, one) at h))
    | inr other ↦ ground arith
  ]
]

-- Every byte string that is accepted is a success envelope, with nothing but its data, or an error
-- envelope, with its class and effect in range and no data.
pub parse_response_cases :
    (bs : Bytes) (r : Response)
    → parse_response bs ≡ ok r
    → ((bs ≡ 0 ∷ drop 1 bs) × (r ≡ success_response (drop 1 bs)))
      ⊎ ((bs ≡ 1 ∷ drop 1 bs) × IsErrorResponse r)
parse_response_cases [] r h = unfold parse_response in cc
parse_response_cases (b ∷ bs) r h =
    elim (read_body_cases b (skip 1 (reader (b ∷ bs))) r (sym (parse_response-first b bs) ∙ h)) [
      | inl (e, k) ↦ inl (ap (λ (n : ℕ). n ∷ bs) e, k)
      | inr (e, k) ↦ inr (ap (λ (n : ℕ). n ∷ bs) e, k)
    ]
