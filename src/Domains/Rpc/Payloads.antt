-- ===== src/Domains/Rpc/Payloads.antt =====
-- What one side of a call writes, the other reads.
use fitz_py.Prelude.{
  ℕ, ◌^◌, ◌<◌, ◌≤◌, ◌%◌, ◌≡◌, refl, ap, subst, Bool, true, false, ◌++◌, [], ◌∷◌, length, bit,
  le→leb, Option, none, some, arith, length-append, not, ltb, ◌==◌, ltb_ge,
}
use fitz_py.Prelude.Bytes.{Bytes, to_bytes, length-to_bytes}
use fitz_py.Errors.{ok, rpc, domain_error}
use fitz_py.Exec.{guard, pure, ◌>>=◌, ◌>>◌}
use fitz_py.Text.{Str}
use fitz_py.Text.Utf8.{encode_utf8}
use fitz_py.Protocol.Buffer.{
  written, reader, write_u8, write_u16_be, write_u32_be, write_u64_be, write_route, read_u8,
  read_uint, read_u32_be, read_u64_be, read_bytes, read_route, is_eof,
}
use fitz_py.Protocol.Buffer.Writes.{
  Writes, Writes-then, Writes-uint, Writes-bytes, Writes-string, Writes-nothing, written-Writes,
  string_bytes,
}
use fitz_py.Protocol.Buffer.Reads.{
  Reads, ReadsAll, Reads-bytes, Reads-pure, Reads-uint, Reads-u8, Reads-string, ReadsAll-bind,
  ReadsAll-bind_last, ReadsAll-is_eof, ReadsAll-pure, reader-ReadsAll,
}
use fitz_py.Protocol.Buffer.Tails.{
  ReadsTail, Reads-Tail, ReadsTail-is_eof, ReadsTail-more, ReadsTail-remaining_bytes,
  ReadsTail-bind, ReadsTail-bind_last, ReadsAll-bind_tail, ReadsAll-eof,
}
use fitz_py.Protocol.Response.Envelope.{error_bytes, parse_response-error_bytes}
use fitz_py.Domains.Rpc.{rpc_error}
use fitz_py.Domains.Rpc.Frames.{
  max_budget, write_request_budget, request_payload, read_some_budget, read_flagged_budget,
  read_request_budget, Inbound, read_inbound, read_request, looks_like_request, or_false,
  response_payload, Answer, read_response, effect_of, error_body, decode_terminal_error,
}

abbrev pub budget_bytes : Option ℕ → Bytes
budget_bytes none = to_bytes 1 0
budget_bytes (some budget) = to_bytes 1 1 ++ to_bytes 4 budget

abbrev pub IsBudget : Option ℕ → Type 0
IsBudget none = Unit {0}
IsBudget (some budget) = budget ≤ max_budget

Writes-budget : (b : Option ℕ) → IsBudget b → Writes (write_request_budget b) (budget_bytes b)
unfolding write_request_budget write_u8 write_u32_be
Writes-budget none h = Writes-uint 1 0 (omega arith)
Writes-budget (some budget) h = rw (le→leb budget 86400000 h) (
    Writes-then Writes-nothing
      (Writes-then (Writes-uint 1 1 (omega arith)) (Writes-uint 4 budget (omega arith))))

-- The bytes of a request.
abbrev pub request_bytes : Inbound → Bytes → Bytes
request_bytes r route_bytes =
    r.correlation_id
    ++ (string_bytes route_bytes
        ++ (to_bytes 4 (length r.body) ++ (r.body ++ budget_bytes r.budget)))

-- A request that can be written.
pub record IsRequest (r : Inbound) (route_bytes : Bytes) : Type 0 where
  pub id_size : length r.correlation_id ≡ 16
  pub route_encodes : encode_utf8 r.route ≡ some route_bytes
  pub route_fits : length route_bytes < 2 ^ 32
  pub body_fits : length r.body < 256 ^ 4
  pub budget_fits : IsBudget r.budget

request_payload-Writes :
    (r : Inbound) (route_bytes : Bytes)
    → IsRequest r route_bytes
    → Writes
        (request_payload r.correlation_id r.route r.body r.budget)
        (request_bytes r route_bytes)
unfolding request_payload write_u32_be write_route
request_payload-Writes r route_bytes h = Writes-then (Writes-bytes r.correlation_id) (
    Writes-then (Writes-string r.route route_bytes h.route_encodes h.route_fits) (
      Writes-then (Writes-uint 4 (length r.body) h.body_fits)
        (Writes-then (Writes-bytes r.body) (Writes-budget r.budget h.budget_fits))))

ReadsTail-budget : (b : Option ℕ) → IsBudget b → ReadsTail read_request_budget b (budget_bytes b)
unfolding read_request_budget read_flagged_budget read_some_budget read_u32_be to_bytes
ReadsTail-budget none h = ReadsTail-more _ 0 [] (
    ReadsTail-bind_last _ (Reads-Tail (Reads-u8 0))
      (ReadsTail-is_eof _ (Reads-Tail (Reads-pure none))))
ReadsTail-budget (some budget) h = ReadsTail-more _ 1 (to_bytes 4 budget) (
    ReadsTail-bind _ (Reads-u8 1) (
      ReadsTail-remaining_bytes {xs = to_bytes 4 budget} _ (
        rw (length-to_bytes 4 budget) (
          ReadsTail-bind_last _ (Reads-Tail (Reads-uint 4 budget (omega arith)))
            (rw (le→leb budget 86400000 h) (Reads-Tail (Reads-pure (some budget))))))))

-- A correlation id is read by its fixed size.
sixteen : (bs : Bytes) → length bs ≡ 16 → Reads (read_bytes 16) bs bs
sixteen bs e = subst (λ n. Reads (read_bytes n) bs bs) e (Reads-bytes bs)

ReadsTail-inbound :
    (r : Inbound) (route_bytes : Bytes)
    → IsRequest r route_bytes
    → ReadsTail read_inbound r (request_bytes r route_bytes)
unfolding read_inbound read_u32_be read_route
ReadsTail-inbound r route_bytes h = ReadsTail-bind _ (sixteen r.correlation_id h.id_size) (
    ReadsTail-bind _ (Reads-string r.route route_bytes h.route_encodes h.route_fits) (
      ReadsTail-bind _ (Reads-uint 4 (length r.body) h.body_fits) (
        ReadsTail-bind _ (Reads-bytes r.body) (
          ReadsTail-bind_last _ (ReadsTail-budget r.budget h.budget_fits)
            (Reads-Tail (Reads-pure r))))))

-- The request that a caller writes is read back by a worker, with its budget if it has one, and its
-- payload is told to be a request.
pub read_request-request_payload :
    (r : Inbound) (route_bytes : Bytes)
    → IsRequest r route_bytes
    → (written (request_payload r.correlation_id r.route r.body r.budget)
        ≡ ok (request_bytes r route_bytes))
      × (((read_request (reader (request_bytes r route_bytes))).0 ≡ ok r)
          × (looks_like_request (request_bytes r route_bytes) ≡ true))
unfolding read_request looks_like_request
read_request-request_payload r route_bytes h =
    let read_all = ReadsTail-inbound r route_bytes h in
    (
      written-Writes _ _ (request_payload-Writes r route_bytes h),
      (
        reader-ReadsAll read_request r _
            (ReadsAll-bind_tail _ read_all (ReadsAll-is_eof _ (ReadsAll-pure r []))),
        ap or_false (reader-ReadsAll _ true _ (ReadsAll-bind_tail _ read_all ReadsAll-eof)),
      ),
    )

-- The bytes of a response.
abbrev pub answer_bytes : Answer → Bytes
answer_bytes a =
    a.correlation_id
    ++ (to_bytes 8 a.sequence ++ (to_bytes 1 (bit a.end) ++ (to_bytes 4 (length a.body) ++ a.body)))

pub record IsAnswer (a : Answer) : Type 0 where
  pub id_size : length a.correlation_id ≡ 16
  pub sequence_fits : a.sequence < 256 ^ 8
  pub body_fits : length a.body < 256 ^ 4

pub bit_byte : (b : Bool) → to_bytes 1 (bit b) ≡ bit b ∷ []
unfolding to_bytes
bit_byte true = refl
bit_byte false = refl

response_payload-Writes :
    (a : Answer)
    → IsAnswer a
    → Writes (response_payload a.correlation_id a.sequence a.end a.body) (answer_bytes a)
unfolding response_payload write_u64_be write_u8 write_u32_be
response_payload-Writes a h = Writes-then (Writes-bytes a.correlation_id) (
    Writes-then (Writes-uint 8 a.sequence h.sequence_fits) (
      Writes-then (Writes-uint 1 (bit a.end) (bit_fits a.end))
        (Writes-then (Writes-uint 4 (length a.body) h.body_fits) (Writes-bytes a.body))))
  where
    bit_fits : (b : Bool) → bit b < 256 ^ 1
    bit_fits true = omega arith
    bit_fits false = omega arith

ReadsAll-answer : (a : Answer) → IsAnswer a → ReadsAll read_response a (answer_bytes a)
unfolding read_response read_u64_be read_u32_be
ReadsAll-answer a h = ReadsAll-bind _ (sixteen a.correlation_id h.id_size) (
    ReadsAll-bind _ (Reads-uint 8 a.sequence h.sequence_fits)
      (rw (bit_byte a.end) (flagged a.end refl)))
  where
    flagged :
        (b : Bool)
        → a.end ≡ b
        → ReadsAll
            (read_u8 >>= λ flags.
              guard (not (ltb 1 flags)) (rpc_error "INVALID_RESPONSE")
              >> (read_uint 4 >>= λ size. read_bytes size >>= λ body. is_eof >>= λ eof.
                  guard eof (rpc_error "INVALID_RESPONSE")
                  >> pure (record {
                    correlation_id = a.correlation_id;
                    sequence = a.sequence;
                    end = flags == 1;
                    body = body;
                  })))
            (record a { end = b })
            ((bit b ∷ []) ++ (to_bytes 4 (length a.body) ++ a.body))
    flagged true e = ReadsAll-bind _ (Reads-u8 1) (
        ReadsAll-bind _ (Reads-uint 4 (length a.body) h.body_fits)
          (ReadsAll-bind_last _ (Reads-bytes a.body) (ReadsAll-is_eof _ (ReadsAll-pure _ []))))
    flagged false e = ReadsAll-bind _ (Reads-u8 0) (
        ReadsAll-bind _ (Reads-uint 4 (length a.body) h.body_fits)
          (ReadsAll-bind_last _ (Reads-bytes a.body) (ReadsAll-is_eof _ (ReadsAll-pure _ []))))

-- The frame that a worker writes is read back by the caller: its body, its number and whether it is
-- the last.
pub read_response-response_payload :
    (a : Answer)
    → IsAnswer a
    → (written (response_payload a.correlation_id a.sequence a.end a.body) ≡ ok (answer_bytes a))
      × ((read_response (reader (answer_bytes a))).0 ≡ ok a)
read_response-response_payload a h = (
  written-Writes _ _ (response_payload-Writes a h),
  reader-ReadsAll read_response a _ (ReadsAll-answer a h),
)

one_byte : (v : ℕ) → v < 256 → to_bytes 1 v ≡ v ∷ []
unfolding to_bytes
one_byte v h = ap (λ (n : ℕ). n ∷ []) (omega (arith, h))

effect_small : (code : ℕ) → effect_of code ≤ 1
effect_small code = ground arith

-- The body of the frame that ends a call with an error.
abbrev pub terminal_bytes : ℕ → Bytes → Bytes
terminal_bytes code message = 1 ∷ error_bytes code (code % 1000) (effect_of code) message

error_body-Writes :
    (code : ℕ) (text : Str) (message : Bytes)
    → code < 2 ^ 16
    → code % 1000 < 256
    → encode_utf8 text ≡ some message
    → length message < 2 ^ 32
    → Writes (error_body code text) (terminal_bytes code message)
unfolding error_body write_u8 write_u16_be
error_body-Writes code text message hc hk e hl =
    let fits = effect_small code in
    let whole = Writes-then (Writes-uint 1 1 (omega arith)) (
      Writes-then (Writes-uint 2 code (omega arith)) (
        Writes-then (Writes-uint 1 (code % 1000) (omega arith)) (
          Writes-then (Writes-uint 1 (effect_of code) (omega arith))
            (Writes-string text message e hl)))) in
    let one = one_byte 1 (omega arith) in
    let class = one_byte (code % 1000) hk in
    let effect = one_byte (effect_of code) (omega arith) in rw (one, class, effect) at whole

-- The error that a worker sends as its last frame, with a code of 6001 to 6010, reaches the caller
-- as an error of the call with that code, the class that its last digits give, and its effect.
pub decode_terminal_error-error_body :
    (code : ℕ) (text : Str) (message : Bytes)
    → 6001 ≤ code
    → code ≤ 6010
    → encode_utf8 text ≡ some message
    → length message < 2 ^ 32
    → (written (error_body code text) ≡ ok (terminal_bytes code message))
      × (decode_terminal_error (terminal_bytes code message)
          ≡ ok (
              some
                (domain_error rpc "CALL" (some code) (some (code % 1000)) (some (effect_of code)))))
unfolding decode_terminal_error
decode_terminal_error-error_body code text message low high e hl =
    let class : code % 1000 ≤ 10 = omega arith in
    let effect = effect_small code in
    let two = length-to_bytes 2 code in
    let four = length-to_bytes 4 (length message) in
    let long : ltb (length (terminal_bytes code message)) 9 ≡ false = ltb_ge _ 9 (
      omega (
        arith,
        two,
        four,
        length-append (to_bytes 2 code) ((code % 1000) ∷ effect_of code ∷ string_bytes message),
        length-append (to_bytes 4 (length message)) message,
      )) in
    let parsed =
      parse_response-error_bytes code (code % 1000) (effect_of code) text message (omega arith)
        class (omega arith) e hl in
    let is_low = le→leb 6001 code low in
    let is_high = le→leb code 6010 high in
    (
      written-Writes _ _ (error_body-Writes code text message (omega arith) (omega arith) e hl),
      rw (long, parsed, is_low, is_high) refl,
    )
