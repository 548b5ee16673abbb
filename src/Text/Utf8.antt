-- ===== src/Text/Utf8.antt =====
-- `str.encode("utf-8")` and the strict `bytes.decode("utf-8")` of Python's standard library.
use fitz_py.Prelude.{
  ℕ, zero, suc, ◌+◌, ◌-◌, ◌*◌, ◌/◌, ◌%◌, ◌≤◌, ◌<◌, ◌≡◌, refl, Bool, true, ◌&&◌, ◌||◌, ltb, leb,
  ◌==◌, if◌then◌else◌, List, [], ◌∷◌, ◌++◌, Option, none, some, arith,
}
use fitz_py.Prelude.Bytes.{Bytes}

-- A code point that UTF-8 can carry: in range and no surrogate.
unfoldable pub is_scalar : ℕ → Bool
is_scalar c = ltb c 0xD800 || (leb 0xE000 c && ltb c 0x110000)

-- The bytes of one code point; a surrogate raises `UnicodeEncodeError`.
unfoldable pub encode_point : ℕ → Option Bytes
encode_point c =
    if ltb c 0x80
    then some (c ∷ [])
    else if ltb c 0x800
    then some ((0xC0 + c / 64) ∷ (0x80 + c % 64) ∷ [])
    else if ltb c 0xD800 || (leb 0xE000 c && ltb c 0x10000)
    then some ((0xE0 + c / 4096) ∷ (0x80 + c / 64 % 64) ∷ (0x80 + c % 64) ∷ [])
    else if leb 0x10000 c && ltb c 0x110000
    then some
        ((0xF0 + c / 262144) ∷ (0x80 + c / 4096 % 64) ∷ (0x80 + c / 64 % 64) ∷ (0x80 + c % 64) ∷ [])
    else none

append_point : Option Bytes → Option Bytes → Option Bytes
append_point none rest = none
append_point (some bs) none = none
append_point (some bs) (some rest) = some (bs ++ rest)

unfoldable pub encode_utf8 : List ℕ → Option Bytes
unfolding encode_point append_point
encode_utf8 [] = some []
encode_utf8 (c ∷ cs) = append_point (encode_point c) (encode_utf8 cs)

-- The decoder's state: continuation bytes still due, the bits read, the range of the next byte.
pub record Pending : Type 0 where
  pub due : ℕ
  pub bits : ℕ
  pub low : ℕ
  pub high : ℕ

abbrev pub idle : Pending
idle = record { due = 0; bits = 0; low = 0x80; high = 0xBF }

pub data Step : Type 0 where
  bad : Step
  more : Pending → Step
  point : ℕ → Step

-- The first byte of a code point. Overlong forms and surrogates are cut off by the range of the
-- second byte.
lead : ℕ → Step
lead b =
    if ltb b 0x80
    then point b
    else if leb 0xC2 b && leb b 0xDF
    then more (record { due = 1; bits = b - 0xC0; low = 0x80; high = 0xBF })
    else if leb 0xE0 b && leb b 0xEF
    then more (record {
      due = 2;
      bits = b - 0xE0;
      low = if b == 0xE0 then 0xA0 else 0x80;
      high = if b == 0xED then 0x9F else 0xBF;
    })
    else if leb 0xF0 b && leb b 0xF4
    then more (record {
      due = 3;
      bits = b - 0xF0;
      low = if b == 0xF0 then 0x90 else 0x80;
      high = if b == 0xF4 then 0x8F else 0xBF;
    })
    else bad

trail : ℕ → Pending → ℕ → Step
trail due s b =
    if leb s.low b && leb b s.high
    then (if due == 0
        then point (s.bits * 64 + (b - 0x80))
        else more (record { due = due; bits = s.bits * 64 + (b - 0x80); low = 0x80; high = 0xBF }))
    else bad

feed : ℕ → Pending → ℕ → Step
unfolding lead trail
feed zero s b = lead b
feed (suc due) s b = trail due s b

prepend : ℕ → Option (List ℕ) → Option (List ℕ)
prepend c none = none
prepend c (some cs) = some (c ∷ cs)

decode_loop : Pending → Bytes → Option (List ℕ)
unfolding feed prepend
decode_loop s [] = if s.due == 0 then some [] else none
decode_loop s (b ∷ bs) = elim (feed s.due s b) [
  | bad ↦ none
  | more s' ↦ decode_loop s' bs
  | point c ↦ prepend c (decode_loop idle bs)
]

-- `none` is a `UnicodeDecodeError`.
unfoldable pub decode_utf8 : Bytes → Option (List ℕ)
unfolding decode_loop
decode_utf8 = decode_loop idle

-- What the decoder does on the bytes of one code point, by the number of bytes.
one_byte :
    (c : ℕ) (rest : Bytes)
    → c < 0x80
    → decode_loop idle (c ∷ rest) ≡ prepend c (decode_loop idle rest)
unfolding decode_loop
one_byte c rest h = ground arith

two_bytes :
    (c : ℕ) (rest : Bytes)
    → 0x80 ≤ c
    → c < 0x800
    → decode_loop idle ((0xC0 + c / 64) ∷ (0x80 + c % 64) ∷ rest)
      ≡ prepend c (decode_loop idle rest)
unfolding decode_loop
two_bytes c rest lo hi = ground arith

three_bytes :
    (c : ℕ) (rest : Bytes)
    → 0x800 ≤ c
    → c < 0x10000
    → is_scalar c ≡ true
    → decode_loop idle ((0xE0 + c / 4096) ∷ (0x80 + c / 64 % 64) ∷ (0x80 + c % 64) ∷ rest)
      ≡ prepend c (decode_loop idle rest)
unfolding decode_loop is_scalar
three_bytes c rest lo hi s = ground arith

four_bytes :
    (c : ℕ) (rest : Bytes)
    → 0x10000 ≤ c
    → c < 0x110000
    → decode_loop idle (
        (0xF0 + c / 262144)
        ∷ (0x80 + c / 4096 % 64)
        ∷ (0x80 + c / 64 % 64)
        ∷ (0x80 + c % 64)
        ∷ rest)
      ≡ prepend c (decode_loop idle rest)
unfolding decode_loop
four_bytes c rest lo hi = ground arith

decode_loop-encode_point :
    (c : ℕ) (bs rest : Bytes)
    → encode_point c ≡ some bs
    → decode_loop idle (bs ++ rest) ≡ prepend c (decode_loop idle rest)
unfolding encode_point is_scalar
decode_loop-encode_point c bs rest h =
    ground (arith, one_byte c rest, two_bytes c rest, three_bytes c rest, four_bytes c rest)

append_point-eq_some :
    (a b : Option Bytes) (bs : Bytes)
    → append_point a b ≡ some bs
    → (xs : Bytes) × (ys : Bytes) × (a ≡ some xs) × (b ≡ some ys) × (xs ++ ys ≡ bs)
unfolding append_point
append_point-eq_some none b bs h = cc
append_point-eq_some (some xs) none bs h = cc
append_point-eq_some (some xs) (some ys) bs h = (xs, ys, refl, refl, cc)

-- Whatever text encodes at all is read back, code point by code point.
pub decode_utf8-encode_utf8 :
    (text : List ℕ) (bs : Bytes) → encode_utf8 text ≡ some bs → decode_utf8 bs ≡ some text
unfolding encode_utf8 decode_utf8
decode_utf8-encode_utf8 [] [] h = refl
decode_utf8-encode_utf8 [] (b ∷ bs) h = cc
decode_utf8-encode_utf8 (c ∷ cs) bs h =
    let (xs, ys, ex, ey, e) = append_point-eq_some (encode_point c) (encode_utf8 cs) bs h in
    let ih = decode_utf8-encode_utf8 cs ys ey in
    rw (← e, decode_loop-encode_point c xs ys ex, ih) refl
