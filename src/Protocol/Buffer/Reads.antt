-- ===== src/Protocol/Buffer/Reads.antt =====
-- A reader refines the consumption of a byte string from its front.
use fitz_py.Prelude.{
  ℕ, ◌+◌, ◌-◌, ◌^◌, ◌≤◌, ◌<◌, ◌≡◌, refl, sym, ap, ◌∙◌, ◌++◌, [], ◌∷◌, ◌*◌, some, arith, length,
  length-append, zero, suc, ltb, ltb→lt, lt→ltb, ltb_ge, ltb_false→le, le→leb, leb, Bool-cases, ◌⊎◌,
  inl, inr, take, drop, length-drop, take-append_left, drop-append_left, drop-drop_eq, Bool, true,
  false,
}
use fitz_py.Prelude.Bytes.{Bytes, to_bytes, length-to_bytes, from_bytes, from_bytes-to_bytes}
use mathlib.Core.List.{append-nil, append_assoc}
use fitz_py.Errors.{Result, ok, err, codec_error}
use fitz_py.Exec.{pure, ◌>>=◌}
use fitz_py.Text.{Str}
use fitz_py.Text.Utf8.{encode_utf8, decode_utf8, decode_utf8-encode_utf8}
use fitz_py.Protocol.Buffer.Writes.{string_bytes}
use fitz_py.Protocol.Buffer.{
  BufferReader, Reader, reader, read, read_uint, read_u32_be, read_bytes, read_string, decoded,
  remaining, is_eof, remaining_bytes, read_u8,
}

-- What is left to read.
abbrev pub rest_of : BufferReader → Bytes
rest_of r = drop r.offset r.buffer

abbrev pub skip : ℕ → BufferReader → BufferReader
skip n r = record r { offset = r.offset + n }

-- The cursor is within the buffer, with `xs` in front of `rest` still to be read.
pub record Ahead (r : BufferReader) (xs rest : Bytes) : Type 0 where
  pub within : r.offset ≤ length r.buffer
  pub ahead : rest_of r ≡ xs ++ rest

-- `m` reads exactly `xs` off the front, whatever follows, and returns `a`.
pub record Reads {A : Type 0} (m : Reader A) (a : A) (xs : Bytes) : Type 0 where
  pub at : (r : BufferReader) (rest : Bytes) → Ahead r xs rest → m r ≡ (ok a, skip (length xs) r)

-- `m` returns `a` when exactly `xs` is left.
pub record ReadsAll {A : Type 0} (m : Reader A) (a : A) (xs : Bytes) : Type 0 where
  pub at : (r : BufferReader) → Ahead r xs [] → (m r).0 ≡ ok a

pub length-Ahead :
    (r : BufferReader) (xs rest : Bytes)
    → Ahead r xs rest
    → r.offset + length xs + length rest ≡ length r.buffer
length-Ahead r xs rest h =
    omega (arith, ap length h.ahead, length-append xs rest, length-drop r.offset r.buffer)

pub Ahead-skip :
    (r : BufferReader) (xs rest : Bytes) → Ahead r xs rest → Ahead (skip (length xs) r) rest []
Ahead-skip r xs rest h = record {
  within = omega (arith, length-Ahead r xs rest h);
  ahead =
      sym (drop-drop_eq r.offset (length xs) (r.offset + length xs) r.buffer refl)
      ∙ ap (drop (length xs)) h.ahead
      ∙ drop-append_left xs rest
      ∙ sym (append-nil rest);
}

pub Ahead-split :
    (r : BufferReader) (xs ys rest : Bytes)
    → Ahead r (xs ++ ys) rest
    → Ahead r xs (ys ++ rest) × Ahead (skip (length xs) r) ys rest
Ahead-split r xs ys rest h =
    let first : Ahead r xs (ys ++ rest) = record {
      within = h.within;
      ahead = h.ahead ∙ append_assoc xs ys rest;
    } in
    let second = Ahead-skip r xs (ys ++ rest) first in
    (first, record { within = second.within; ahead = second.ahead ∙ append-nil (ys ++ rest) })

room_for :
    (xs rest : Bytes) (r : BufferReader)
    → Ahead r xs rest
    → ltb (length r.buffer) (r.offset + length xs) ≡ false
room_for xs rest r h = ltb_ge _ _ (omega (arith, length-Ahead r xs rest h))

Reads-read : (xs : Bytes) → Reads (read (length xs)) xs xs
unfolding read
Reads-read xs = record {
  at = λ r rest h. rw (room_for xs rest r h, h.ahead, take-append_left xs rest);
}

pub Reads-bytes : (xs : Bytes) → Reads (read_bytes (length xs)) xs xs
unfolding read_bytes
Reads-bytes = Reads-read

pub Reads-pure : {A : Type 0} (a : A) → Reads (pure a) a []
Reads-pure a = record {
  at = λ r rest h. ap (λ (n : ℕ). (ok a, record r { offset = n })) (omega arith);
}

module _ {A B : Type 0} {m : Reader A} {a : A} {b : B} (f : A → Reader B) {xs ys : Bytes} where
  pub Reads-bind : Reads m a xs → Reads (f a) b ys → Reads (m >>= f) b (xs ++ ys)
  Reads-bind hm hf = record {
    at = λ r rest h.
        let (first, second) = Ahead-split r xs ys rest h in
        rw (hm.at r (ys ++ rest) first) (
          hf.at (skip (length xs) r) rest second
          ∙ ap (λ (n : ℕ). (ok b, record r { offset = n })) (omega (arith, length-append xs ys)));
  }

  pub ReadsAll-bind : Reads m a xs → ReadsAll (f a) b ys → ReadsAll (m >>= f) b (xs ++ ys)
  ReadsAll-bind hm hf = record {
    at = λ r h.
        let (first, second) = Ahead-split r xs ys [] h in
        rw (hm.at r (ys ++ []) first) (hf.at (skip (length xs) r) second);
  }

-- The last read of a payload.
pub ReadsAll-bind_last :
    {A B : Type 0} {m : Reader A} {a : A} {b : B} (f : A → Reader B) {xs : Bytes}
    → Reads m a xs
    → ReadsAll (f a) b []
    → ReadsAll (m >>= f) b xs
ReadsAll-bind_last f {xs} hm hf = record {
  at = λ r h. rw (hm.at r [] h) (hf.at (skip (length xs) r) (Ahead-skip r xs [] h));
}

pub ReadsAll-pure : {A : Type 0} (a : A) (xs : Bytes) → ReadsAll (pure a) a xs
ReadsAll-pure a xs = record { at = λ r h. refl }

pub Reads-All : {A : Type 0} {m : Reader A} {a : A} {xs : Bytes} → Reads m a xs → ReadsAll m a xs
Reads-All h = record { at = λ r k. ap (λ p. p.0) (h.at r [] k) }

pub Reads-uint : (n v : ℕ) → v < 256 ^ n → Reads (read_uint n) v (to_bytes n v)
unfolding read_uint
Reads-uint n v h = record {
  at = λ r rest k.
      let got = (Reads-read (to_bytes n v)).at r rest k in
      rw (rw (length-to_bytes n v) at got, from_bytes-to_bytes n v h, length-to_bytes n v);
}

-- A single byte, read as it stands.
pub Reads-u8 : (b : ℕ) → Reads read_u8 b (b ∷ [])
unfolding read_u8 read_uint from_bytes
Reads-u8 b = record {
  at = λ r rest k.
      let e : 0 * 256 + b ≡ b = omega arith in rw ((Reads-read (b ∷ [])).at r rest k, e);
}

-- The text comes back from its wire form.
pub Reads-string :
    (text : Str) (bs : Bytes)
    → encode_utf8 text ≡ some bs
    → length bs < 2 ^ 32
    → Reads read_string text (string_bytes bs)
unfolding read_string read_u32_be
Reads-string text bs e h =
    let last : Reads (decoded (decode_utf8 bs)) text [] =
      rw (decode_utf8-encode_utf8 text bs e) (Reads-pure text) in
    let tail : Reads (read_bytes (length bs) >>= λ b. decoded (decode_utf8 b)) text (bs ++ []) =
      Reads-bind (λ b. decoded (decode_utf8 b)) (Reads-bytes bs) last in
    Reads-bind (λ n. read_bytes n >>= λ b. decoded (decode_utf8 b))
      (Reads-uint 4 (length bs) (omega arith)) (rw append-nil at tail)

pub ReadsAll-is_eof :
    {A : Type 0} {a : A} (f : Bool → Reader A)
    → ReadsAll (f true) a []
    → ReadsAll (is_eof >>= f) a []
unfolding is_eof
ReadsAll-is_eof f h = record {
  at = λ r k.
      let all = length-Ahead r [] [] k in
      rw (le→leb (length r.buffer) r.offset (omega arith)) (h.at r k);
}

module _ {A : Type 0} {a : A} {xs : Bytes} where
  pub ReadsAll-remaining :
      (f : Bytes → Reader A) → ReadsAll (f xs) a xs → ReadsAll (remaining >>= f) a xs
  unfolding remaining
  ReadsAll-remaining f h = record { at = λ r k. rw (k.ahead, append-nil xs) (h.at r k) }

  pub ReadsAll-remaining_bytes :
      (f : ℕ → Reader A) → ReadsAll (f (length xs)) a xs → ReadsAll (remaining_bytes >>= f) a xs
  unfolding remaining_bytes
  ReadsAll-remaining_bytes f h = record {
    at = λ r k.
        let e : length r.buffer - r.offset ≡ length xs = omega (arith, length-Ahead r xs [] k) in
        rw e (h.at r k);
  }

pub ReadsAll-more :
    {A : Type 0} {a : A} (f : Bool → Reader A) (x : ℕ) (xs : Bytes)
    → ReadsAll (f false) a (x ∷ xs)
    → ReadsAll (is_eof >>= f) a (x ∷ xs)
unfolding is_eof
ReadsAll-more f x xs h = record {
  at = λ r k.
      let all : r.offset < length r.buffer = omega (arith, length-Ahead r (x ∷ xs) [] k) in
      let e : leb (length r.buffer) r.offset ≡ false = ground (arith, all) in rw e (h.at r k);
}

-- What a whole payload decodes to.
pub reader-ReadsAll :
    {A : Type 0} (m : Reader A) (a : A) (xs : Bytes) → ReadsAll m a xs → (m (reader xs)).0 ≡ ok a
reader-ReadsAll m a xs h =
    h.at (reader xs) (record { within = omega arith; ahead = sym (append-nil xs) })

take-nil : (k : ℕ) → ◌≡◌ {A = Bytes} (take k []) []
take-nil zero = refl
take-nil (suc k) = refl

take_split : (m n : ℕ) (xs : Bytes) → take m xs ++ take n (drop m xs) ≡ take (m + n) xs
take_split zero n xs = let e : n ≡ 0 + n = omega arith in ap (λ (k : ℕ). take k xs) e
take_split (suc m) n [] = take-nil n ∙ sym (take-nil (suc m + n))
take_split (suc m) n (x ∷ xs) =
    let e : suc (m + n) ≡ suc m + n = omega arith in
    ap (λ t. x ∷ t) (take_split m n xs) ∙ ap (λ (k : ℕ). take k (x ∷ xs)) e

-- `m` bytes and then `n` more.
abbrev pub read_pieces : ℕ → ℕ → Reader Bytes
read_pieces m n = do xs ← read m; ys ← read n; pure (xs ++ ys)

same_read :
    (r : BufferReader) {bs cs : Bytes} {k l : ℕ}
    → bs ≡ cs
    → k ≡ l
    → ◌≡◌ {A = Result Bytes × BufferReader}
        (ok bs, record r { offset = k })
        (ok cs, record r { offset = l })
same_read r p q = cc

-- Reading in two pieces is reading at once: where the bytes are there, both return the bytes at the
-- cursor, in order, and move past them; where they are not, both raise, and the read of all of them
-- leaves the cursor.
pub read_pieces-read :
    (m n : ℕ) (r : BufferReader)
    → ((r.offset + (m + n) ≤ length r.buffer)
        × (read_pieces m n r ≡ read (m + n) r)
        × (read (m + n) r ≡ (ok (take (m + n) (rest_of r)), skip (m + n) r)))
      ⊎ ((length r.buffer < r.offset + (m + n))
          × ((read_pieces m n r).0 ≡ err codec_error)
          × (read (m + n) r ≡ (err codec_error, r)))
unfolding read
read_pieces-read m n r = elim (Bool-cases (ltb (length r.buffer) (r.offset + (m + n)))) [
  | inl short ↦ inr (ltb→lt _ _ short, second_short short, rw short refl)
  | inr room ↦
      let fits = ltb_false→le _ _ room in
      let first = ltb_ge (length r.buffer) (r.offset + m) (omega (arith, fits)) in
      let then_n = ltb_ge (length r.buffer) (r.offset + m + n) (omega (arith, fits)) in
      inl (
        fits,
        rw (first, then_n, room)
            (same_read r
              (ap (λ t. take m (rest_of r) ++ take n t)
                  (sym (drop-drop_eq r.offset m (r.offset + m) r.buffer refl))
                ∙ take_split m n (rest_of r))
              (omega arith)),
        rw room refl,
      )
]
  where
    second_short :
        ltb (length r.buffer) (r.offset + (m + n)) ≡ true → (read_pieces m n r).0 ≡ err codec_error
    second_short short = elim (Bool-cases (ltb (length r.buffer) (r.offset + m))) [
      | inl e ↦ rw e refl
      | inr e ↦
          let s : ltb (length r.buffer) (r.offset + m + n) ≡ true =
            lt→ltb _ _ (omega (arith, ltb→lt _ _ short)) in
          rw (e, s) refl
    ]
