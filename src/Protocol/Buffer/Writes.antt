-- ===== src/Protocol/Buffer/Writes.antt =====
-- A writer refines a byte string that only grows at its end.
use fitz_py.Prelude.{
  ℕ, ◌+◌, ◌-◌, max, ◌^◌, ◌≤◌, ◌<◌, ◌≡◌, refl, sym, ap, ◌∙◌, ◌++◌, [], some, arith, length,
  length-append, lt→ltb, ltb_ge, take, drop, replicate, length-take, length-replicate, take_eq,
  take_within,
}
use fitz_py.Prelude.Bytes.{Bytes, to_bytes, length-to_bytes}
use mathlib.Core.List.{append-nil, append_assoc}
use fitz_py.Errors.{ok, err, struct_error}
use fitz_py.Exec.{pure, ◌>>=◌, ◌>>◌}
use fitz_py.Text.{Str}
use fitz_py.Text.Utf8.{encode_utf8}
use fitz_py.Protocol.Buffer.{
  BufferWriter, Writer, new_writer, reserve, grow, splice, pack_into, write_u32_be, write_uint,
  write_bytes, write_string, build, written, encoded,
}

abbrev pub Fits : BufferWriter → Type 0
Fits w = w.offset ≤ length w.buffer

-- `m` returns and appends `xs` to what the writer builds.
pub record Writes (m : Writer Unit) (xs : Bytes) : Type 0 where
  pub returns : (w : BufferWriter) → Fits w → (m w).0 ≡ ok tt
  pub appends : (w : BufferWriter) → Fits w → build (m w).1 ≡ build w ++ xs
  pub fits : (w : BufferWriter) → Fits w → Fits (m w).1

-- Growing makes the room and moves nothing.
grow_lem :
    (end off : ℕ) (buf : Bytes)
    → off ≤ length buf
    → (take off (grow end buf) ≡ take off buf) × (end ≤ length (grow end buf))
unfolding grow
grow_lem end off buf h =
    let z : Bytes = replicate (max (end - length buf) (length buf)) 0 in
    ground (
      arith,
      take_within off buf z h,
      length-append buf z,
      length-replicate {A = ℕ} (max (end - length buf) (length buf)) 0,
    )

-- Replacing `length bs` bytes at `start` leaves `bs` behind what stood before.
splice_lem :
    (start : ℕ) (bs buf : Bytes) (k : ℕ)
    → start + length bs ≡ k
    → k ≤ length buf
    → (take k (take start buf ++ (bs ++ drop k buf)) ≡ take start buf ++ bs)
      × (k ≤ length (take start buf ++ (bs ++ drop k buf)))
splice_lem start bs buf k e h =
    let front : length (take start buf ++ bs) ≡ k =
      omega (arith, length-append (take start buf) bs, length-take start buf) in
    let whole = append_assoc (take start buf) bs (drop k buf) in
    (
      rw (← whole) (take_eq k (take start buf ++ bs) (drop k buf) front),
      rw (← whole) (omega (arith, length-append (take start buf ++ bs) (drop k buf))),
    )

abbrev put : ℕ → Bytes → Writer Unit
put n bs = do start ← reserve n; splice start bs

put-Writes : (n : ℕ) (bs : Bytes) → length bs ≡ n → Writes (put n bs) bs
unfolding reserve splice build
put-Writes n bs e = record {
  returns = λ w h. refl;
  appends = λ w h. (put_at w h).0;
  fits = λ w h. (put_at w h).1;
}
  where
    put_at :
        (w : BufferWriter) → Fits w → (build (put n bs w).1 ≡ build w ++ bs) × Fits (put n bs w).1
    put_at w h =
        let g = grow_lem (w.offset + n) w.offset w.buffer h in
        let s =
          splice_lem w.offset bs (grow (w.offset + n) w.buffer) (w.offset + n) (omega arith) g.1 in
        rw e (s.0 ∙ ap (λ t. t ++ bs) g.0, s.1)

pub Writes-then :
    {m k : Writer Unit} {xs ys : Bytes} → Writes m xs → Writes k ys → Writes (m >> k) (xs ++ ys)
Writes-then {m} {k} {xs} {ys} a b = record {
  returns = λ w h. rw (a.returns w h) (b.returns (m w).1 (a.fits w h));
  appends = λ w h. rw (a.returns w h) (
      b.appends (m w).1 (a.fits w h)
      ∙ ap (λ t. t ++ ys) (a.appends w h)
      ∙ append_assoc (build w) xs ys);
  fits = λ w h. rw (a.returns w h) (b.fits (m w).1 (a.fits w h));
}

pub Writes-nothing : Writes (pure tt) []
Writes-nothing = record {
  returns = λ w h. refl;
  appends = λ w h. sym (append-nil (build w));
  fits = λ w h. h;
}

pub Writes-uint : (n v : ℕ) → v < 256 ^ n → Writes (write_uint n v) (to_bytes n v)
unfolding write_uint pack_into
Writes-uint n v h = rw (lt→ltb v (256 ^ n) h) (put-Writes n (to_bytes n v) (length-to_bytes n v))

pub Writes-bytes : (bs : Bytes) → Writes (write_bytes bs) bs
unfolding write_bytes
Writes-bytes bs = put-Writes (length bs) bs refl

-- The wire form of a text: its length in four bytes, and its UTF-8 bytes.
abbrev pub string_bytes : Bytes → Bytes
string_bytes bs = to_bytes 4 (length bs) ++ bs

pub Writes-string :
    (text : Str) (bs : Bytes)
    → encode_utf8 text ≡ some bs
    → length bs < 2 ^ 32
    → Writes (write_string text) (string_bytes bs)
unfolding write_string write_u32_be
Writes-string text bs e h =
    rw (e, encoded) (Writes-then (Writes-uint 4 (length bs) (omega arith)) (Writes-bytes bs))

-- A fresh writer builds what was written, whatever the buffer had to grow by.
pub written-Writes : (m : Writer Unit) (xs : Bytes) → Writes m xs → written m ≡ ok xs
unfolding new_writer
written-Writes m xs h =
    let z : Fits (new_writer 128) = omega arith in
    rw (h.returns (new_writer 128) z) (ap ok (h.appends (new_writer 128) z ∙ unfold build in refl))

-- An integer that does not fit its field raises `struct.error`.
pub write_uint_overflow :
    (n v : ℕ) (w : BufferWriter) → 256 ^ n ≤ v → (write_uint n v w).0 ≡ err struct_error
unfolding write_uint pack_into reserve
write_uint_overflow n v w h = rw (ltb_ge v (256 ^ n) h)
