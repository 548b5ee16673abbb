-- ===== src/Protocol/Buffer/Progress.antt =====
-- A reader never moves past the end of its buffer, and what it consumed is gone: the measure of the
-- loops that read until a mark.
use fitz_py.Prelude.{
  ℕ, ◌+◌, ◌-◌, ◌≤◌, ◌≢◌, Bool, true, false, if◌then◌else◌, Option, none, some, length, arith,
}
use fitz_py.Prelude.Bytes.{from_bytes}
use fitz_py.Errors.{Error, Result, ok, err, unicode_error, diverged}
use fitz_py.Exec.{pure, raise, continue, ◌>>=◌}
use fitz_py.Text.{Str}
use fitz_py.Text.Utf8.{decode_utf8}
use fitz_py.Protocol.Buffer.{
  BufferReader, Reader, read, read_uint, read_u8, read_u32_be, read_u64_be, read_bytes, read_string,
  decoded, is_eof, remaining_bytes,
}

abbrev pub left : BufferReader → ℕ
left r = length r.buffer - r.offset

abbrev pub gain {ℓ} : {A : Type ℓ} → Result A → ℕ → ℕ
gain (ok a) k = k
gain (err e) k = 0

-- `m` does not run out of fuel, gives nothing back to the buffer, and consumes `k` bytes at least
-- when it returns.
pub record Steady {A : Type 0} (k : ℕ) (m : Reader A) : Type 0 where
  pub sound : (r : BufferReader) → (m r).0 ≢ err diverged
  pub consumes : (r : BufferReader) → gain (m r).0 k + left (m r).1 ≤ left r

module _ {A : Type 0} where
  pub Steady-pure : (a : A) → Steady 0 (pure a)
  Steady-pure a = record { sound = λ r. cc; consumes = λ r. omega arith }

  pub Steady-raise : (e : Error) (k : ℕ) → e ≢ diverged → Steady {A = A} k (raise e)
  Steady-raise e k h = record { sound = λ r q. h (cc); consumes = λ r. omega arith }

  pub Steady-if :
      (b : Bool) (k : ℕ) (m n : Reader A) → Steady k m → Steady k n → Steady k (if b then m else n)
  Steady-if true k m n hm hn = hm
  Steady-if false k m n hm hn = hn

  gain-weaken : (x : Result A) (j k : ℕ) → j ≤ k → gain x j ≤ gain x k
  gain-weaken (ok a) j k h = h
  gain-weaken (err e) j k h = omega arith

  pub Steady-weaken : (j k : ℕ) (m : Reader A) → j ≤ k → Steady k m → Steady j m
  Steady-weaken j k m h s = record {
    sound = s.sound;
    consumes = λ r. omega (arith, s.consumes r, gain-weaken (m r).0 j k h);
  }

module _ {A B : Type 0} (j k : ℕ) (m : Reader A) (f : A → Reader B) where
  continue-ne :
      (x : Result A) (r : BufferReader)
      → x ≢ err diverged
      → ((a : A) → Steady k (f a))
      → (continue f (x, r)).0 ≢ err diverged
  continue-ne (ok a) r h s = (s a).sound r
  continue-ne (err e) r h s = λ q. h (cc)

  continue-gain :
      (x : Result A) (r : BufferReader) (n : ℕ)
      → gain x j + left r ≤ n
      → ((a : A) → Steady k (f a))
      → gain (continue f (x, r)).0 (j + k) + left (continue f (x, r)).1 ≤ n
  continue-gain (ok a) r n h s = split (f a r).0 (f a r).1 ((s a).consumes r)
    where
      split :
          (y : Result B) (t : BufferReader)
          → gain y k + left t ≤ left r
          → gain y (j + k) + left t ≤ n
      split (ok b) t e = omega arith
      split (err e) t q = omega arith
  continue-gain (err e) r n h s = h

  pub Steady-bind : Steady j m → ((a : A) → Steady k (f a)) → Steady (j + k) (m >>= f)
  Steady-bind sm sf = record {
    sound = λ r. continue-ne (m r).0 (m r).1 (sm.sound r) sf;
    consumes = λ r. continue-gain (m r).0 (m r).1 (left r) (sm.consumes r) sf;
  }

pub Steady-read : (n : ℕ) → Steady n (read n)
unfolding read
Steady-read n = record { sound = λ r. ground arith; consumes = λ r. ground arith }

pub Steady-read_uint : (n : ℕ) → Steady n (read_uint n)
unfolding read_uint
Steady-read_uint n = Steady-weaken n (n + 0) (read_uint n) (omega arith) (
    Steady-bind n 0 (read n) (λ bs. pure (from_bytes bs)) (Steady-read n)
      (λ bs. Steady-pure (from_bytes bs)))

pub Steady-read_u8 : Steady 1 read_u8
unfolding read_u8
Steady-read_u8 = Steady-read_uint 1

-- From here on only the end of the buffer counts.
module _ {A B : Type 0} (m : Reader A) (f : A → Reader B) where
  pub Steady-then : Steady 0 m → ((a : A) → Steady 0 (f a)) → Steady 0 (m >>= f)
  Steady-then sm sf = Steady-bind 0 0 m f sm sf

pub Steady-uint : (n : ℕ) → Steady 0 (read_uint n)
Steady-uint n = Steady-weaken 0 n (read_uint n) (omega arith) (Steady-read_uint n)

pub Steady-u8 : Steady 0 read_u8
unfolding read_u8
Steady-u8 = Steady-uint 1

pub Steady-u32 : Steady 0 read_u32_be
unfolding read_u32_be
Steady-u32 = Steady-uint 4

pub Steady-u64 : Steady 0 read_u64_be
unfolding read_u64_be
Steady-u64 = Steady-uint 8

pub Steady-bytes : (n : ℕ) → Steady 0 (read_bytes n)
unfolding read_bytes
Steady-bytes n = Steady-weaken 0 n (read n) (omega arith) (Steady-read n)

Steady-decoded : (text : Option Str) → Steady 0 (decoded text)
Steady-decoded none = Steady-raise unicode_error 0 (λ q. cc)
Steady-decoded (some text) = Steady-pure text

pub Steady-string : Steady 0 read_string
unfolding read_string
Steady-string =
    Steady-then read_u32_be _ Steady-u32
      (λ n. Steady-then (read_bytes n) _ (Steady-bytes n) (λ bs. Steady-decoded (decode_utf8 bs)))

pub Steady-is_eof : Steady 0 is_eof
unfolding is_eof
Steady-is_eof = record { sound = λ r. cc; consumes = λ r. omega arith }

pub Steady-remaining_bytes : Steady 0 remaining_bytes
unfolding remaining_bytes
Steady-remaining_bytes = record { sound = λ r. cc; consumes = λ r. omega arith }

module _ {A B : Type 0} (k : ℕ) (m : Reader A) (f : A → Reader B) where
  continue_bounded :
      (x : Result A) (t : BufferReader) (n : ℕ)
      → x ≢ err diverged
      → gain x k + left t ≤ n
      → ((a : A) (u : BufferReader) → k + left u ≤ n → (f a u).0 ≢ err diverged)
      → (continue f (x, t)).0 ≢ err diverged
  continue_bounded (ok a) t n h l next = next a t l
  continue_bounded (err e) t n h l next = λ q. h (cc)

  -- What follows `m` starts with `k` bytes less.
  pub bind_bounded :
      (r : BufferReader)
      → Steady k m
      → ((a : A) (u : BufferReader) → k + left u ≤ left r → (f a u).0 ≢ err diverged)
      → ((m >>= f) r).0 ≢ err diverged
  bind_bounded r s next = continue_bounded (m r).0 (m r).1 (left r) (s.sound r) (s.consumes r) next
