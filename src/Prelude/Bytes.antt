-- ===== src/Prelude/Bytes.antt =====
-- Python's `int.to_bytes(n, "big")` and `int.from_bytes(data, "big")`: a byte string is a list of
-- numbers below 256.
use Prim.Native.Nat.{ℕ, zero, suc, ◌+◌, ◌*◌, ◌/◌, ◌%◌, ◌^◌, ◌<◌}
use mathlib.Core.Path.{◌≡◌, refl, ap, ◌∙◌}
use mathlib.Core.List.{List, [], ◌∷◌, ◌++◌}
use native.Mathlib.Omega.{arith}
use native.Mathlib.Nat.{pow-suc}
use fitz_py.Prelude.Lists.{length, length-append, All, All-append}

abbrev pub Bytes : Type 0
Bytes = List ℕ

abbrev pub IsByte : ℕ → Type 0
IsByte b = b < 256

unfoldable pub to_bytes : ℕ → ℕ → Bytes
to_bytes zero v = []
to_bytes (suc n) v = to_bytes n (v / 256) ++ (v % 256 ∷ [])

unfoldable pub from_bytes_loop : ℕ → Bytes → ℕ
from_bytes_loop acc [] = acc
from_bytes_loop acc (b ∷ bs) = from_bytes_loop (acc * 256 + b) bs

unfoldable pub from_bytes : Bytes → ℕ
unfolding from_bytes_loop
from_bytes bs = from_bytes_loop 0 bs

pub length-to_bytes : (n v : ℕ) → length (to_bytes n v) ≡ n
unfolding to_bytes
length-to_bytes zero v = refl
length-to_bytes (suc n) v =
    length-append (to_bytes n (v / 256)) (v % 256 ∷ []) ∙ omega (arith, length-to_bytes n (v / 256))

pub to_bytes-IsByte : (n v : ℕ) → All IsByte (to_bytes n v)
unfolding to_bytes
to_bytes-IsByte zero v = tt
to_bytes-IsByte (suc n) v =
    All-append IsByte (to_bytes n (v / 256)) (v % 256 ∷ []) (to_bytes-IsByte n (v / 256))
      (omega arith)

from_bytes_loop-append :
    (acc : ℕ) (xs ys : Bytes)
    → from_bytes_loop acc (xs ++ ys) ≡ from_bytes_loop (from_bytes_loop acc xs) ys
unfolding from_bytes_loop
from_bytes_loop-append acc [] ys = refl
from_bytes_loop-append acc (x ∷ xs) ys = from_bytes_loop-append (acc * 256 + x) xs ys

from_bytes_loop-to_bytes :
    (n acc v : ℕ) → v < 256 ^ n → from_bytes_loop acc (to_bytes n v) ≡ acc * 256 ^ n + v
unfolding from_bytes_loop to_bytes
from_bytes_loop-to_bytes zero acc v h = omega arith
from_bytes_loop-to_bytes (suc n) acc v h =
    from_bytes_loop-append acc (to_bytes n (v / 256)) (v % 256 ∷ [])
    ∙ omega (
      arith,
      from_bytes_loop-to_bytes n acc (v / 256) (omega (arith, pow-suc 256 n)),
      ap (λ (t : ℕ). acc * t) (pow-suc 256 n),
    )

-- A number that fits is read back.
pub from_bytes-to_bytes : (n v : ℕ) → v < 256 ^ n → from_bytes (to_bytes n v) ≡ v
unfolding from_bytes
from_bytes-to_bytes n v h = from_bytes_loop-to_bytes n 0 v h ∙ omega arith
