-- ===== src/Text.antt =====
-- Python's `str`: a list of code points, with the operations that the library calls on texts.
pub mod Utf8
use Prim.Native.Char.{code}
use Prim.Native.String
use fitz_py.Prelude.{
  ℕ, String, Bool, true, false, ◌&&◌, ◌||◌, List, [], ◌∷◌, ◌==◌, if◌then◌else◌, not, ◌≡◌, ◌↔◌,
  ==_iff, arith,
}
use fitz_py.Prelude.Dict.{Key}

abbrev pub Str : Type 0
Str = List ℕ

-- A literal of the source.
abbrev pub codes : String → Str
codes String.[] = []
codes (String.◌∷◌ c s) = code c ∷ codes s

-- `a == b` on texts.
unfoldable pub str_eq : Str → Str → Bool
str_eq [] [] = true
str_eq [] (y ∷ ys) = false
str_eq (x ∷ xs) [] = false
str_eq (x ∷ xs) (y ∷ ys) = x == y && str_eq xs ys

-- `text.startswith(prefix)`
unfoldable pub startswith : Str → Str → Bool
startswith text [] = true
startswith [] (p ∷ ps) = false
startswith (x ∷ xs) (p ∷ ps) = x == p && startswith xs ps

-- `chr(c) in text`
unfoldable pub contains : ℕ → Str → Bool
contains c [] = false
contains c (x ∷ xs) = x == c || contains c xs

-- `text.split(chr(c))`: `current` is the reversal-free prefix read so far.
cons_head : ℕ → List Str → List Str
cons_head x [] = (x ∷ []) ∷ []
cons_head x (part ∷ parts) = (x ∷ part) ∷ parts

unfoldable pub split : ℕ → Str → List Str
unfolding cons_head
split c [] = [] ∷ []
split c (x ∷ xs) = let rest = split c xs in if x == c then [] ∷ rest else cons_head x rest

pub str_eq_iff : (a b : Str) → (str_eq a b ≡ true) ↔ (a ≡ b)
unfolding str_eq
str_eq_iff [] [] = ground arith
str_eq_iff [] (y ∷ ys) = ground arith
str_eq_iff (x ∷ xs) [] = ground arith
str_eq_iff (x ∷ xs) (y ∷ ys) = ground (arith, ==_iff x y, str_eq_iff xs ys)

instance abbrev pub str_key : Key Str
str_key = record { beq = str_eq; beq_iff = str_eq_iff }
