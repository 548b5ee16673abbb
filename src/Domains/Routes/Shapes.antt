-- ===== src/Domains/Routes/Shapes.antt =====
-- An exact route is a selector.
use fitz_py.Prelude.{
  ℕ, Bool, true, false, not, ◌&&◌, ◌||◌, [], ◌∷◌, List, if◌then◌else◌, none, some, length, any, all,
  ◌≡◌, refl, arith, ==_iff,
}
use fitz_py.Text.{Str, str_eq, contains}
use fitz_py.Domains.Routes.{
  has_star, is_star, is_double_star, ends_double, checked_parts, parts_of, plain, exact_parts,
  is_exact_route_shape, adjacent, fixed, first, interior_shape, trailing_shape, selector_parts,
  is_selector_route_shape,
}

plain-is_star : (part : Str) → plain part ≡ true → is_star part ≡ false
unfolding has_star is_star contains str_eq
plain-is_star [] h = refl
plain-is_star (x ∷ xs) h = ground arith

plain-is_double_star : (part : Str) → plain part ≡ true → is_double_star part ≡ false
unfolding has_star is_double_star contains str_eq
plain-is_double_star [] h = refl
plain-is_double_star (x ∷ xs) h = ground arith

any-is_double_star : (parts : List Str) → all plain parts ≡ true → any is_double_star parts ≡ false
any-is_double_star [] h = refl
any-is_double_star (part ∷ parts) h =
    ground (arith, plain-is_double_star part, any-is_double_star parts)

fixed-plain : (parts : List Str) → all plain parts ≡ true → fixed parts ≡ length parts
unfolding fixed
fixed-plain [] h = refl
fixed-plain (part ∷ parts) h = ground (arith, plain-is_double_star part, fixed-plain parts)

adjacent-plain : (parts : List Str) → all plain parts ≡ true → adjacent parts ≡ false
unfolding adjacent
adjacent-plain [] h = refl
adjacent-plain (part ∷ []) h = refl
adjacent-plain (part ∷ next ∷ parts) h =
    ground (arith, plain-is_double_star part, adjacent-plain (next ∷ parts))

ends_double-plain : (parts : List Str) → all plain parts ≡ true → ends_double parts ≡ false
unfolding ends_double
ends_double-plain [] h = refl
ends_double-plain (part ∷ []) h = ground (arith, plain-is_double_star part)
ends_double-plain (part ∷ next ∷ parts) h = ground (arith, ends_double-plain (next ∷ parts))

first-plain :
    (parts : List Str)
    → all plain parts ≡ true
    → (first is_star parts ≡ false)
      × (first is_double_star parts ≡ false)
      × (first (λ p. is_star p || is_double_star p) parts ≡ false)
first-plain [] h = (refl, refl, refl)
first-plain (part ∷ parts) h =
    let a = plain-is_star part (ground arith) in
    let b = plain-is_double_star part (ground arith) in (a, b, ground arith)

plain_parts :
    (a b c d : Bool) (parts : List Str) (n : ℕ)
    → (all plain parts ≡ true → d ≡ false)
    → exact_parts n (if a then none else if b then none else if c then none else some parts) ≡ true
    → ((if a then none else if b then none else if d then none else some parts) ≡ some parts)
      × (length parts ≡ n)
      × (all plain parts ≡ true)
plain_parts true b c d parts n hd h = cc
plain_parts false true c d parts n hd h = cc
plain_parts false false true d parts n hd h = cc
plain_parts false false false d parts n hd h =
    let e : all plain parts ≡ true = ground arith in
    let eq = (==_iff (length parts) n).0 in (rw (hd e) refl, eq (ground arith), e)

checked_parts-plain :
    (interior : Bool) (parts : List Str) (n : ℕ)
    → exact_parts n (checked_parts false parts) ≡ true
    → (checked_parts interior parts ≡ some parts) × (length parts ≡ n) × (all plain parts ≡ true)
unfolding checked_parts
checked_parts-plain interior parts n h =
    plain_parts _ _ _ (not interior && (any is_double_star parts && not (ends_double parts))) parts
      n (λ e. ground (arith, any-is_double_star parts e)) h

interior_shape-plain :
    (n : ℕ) (realm : Bool) (parts : List Str)
    → length parts ≡ n
    → all plain parts ≡ true
    → interior_shape n realm parts ≡ true
unfolding interior_shape
interior_shape-plain n realm parts e h = ground (
  arith,
  adjacent-plain parts h,
  fixed-plain parts h,
  any-is_double_star parts h,
  (first-plain parts h).2,
)

trailing_shape-plain :
    (n : ℕ) (realm : Bool) (parts : List Str)
    → length parts ≡ n
    → all plain parts ≡ true
    → trailing_shape n realm parts ≡ true
unfolding trailing_shape
trailing_shape-plain n realm parts e h = ground (
  arith,
  ends_double-plain parts h,
  any-is_double_star parts h,
  (first-plain parts h).0,
  (first-plain parts h).1,
)

selector_parts-plain :
    (n : ℕ) (realm interior : Bool) (parts : List Str)
    → length parts ≡ n
    → all plain parts ≡ true
    → selector_parts n realm interior (some parts) ≡ true
selector_parts-plain n realm true parts e h = interior_shape-plain n realm parts e h
selector_parts-plain n realm false parts e h = trailing_shape-plain n realm parts e h

exact_checked :
    (interior : Bool) (n : ℕ) (realm : Bool) (parts : List Str)
    → exact_parts n (checked_parts false parts) ≡ true
    → selector_parts n realm interior (checked_parts interior parts) ≡ true
exact_checked interior n realm parts h =
    let (e, l, p) = checked_parts-plain interior parts n h in
    rw e (selector_parts-plain n realm interior parts l p)

exact_started :
    (b interior : Bool) (n : ℕ) (realm : Bool) (parts : List Str)
    → exact_parts n (if not b then none else checked_parts false parts) ≡ true
    → selector_parts n realm interior (if not b then none else checked_parts interior parts) ≡ true
exact_started true interior n realm parts h = exact_checked interior n realm parts h
exact_started false interior n realm parts h = cc

-- A route of the exact shape is also a selector of the same depth, whichever of the two options of
-- the selector test are set.
pub selector-exact :
    (route scheme : Str) (n : ℕ) (realm interior : Bool)
    → is_exact_route_shape route scheme n ≡ true
    → is_selector_route_shape route scheme n realm interior ≡ true
unfolding is_exact_route_shape is_selector_route_shape parts_of
selector-exact route scheme n realm interior h = exact_started _ interior n realm _ h
