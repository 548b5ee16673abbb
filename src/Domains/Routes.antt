-- ===== src/Domains/Routes.antt =====
-- domains/_routes.py: the shapes of routes and of selectors. 42 is `*` and 47 is `/`.
pub mod Shapes
use fitz_py.Prelude.{
  ℕ, suc, ◌+◌, Bool, true, false, not, ◌&&◌, ◌||◌, ◌++◌, [], ◌∷◌, List, ltb, ◌==◌, if◌then◌else◌,
  Option, none, some, length, drop, any, all, is_empty,
}
use fitz_py.Text.{Str, codes, str_eq, startswith, contains, split}

unfoldable pub has_star : Str → Bool
has_star = contains 42

unfoldable pub is_star : Str → Bool
is_star part = str_eq part (42 ∷ [])

unfoldable pub is_double_star : Str → Bool
is_double_star part = str_eq part (42 ∷ 42 ∷ [])

-- `parts[-1] == "**"`
unfoldable pub ends_double : List Str → Bool
ends_double [] = false
ends_double (part ∷ []) = is_double_star part
ends_double (part ∷ next ∷ parts) = ends_double (next ∷ parts)

abbrev pub mixed : Str → Bool
mixed part = has_star part && not (is_star part || is_double_star part)

unfoldable pub checked_parts : Bool → List Str → Option (List Str)
checked_parts interior parts =
    if is_empty parts || any is_empty parts
    then none
    else if any mixed parts
    then none
    else if not interior && (any is_double_star parts && not (ends_double parts))
    then none
    else some parts

-- `_parts`
unfoldable pub parts_of : Str → Str → Bool → Option (List Str)
parts_of route scheme interior =
    let prefix = scheme ++ codes "://" in
    if not (startswith route prefix)
    then none
    else checked_parts interior (split 47 (drop (length prefix) route))

abbrev pub plain : Str → Bool
plain part = not (has_star part)

abbrev pub exact_parts : ℕ → Option (List Str) → Bool
exact_parts segments none = false
exact_parts segments (some parts) = (length parts == segments) && all plain parts

unfoldable pub is_exact_route_shape : Str → Str → ℕ → Bool
is_exact_route_shape route scheme segments = exact_parts segments (parts_of route scheme false)

abbrev concrete_parts : Option (List Str) → Bool
concrete_parts none = false
concrete_parts (some parts) = all plain parts

unfoldable pub is_concrete_route_shape : Str → Str → Bool
is_concrete_route_shape route scheme = concrete_parts (parts_of route scheme false)

-- Two `**` stand next to each other.
unfoldable pub adjacent : List Str → Bool
adjacent [] = false
adjacent (part ∷ []) = false
adjacent (part ∷ next ∷ parts) =
    (is_double_star part && is_double_star next) || adjacent (next ∷ parts)

-- The number of segments that are not `**`.
unfoldable pub fixed : List Str → ℕ
fixed [] = 0
fixed (part ∷ parts) = if is_double_star part then fixed parts else suc (fixed parts)

-- A test of `parts[0]`; the list is not empty.
abbrev pub first : (Str → Bool) → List Str → Bool
first test [] = false
first test (part ∷ parts) = test part

unfoldable pub interior_shape : ℕ → Bool → List Str → Bool
interior_shape segments realm parts =
    if adjacent parts
    then false
    else if ltb segments (fixed parts)
        || (not (any is_double_star parts) && not (fixed parts == segments))
    then false
    else not (first (λ p. is_star p || is_double_star p) parts && not realm)

unfoldable pub trailing_shape : ℕ → Bool → List Str → Bool
trailing_shape segments realm parts =
    if (length parts == 1) && first is_double_star parts
    then realm
    else if (length parts == 2) && ends_double parts
    then not (first is_star parts) || realm
    else if not (length parts == segments) || any is_double_star parts
    then false
    else not (first is_star parts && not realm)

abbrev pub selector_parts : ℕ → Bool → Bool → Option (List Str) → Bool
selector_parts segments realm interior none = false
selector_parts segments realm interior (some parts) =
    if interior then interior_shape segments realm parts else trailing_shape segments realm parts

unfoldable pub is_selector_route_shape : Str → Str → ℕ → Bool → Bool → Bool
is_selector_route_shape route scheme segments realm interior =
    selector_parts segments realm interior (parts_of route scheme interior)
