-- ===== src/Domains/Rpc.antt =====
-- domains/rpc.py: the checks of routes, and the choice of a worker. 42 is `*` and 47 is `/`.
pub mod Frames
pub mod Best
pub mod Payloads
pub mod Sender
pub mod Calls
pub mod Invocations
use fitz_py.Prelude.{
  ℕ, String, ◌+◌, Bool, true, false, not, ◌&&◌, ◌||◌, [], ◌∷◌, List, ltb, ◌==◌, if◌then◌else◌, bit,
  Option, none, some, length, drop, any, is_empty,
}
use fitz_py.Prelude.Dict.{Dict}
use fitz_py.Errors.{Error, rpc, domain_error}
use fitz_py.Exec.{Exec, guard}
use fitz_py.Text.{Str, codes, str_eq, startswith, split}
use fitz_py.Domains.Routes.{has_star, is_star, is_double_star, ends_double, mixed}

-- `RPCError(message, reason)`
abbrev pub rpc_error : String → Error
rpc_error reason = domain_error rpc reason none none none

-- `route[6:].split("/")`
abbrev pub parts : Str → List Str
parts route = split 47 (drop 6 route)

abbrev valid_parts : Bool → List Str → Bool
valid_parts patterns ps =
    not (is_empty ps || any is_empty ps)
    && (not (not patterns && any has_star ps)
        && (not (any mixed ps) && not (any is_double_star ps && not (ends_double ps))))

-- `_route`
unfoldable pub check_route : {S : Type 0} → Bool → Str → Exec S Unit
check_route patterns route =
    guard (startswith route (codes "rpc://") && valid_parts patterns (parts route))
      (rpc_error "INVALID_ROUTE")

unfoldable pub matches_parts : List Str → List Str → Bool
matches_parts rs [] = is_empty rs
matches_parts [] (p ∷ ps) = is_double_star p
matches_parts (r ∷ rs) (p ∷ ps) =
    let rest = matches_parts rs ps in
    if is_double_star p then true else ((is_star p || str_eq p r) && rest)

-- `_matches`
unfoldable pub matches : Str → Str → Bool
matches route pattern = matches_parts (parts route) (parts pattern)

abbrev pub count : (Str → Bool) → List Str → ℕ
count p [] = 0
count p (x ∷ xs) = bit (p x) + count p xs

-- `_specificity`, whose last two numbers the source negates.
pub record Specificity : Type 0 where
  pub plain : ℕ
  pub size : ℕ
  pub doubles : ℕ
  pub stars : ℕ

unfoldable pub specificity : Str → Specificity
specificity pattern = record {
  plain = count (λ p. not (is_star p || is_double_star p)) (parts pattern);
  size = length (parts pattern);
  doubles = count is_double_star (parts pattern);
  stars = count is_star (parts pattern);
}

-- The order of the tuples.
unfoldable pub exceeds : Specificity → Specificity → Bool
exceeds a b =
    ltb b.plain a.plain
    || ((a.plain == b.plain)
        && (ltb b.size a.size
            || ((a.size == b.size)
                && (ltb a.doubles b.doubles || ((a.doubles == b.doubles) && ltb a.stars b.stars)))))

module _ {W : Type 0} where
  -- `max(matches, key=...)`, the first of the greatest.
  unfoldable pub best_of : Str × W → Dict Str W → Str × W
  best_of best [] = best
  best_of best (w ∷ ws) =
      best_of (if exceeds (specificity w.0) (specificity best.0) then w else best) ws

  abbrev pub matching : Str → Dict Str W → Dict Str W
  matching route [] = []
  matching route (w ∷ ws) =
      let rest = matching route ws in if matches route w.0 then w ∷ rest else rest

  abbrev pub first_best : Dict Str W → Option (Str × W)
  first_best [] = none
  first_best (w ∷ ws) = some (best_of w ws)

  -- `_best_worker`, with the pattern of the worker that it takes.
  unfoldable pub best_worker : Str → Dict Str W → Option (Str × W)
  best_worker route workers = first_best (matching route workers)
