-- ===== src/Domains/Rpc/Best.antt =====
-- The worker that gets a request.
use fitz_py.Prelude.{
  ℕ, zero, suc, ◌≡◌, refl, sym, subst, true, false, [], ◌∷◌, Option, none, some, All, get_elem?,
  arith, inl, inr, Bool-cases,
}
use fitz_py.Prelude.Dict.{Dict}
use fitz_py.Text.{Str}
use fitz_py.Domains.Rpc.{
  Specificity, specificity, exceeds, best_of, matching, matches, first_best, best_worker,
}

exceeds_trans :
    (a b c : Specificity) → exceeds a b ≡ true → exceeds c b ≡ false → exceeds c a ≡ false
unfolding exceeds
exceeds_trans a b c h k = ground arith

exceeds_self : (a : Specificity) → exceeds a a ≡ false
unfolding exceeds
exceeds_self a = ground arith

module _ {W : Type 0} where
  -- No worker of the list is more specific.
  abbrev pub NoneBetter : Str × W → Dict Str W → Type 0
  NoneBetter w ws = All (λ v. exceeds (specificity v.0) (specificity w.0) ≡ false) ws

  best_of_keeps :
      (v best : Str × W) (ws : Dict Str W)
      → exceeds (specificity v.0) (specificity best.0) ≡ false
      → exceeds (specificity v.0) (specificity (best_of best ws).0) ≡ false
  unfolding best_of
  best_of_keeps v best [] h = h
  best_of_keeps v best (w ∷ ws) h =
      elim (Bool-cases (exceeds (specificity w.0) (specificity best.0))) [
        | inl e ↦
            rw (best_of, e)
              (best_of_keeps v w ws
                (exceeds_trans (specificity w.0) (specificity best.0) (specificity v.0) e h))
        | inr e ↦ rw (best_of, e) (best_of_keeps v best ws h)
      ]

  best_of-NoneBetter : (best : Str × W) (ws : Dict Str W) → NoneBetter (best_of best ws) (best ∷ ws)
  unfolding best_of
  best_of-NoneBetter best [] = (exceeds_self (specificity best.0), tt)
  best_of-NoneBetter best (w ∷ ws) =
      elim (Bool-cases (exceeds (specificity w.0) (specificity best.0))) [
        | inl e ↦
            let (first, rest) = best_of-NoneBetter w ws in
            let old =
              exceeds_trans (specificity w.0) (specificity best.0) (specificity best.0) e
                (exceeds_self (specificity best.0)) in
            let same : best_of best (w ∷ ws) ≡ best_of w ws = rw (best_of, e) refl in
            subst (λ b. NoneBetter b (best ∷ w ∷ ws)) (sym same)
              (best_of_keeps best w ws old, (first, rest))
        | inr e ↦
            let (first, rest) = best_of-NoneBetter best ws in
            let same : best_of best (w ∷ ws) ≡ best_of best ws = rw (best_of, e) refl in
            subst (λ b. NoneBetter b (best ∷ w ∷ ws)) (sym same)
              (first, (best_of_keeps w best ws e, rest))
      ]

  best_of-member :
      (best : Str × W) (ws : Dict Str W)
      → (i : ℕ) × (get_elem? (best ∷ ws) i ≡ some (best_of best ws))
  unfolding best_of
  best_of-member best [] = (0, refl)
  best_of-member best (w ∷ ws) =
      elim (Bool-cases (exceeds (specificity w.0) (specificity best.0))) [
        | inl e ↦ rw (best_of, e) (let (i, h) = best_of-member w ws in (suc i, h))
        | inr e ↦ rw (best_of, e) (later (best_of-member best ws))
      ]
    where
      later :
          {b : Str × W}
          → (i : ℕ) × (get_elem? (best ∷ ws) i ≡ some b)
          → (i : ℕ) × (get_elem? (best ∷ w ∷ ws) i ≡ some b)
      later (zero, h) = (0, h)
      later (suc i, h) = (suc (suc i), h)

  -- A worker of the list whose pattern matches.
  abbrev pub IsMatch : Str → Dict Str W → Str × W → Type 0
  IsMatch route ws w = (matches route w.0 ≡ true) × ((j : ℕ) × (get_elem? ws j ≡ some w))

  later-IsMatch :
      (route : Str) (v w : Str × W) (ws : Dict Str W)
      → IsMatch route ws w
      → IsMatch route (v ∷ ws) w
  later-IsMatch route v w ws (m, (j, k)) = (m, (suc j, k))

  found-IsMatch :
      (route : Str) (v w : Str × W) (ws : Dict Str W) (i : ℕ)
      → ((n : ℕ) → get_elem? (matching route ws) n ≡ some w → IsMatch route ws w)
      → matches route v.0 ≡ true
      → get_elem? (v ∷ matching route ws) i ≡ some w
      → IsMatch route (v ∷ ws) w
  found-IsMatch route v w ws zero again e k = let x : v ≡ w = cc in (rw (← x) e, (0, k))
  found-IsMatch route v w ws (suc n) again e k = later-IsMatch route v w ws (again n k)

  matching-member :
      (route : Str) (ws : Dict Str W) (i : ℕ) (w : Str × W)
      → get_elem? (matching route ws) i ≡ some w
      → IsMatch route ws w
  matching-member route [] i w h = cc
  matching-member route (v ∷ ws) i w h = elim (Bool-cases (matches route v.0)) [
    | inr e ↦ later-IsMatch route v w ws (matching-member route ws i w (rw e at h))
    | inl e ↦ found-IsMatch route v w ws i (λ n k. matching-member route ws n w k) e (rw e at h)
  ]

  -- What the choice of a worker comes to.
  abbrev pub IsChoice : Str → Dict Str W → Option (Str × W) → Type 0
  IsChoice route workers none = matching route workers ≡ []
  IsChoice route workers (some w) = IsMatch route workers w × NoneBetter w (matching route workers)

  first_best-IsChoice :
      (route : Str) (workers : Dict Str W) (ms : Dict Str W)
      → matching route workers ≡ ms
      → IsChoice route workers (first_best ms)
  first_best-IsChoice route workers [] e = e
  first_best-IsChoice route workers (m ∷ ms) e =
      let (i, h) = best_of-member m ms in
      (matching-member route workers i (best_of m ms) (rw e h), rw e (best_of-NoneBetter m ms))

  -- A request goes to a registered worker whose pattern matches its route, and no other worker
  -- whose pattern matches is more specific; there is no worker for it only if no pattern matches.
  pub best_worker-IsChoice :
      (route : Str) (workers : Dict Str W) → IsChoice route workers (best_worker route workers)
  unfolding best_worker
  best_worker-IsChoice route workers =
      first_best-IsChoice route workers (matching route workers) refl
