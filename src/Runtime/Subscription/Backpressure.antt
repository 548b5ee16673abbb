-- ===== src/Runtime/Subscription/Backpressure.antt =====
-- A consumer gets every item in order, or is told that it fell behind.
use fitz_py.Prelude.{
  ℕ, suc, ◌+◌, ◌≤◌, ◌<◌, ◌≡◌, inl, inr, refl, Bool, true, false, ◌++◌, [], ◌∷◌, List, leb,
  if◌then◌else◌, length, map, arith, length-append, Bool-cases, lt→ltb, le→leb,
}
use mathlib.Core.List.{append-nil, append_assoc}
use fitz_py.Errors.{subscription_backpressure}
use fitz_py.Runtime.Subscription.{Slot, item, failure, new_subscription, full, fail, push, pushes}

module _ {T : Type 0} where
  pushes_closed :
      (xs : List T) (c : ℕ) (q : List (Slot T)) (w : Bool)
      → pushes xs (record { capacity = c; queue = q; closed = true; wire_closed = w })
        ≡ record { capacity = c; queue = q; closed = true; wire_closed = w }
  unfolding pushes push
  pushes_closed [] c q w = refl
  pushes_closed (x ∷ xs) c q w = pushes_closed xs c q w

  pushes_open :
      (c : ℕ) (xs : List T) (ys : List (Slot T)) (w : Bool)
      → 0 < c
      → length ys ≤ c
      → pushes xs (record { capacity = c; queue = ys; closed = false; wire_closed = w }) ≡ (
          if leb (length ys + length xs) c
          then record { capacity = c; queue = ys ++ map item xs; closed = false; wire_closed = w }
          else record {
            capacity = c;
            queue = failure subscription_backpressure ∷ [];
            closed = true;
            wire_closed = w;
          })
  unfolding pushes push full fail
  pushes_open c [] ys w hc h = rw (le→leb (length ys + 0) c (omega arith), append-nil ys) refl
  pushes_open c (x ∷ xs) ys w hc h = elim (Bool-cases (leb c (length ys))) [
    | inl over ↦
        let no : leb (length ys + length (x ∷ xs)) c ≡ false = ground arith in
        rw (lt→ltb 0 c hc, over, no) (pushes_closed xs c _ w)
    | inr room ↦
        let rest =
          pushes_open c xs (ys ++ (item x ∷ [])) w hc
            (ground (arith, length-append ys (item x ∷ []))) in
        let l : length (ys ++ (item x ∷ [])) + length xs ≡ length ys + suc (length xs) =
          omega (arith, length-append ys (item x ∷ [])) in
        rw (room, lt→ltb 0 c hc) (rw (l, append_assoc ys (item x ∷ []) (map item xs)) at rest)
  ]

  -- Of the items pushed to a new subscription of capacity `c`, all stand in its queue in order when
  -- there are at most `c`; when there are more, none does, and the consumer is told of the
  -- backpressure and closed.
  pub pushes-new_subscription :
      (c : ℕ) (xs : List T)
      → 0 < c
      → pushes xs (new_subscription c) ≡ (
          if leb (length xs) c
          then record { capacity = c; queue = map item xs; closed = false; wire_closed = false }
          else record {
            capacity = c;
            queue = failure subscription_backpressure ∷ [];
            closed = true;
            wire_closed = false;
          })
  unfolding new_subscription
  pushes-new_subscription c xs hc =
      let z : length {A = Slot T} [] + length xs ≡ length xs = omega arith in
      rw⁻¹ z (pushes_open c xs [] false hc (omega arith))
