-- ===== src/Domains/Subscriptions/Early.antt =====
-- Notifications that come before the answer to the subscription they belong to.
use fitz_py.Prelude.{
  ℕ, zero, suc, ◌-◌, ◌<◌, ◌≤◌, ◌≡◌, refl, sym, ap, ◌∙◌, false, ◌++◌, [], ◌∷◌, List, le→leb, ltb,
  ltb→lt, ltb_false→le, none, length, length-append, length-drop, drop, drop-drop_eq, map, arith,
  Bool-cases, inl, inr,
}
use fitz_py.Prelude.Dict.{get, nat_key}
use mathlib.Core.List.{append-nil, append_assoc}
use fitz_py.Errors.{ok}
use fitz_py.Text.{Str, str_key}
use fitz_py.Runtime.Subscription.{AsyncSubscription, item, new_subscription, push, pushes}
use fitz_py.Runtime.Subscription.Backpressure.{pushes-new_subscription}
use fitz_py.Domains.Subscriptions.{
  SubscriptionRegistry, update, push_all, push_each, flush_pending, join, enter, entered,
  joined_or_entered, subscribe, of_id, append_bounded, publish, routed,
}

-- Notifications that come one after the other.
unfoldable pub publish_each :
    {T : Type 0} → List (ℕ × T) → SubscriptionRegistry T → SubscriptionRegistry T
publish_each [] r = r
publish_each ((id, x) ∷ ps) r = publish_each ps (publish id x r)

-- The last `n` of a list.
abbrev pub last_of : {A : Type 0} → ℕ → List A → List A
last_of n xs = drop (length xs - n) xs

-- The ids are not known to the registry.
abbrev pub AreUnknown : {T : Type 0} → List (ℕ × T) → SubscriptionRegistry T → Type 0
AreUnknown [] r = Unit {0}
AreUnknown ((id, x) ∷ ps) r = (get id r.by_id ≡ none) × AreUnknown ps r

module _ {T : Type 0} where
  update_last :
      (heap : List (AsyncSubscription T)) (s : AsyncSubscription T)
      (f : AsyncSubscription T → AsyncSubscription T)
      → update (length heap) f (heap ++ (s ∷ [])) ≡ heap ++ (f s ∷ [])
  unfolding update
  update_last [] s f = refl
  update_last (h ∷ heap) s f = ap (λ t. h ∷ t) (update_last heap s f)

  push_each_last :
      (xs : List T) (heap : List (AsyncSubscription T)) (s : AsyncSubscription T)
      → push_each (length heap ∷ []) xs (heap ++ (s ∷ [])) ≡ heap ++ (pushes xs s ∷ [])
  unfolding push_each push_all pushes
  push_each_last [] heap s = refl
  push_each_last (x ∷ xs) heap s =
      ap (push_each (length heap ∷ []) xs) (update_last heap s (λ t. (push x t).1))
      ∙ push_each_last xs heap (push x s).1

  drop_before : (k : ℕ) (xs ys : List (ℕ × T)) → k ≤ length xs → drop k xs ++ ys ≡ drop k (xs ++ ys)
  drop_before zero xs ys h = refl
  drop_before (suc k) [] ys h = absurd (omega arith)
  drop_before (suc k) (x ∷ xs) ys h = drop_before k xs ys (omega arith)

  drop_same : (k l : ℕ) (xs : List (ℕ × T)) → k ≡ l → drop k xs ≡ drop l xs
  drop_same k l xs e = ap (λ (n : ℕ). drop n xs) e

  -- A full deque lets its oldest entry go.
  append_bounded-last_of :
      (c : ℕ) (x : ℕ × T) (xs : List (ℕ × T))
      → append_bounded c x (last_of c xs) ≡ last_of c (xs ++ (x ∷ []))
  unfolding append_bounded
  append_bounded-last_of c x xs =
      let n = length-append xs (x ∷ []) in
      let d = length-drop (length xs - c) xs in
      elim (Bool-cases (ltb (length (last_of c xs)) c)) [
        | inl e ↦
            let h = ltb→lt _ _ e in
            rw e (
              drop_before (length xs - c) xs (x ∷ []) (omega arith)
              ∙ drop_same _ _ (xs ++ (x ∷ [])) (omega (arith, h, n, d)))
        | inr e ↦
            let h = ltb_false→le _ _ e in
            rw e (
              ap (drop 1) (drop_before (length xs - c) xs (x ∷ []) (omega arith))
              ∙ drop-drop_eq (length xs - c) 1 (length (xs ++ (x ∷ [])) - c) (xs ++ (x ∷ []))
                  (omega (arith, h, n, d)))
      ]

  publish_each-unknown :
      (ps seen : List (ℕ × T)) (r : SubscriptionRegistry T)
      → AreUnknown ps r
      → publish_each ps (record r { pending = last_of r.capacity seen })
        ≡ record r { pending = last_of r.capacity (seen ++ ps) }
  unfolding publish_each publish routed
  publish_each-unknown [] seen r h =
      ap (λ l. record r { pending = last_of r.capacity l }) (sym (append-nil seen))
  publish_each-unknown ((id, x) ∷ ps) seen r h = rw h.0 (
      ap (λ l. publish_each ps (record r { pending = l }))
        (append_bounded-last_of r.capacity (id, x) seen)
      ∙ publish_each-unknown ps (seen ++ ((id, x) ∷ [])) r h.1
      ∙ ap (λ l. record r { pending = last_of r.capacity l }) (append_assoc seen ((id, x) ∷ []) ps))

  last_of-fits : (c : ℕ) (xs : List (ℕ × T)) → length xs ≤ c → last_of c xs ≡ xs
  last_of-fits c xs h = drop_same (length xs - c) 0 xs (omega arith)

  length-of_id : (id : ℕ) (xs : List (ℕ × T)) → length (of_id id xs) ≤ length xs
  unfolding of_id
  length-of_id id [] = omega arith
  length-of_id id ((n, x) ∷ xs) = ground (arith, length-of_id id xs)

  subscribe-heap :
      (registration : Str) (sub_id : ℕ) (r : SubscriptionRegistry T)
      → get registration r.by_registration ≡ none
      → (subscribe registration (ok sub_id) r).1.heap
        ≡ r.heap ++ (pushes (of_id sub_id r.pending) (new_subscription r.capacity) ∷ [])
  unfolding subscribe joined_or_entered entered join flush_pending enter
  subscribe-heap registration sub_id r h =
      rw h (push_each_last (of_id sub_id r.pending) r.heap (new_subscription r.capacity))

  pushes-fit :
      (c : ℕ) (xs : List T)
      → 0 < c
      → length xs ≤ c
      → pushes xs (new_subscription c)
        ≡ record { capacity = c; queue = map item xs; closed = false; wire_closed = false }
  pushes-fit c xs hc h = pushes-new_subscription c xs hc ∙ rw (le→leb (length xs) c h) refl

  -- Notifications whose id the registry does not know wait for the subscription that they belong to,
  -- the last `capacity` of them: a consumer that then opens the registration takes over those of its
  -- id, in order; what fell out of the deque before is lost and nobody is told; and the consumers that
  -- there were keep what they have.
  pub subscribe-early :
      (registration : Str) (sub_id : ℕ) (ps : List (ℕ × T)) (r : SubscriptionRegistry T)
      → get registration r.by_registration ≡ none
      → 0 < r.capacity
      → length r.pending ≤ r.capacity
      → AreUnknown ps r
      → (subscribe registration (ok sub_id) (publish_each ps r)).1.heap
        ≡ r.heap
          ++ (record {
            capacity = r.capacity;
            queue = map item (of_id sub_id (last_of r.capacity (r.pending ++ ps)));
            closed = false;
            wire_closed = false;
          }
              ∷ [])
  subscribe-early registration sub_id ps r h hc room unknown =
      let kept = last_of r.capacity (r.pending ++ ps) in
      let early : publish_each ps r ≡ record r { pending = kept } =
        ap (λ l. publish_each ps (record r { pending = l }))
          (sym (last_of-fits r.capacity r.pending room))
        ∙ publish_each-unknown ps r.pending r unknown in
      let short : length (of_id sub_id kept) ≤ r.capacity = omega (
        arith,
        length-of_id sub_id kept,
        length-drop (length (r.pending ++ ps) - r.capacity) (r.pending ++ ps),
      ) in
      ap (λ s. (subscribe registration (ok sub_id) s).1.heap) early
      ∙ subscribe-heap registration sub_id (record r { pending = kept }) h
      ∙ ap (λ s. r.heap ++ (s ∷ [])) (pushes-fit r.capacity (of_id sub_id kept) hc short)
