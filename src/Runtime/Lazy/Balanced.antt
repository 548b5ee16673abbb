-- ===== src/Runtime/Lazy/Balanced.antt =====
-- No resource is lost and none is closed twice.
use fitz_py.Prelude.{
  ℕ, Bool, true, false, List, [], ◌∷◌, Option, none, some, ◌≡◌, refl, ◌⊎◌, inl, inr,
}
use fitz_py.Runtime.Lazy.{
  Lazy, new_lazy, start, finish_start, mark_closed, closing, close_resource, Event, starts, fails,
  closes, drains, opens, step, run,
}

-- The resource that is held, if any, in front of the released ones.
abbrev pub holding : Option ℕ → List ℕ → List ℕ
holding none rs = rs
holding (some r) rs = r ∷ rs

-- What was opened is what was released and what is held; while a start runs nothing is held.
pub record IsBalanced (w : Lazy) : Type 0 where
  pub balance : w.opened ≡ holding w.resource w.released
  pub vacant : (w.starting ≡ false) ⊎ (w.resource ≡ none)

abbrev at : Option ℕ → Bool → Bool → List ℕ → List ℕ → Lazy
at h c s os rs = record { resource = h; closed = c; starting = s; opened = os; released = rs }

step_at :
    (e : Event) (h : Option ℕ) (c s : Bool) (os rs : List ℕ)
    → IsBalanced (at h c s os rs)
    → IsBalanced (step e (at h c s os rs))
unfolding step start finish_start mark_closed close_resource closing
step_at starts h c true os rs b = b
step_at starts h true false os rs b = b
step_at starts none false false os rs b = record { balance = b.balance; vacant = inr refl }
step_at starts (some r) false false os rs b = b
step_at (opens r) h c false os rs b = b
step_at (opens r) none true true os rs b =
    let e = b.balance in record { balance = cc; vacant = inl refl }
step_at (opens r) none false true os rs b =
    let e = b.balance in record { balance = cc; vacant = inl refl }
step_at (opens r) (some q) c true os rs b = elim b.vacant [ inl e ↦ cc | inr e ↦ cc ]
step_at fails h c s os rs b = record { balance = b.balance; vacant = inl refl }
step_at closes h c s os rs b = record { balance = b.balance; vacant = b.vacant }
step_at drains h c true os rs b = b
step_at drains none c false os rs b = b
step_at drains (some r) c false os rs b = record { balance = b.balance; vacant = inl refl }

run-IsBalanced : (es : List Event) (w : Lazy) → IsBalanced w → IsBalanced (run es w)
unfolding run
run-IsBalanced [] w b = b
run-IsBalanced (e ∷ es) w b =
    run-IsBalanced es (step e w) (step_at e w.resource w.closed w.starting w.opened w.released b)

drained :
    (h : Option ℕ) (c : Bool) (os rs : List ℕ)
    → IsBalanced (at h c false os rs)
    → (step drains (at h c false os rs)).opened ≡ (step drains (at h c false os rs)).released
unfolding step close_resource closing
drained none c os rs b = b.balance
drained (some r) c os rs b = b.balance

drained_at :
    (h : Option ℕ) (c s : Bool) (os rs : List ℕ)
    → IsBalanced (at h c s os rs)
    → (s ≡ true) ⊎ ((step drains (at h c s os rs)).opened ≡ (step drains (at h c s os rs)).released)
drained_at h c true os rs b = inl refl
drained_at h c false os rs b = inr (drained h c os rs b)

-- After any interleaving of starts, factory results and closings, the resources that the factory
-- made are exactly the ones that were closed and the one that is held, in order; while a start runs
-- none is held; and unless a start is running, closing leaves none that was not closed.
pub lazy-IsBalanced :
    (es : List Event)
    → let w = run es new_lazy in
      IsBalanced w × ((w.starting ≡ true) ⊎ ((step drains w).opened ≡ (step drains w).released))
unfolding new_lazy
lazy-IsBalanced es =
    let w = run es (at none false false [] []) in
    let b =
      run-IsBalanced es (at none false false [] [])
        (record { balance = refl; vacant = inl refl }) in
    (b, drained_at w.resource w.closed w.starting w.opened w.released b)
