-- ===== src/Runtime/Gate/Fair.antt =====
-- A caller that waits at the gate is served.
use fitz_py.Prelude.{
  ℕ, zero, suc, ◌+◌, ◌≡◌, ◌≢◌, ◌⊎◌, inl, inr, refl, sym, ap, ◌∙◌, subst, false, ◌++◌, [], ◌∷◌, List,
  none, some, length, arith, ==_self,
}
use fitz_py.Runtime.Gate.{
  FutureState, pending, granted, Waiter, World, acquired, find, release_loop, release_slot, resume,
}

-- `_release_slot`, so often.
unfoldable pub releases : ℕ → World → World
releases zero w = w
releases (suc n) w = releases n (release_slot w)

-- The callers that still wait.
unfoldable pub pending_count : List Waiter → ℕ
pending_count [] = 0
pending_count (f ∷ fs) = elim f.state [ pending ↦ suc (pending_count fs) | _ ↦ pending_count fs ]

abbrev with_waiters : List Waiter → World → World
with_waiters ws w = record w { gate = record w.gate { waiters = ws } }

release_loop-with_waiters :
    (ws vs : List Waiter) (w : World) → release_loop ws (with_waiters vs w) ≡ release_loop ws w
unfolding release_loop
release_loop-with_waiters [] vs w = refl
release_loop-with_waiters (f ∷ ws) vs w = ground (
  arith,
  release_loop-with_waiters ws vs (record w { popped = f ∷ w.popped; strays = w.strays + 1 }),
)

-- The releases reach caller `i`.
abbrev Served : ℕ → List Waiter → World → Type 0
Served i rest w = (w.waiters ≡ rest) × (find i w.popped ≡ some granted)

release_slot-Served :
    (i : ℕ) (rest : List Waiter) (w : World)
    → w.waiters ≡ record { id = i; state = pending } ∷ rest
    → Served i rest (release_slot w)
unfolding release_slot release_loop find
release_slot-Served i rest w h = ground (arith, ==_self i)

-- One release when the first future of the deque waits, and when it does not.
release_slot-pending :
    (f : Waiter) (ws : List Waiter) (w : World)
    → w.waiters ≡ f ∷ ws
    → f.state ≡ pending
    → (release_slot w).waiters ≡ ws
unfolding release_slot release_loop
release_slot-pending f ws w h e = ground arith

-- The state in which a future that does not wait has been passed over.
abbrev passed : Waiter → List Waiter → World → World
passed f ws w = with_waiters ws (record w { popped = f ∷ w.popped; strays = w.strays + 1 })

release_slot-passed :
    (f : Waiter) (ws : List Waiter) (w : World)
    → w.waiters ≡ f ∷ ws
    → f.state ≢ pending
    → release_slot w ≡ release_slot (passed f ws w)
unfolding release_slot release_loop
release_slot-passed f ws w h e = ground (
  arith,
  release_loop-with_waiters ws ws (record w { popped = f ∷ w.popped; strays = w.strays + 1 }),
)

pending_count-passed :
    (f : Waiter) (fs : List Waiter) → f.state ≢ pending → pending_count (f ∷ fs) ≡ pending_count fs
unfolding pending_count
pending_count-passed f fs e = ground arith

pending_count-pending :
    (f : Waiter) (fs : List Waiter)
    → f.state ≡ pending
    → pending_count (f ∷ fs) ≡ suc (pending_count fs)
unfolding pending_count
pending_count-pending f fs e = ground arith

is_pending-cases : (s : FutureState) → (s ≡ pending) ⊎ (s ≢ pending)
is_pending-cases pending = inl refl
is_pending-cases s = inr (λ e. cc)

module _ (i : ℕ) (rest : List Waiter) where
  abbrev queue : List Waiter → List Waiter
  queue ahead = ahead ++ (record { id = i; state = pending } ∷ rest)

  serve :
      (ahead : List Waiter) (w : World)
      → w.waiters ≡ queue ahead
      → Served i rest (releases (suc (pending_count ahead)) w)
  unfolding releases
  serve [] w h = unfold pending_count in release_slot-Served i rest w h
  serve (f ∷ ahead) w h = elim (is_pending-cases f.state) [
    | inl e ↦
        rw (pending_count-pending f ahead e)
          (serve ahead (release_slot w) (release_slot-pending f (queue ahead) w h e))
    | inr e ↦ rw (pending_count-passed f ahead e) (
        subst (λ v. Served i rest (releases (pending_count ahead) v))
          (sym (release_slot-passed f (queue ahead) w h e))
          (serve ahead (passed f (queue ahead) w) refl))
  ]

-- What a release leaves alone.
abbrev Stays : World → World → Type 0
Stays w v = (v.closed ≡ w.closed) × (v.tokens ≡ w.tokens)

release_loop-Stays : (ws : List Waiter) (w : World) → Stays w (release_loop ws w)
unfolding release_loop
release_loop-Stays [] w = (refl, refl)
release_loop-Stays (f ∷ ws) w =
    ground
      (arith, release_loop-Stays ws (record w { popped = f ∷ w.popped; strays = w.strays + 1 }))

releases-Stays : (n : ℕ) (w : World) → Stays w (releases n w)
unfolding releases release_slot
releases-Stays zero w = (refl, refl)
releases-Stays (suc n) w =
    let first = release_loop-Stays w.waiters w in
    let others = releases-Stays n (release_loop w.waiters w) in
    (others.0 ∙ first.0, others.1 ∙ first.1)

resume-granted :
    (i : ℕ) (w : World)
    → find i w.waiters ≡ none
    → find i w.popped ≡ some granted
    → w.closed ≡ false
    → (resume i w).0 ≡ acquired (length w.tokens)
unfolding resume
resume-granted i w out here opened = rw (out, here) (rw opened refl)

-- Nobody waits for ever while slots are let go: a caller in the queue has its slot after as many
-- releases as callers that still wait stand before it, and one more, however many of those before it
-- were cancelled meanwhile; those behind it stay queued. At a gate that is open its `acquire` then
-- returns with a new token.
pub served_in_turn :
    (i : ℕ) (ahead rest : List Waiter) (w : World)
    → w.waiters ≡ ahead ++ (record { id = i; state = pending } ∷ rest)
    → find i rest ≡ none
    → w.closed ≡ false
    → let v = releases (suc (pending_count ahead)) w in
      (v.waiters ≡ rest)
      × (find i v.popped ≡ some granted)
      × ((resume i v).0 ≡ acquired (length w.tokens))
served_in_turn i ahead rest w h apart opened =
    let v = releases (suc (pending_count ahead)) w in
    let (left, here) = serve i rest ahead w h in
    let (same, tokens) = releases-Stays (suc (pending_count ahead)) w in
    (
      left,
      here,
      resume-granted i v (ap (find i) left ∙ apart) here (same ∙ opened)
          ∙ ap (λ ts. acquired (length ts)) tokens,
    )
