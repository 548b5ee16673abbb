-- ===== src/Domains/Lease/Acquire/Drain.antt =====
-- A cancelled call of `acquire` that keeps the lock.
use fitz_py.Prelude.{
  ℕ, ◌≡◌, ◌≢◌, refl, sym, ◌∙◌, subst, Bool, true, false, [], ◌∷◌, List, Option, none, some, arith,
  set, get_elem?, all, if◌then◌else◌,
}
use fitz_py.Prelude.Bytes.{Bytes}
use fitz_py.Errors.{Result, ok, err, cancelled}
use fitz_py.Domains.Lease.Acquire.{
  Phase, waiting, requested, queueing, draining, ended, Call, Acquires, Event, arrive, enter,
  answer, resume, cancel, drained, queued_reply, disconnect, drain_call, step_call, at_call, step,
  steps,
}
use fitz_py.Domains.Lease.Acquire.Turns.{
  holds, IsTurn, holders_unique, get-set_other, get-append_left,
}
use fitz_py.Domains.Lease.Acquire.Moves.{own}
use fitz_py.Domains.Lease.Acquire.Kept.{step-IsTurn}
use fitz_py.Domains.Lease.Acquire.Outcome.{cancelled_call}

-- Everything but a queued answer and a lost connection.
abbrev pub is_quiet : Event → Bool
is_quiet (arrive waits payload) = true
is_quiet (enter i) = true
is_quiet (answer i r) = true
is_quiet (resume i) = true
is_quiet (cancel i) = true
is_quiet (drained i) = true
is_quiet (queued_reply payload) = false
is_quiet disconnect = false

-- The call still drains with the lock, and nothing more has been sent.
abbrev pub IsHeld : ℕ → Call → List Bytes → Acquires → Type 0
IsHeld i c sent s = (s.locked ≡ true) × ((get_elem? s.calls i ≡ some c) × (s.sent ≡ sent))

module _ (i : ℕ) (payload : Result Bytes) (s : Acquires) (h : IsTurn s)
    (g : get_elem? s.calls i ≡ some (cancelled_call payload none)) where
  abbrev Still : Acquires → Type 0
  Still = IsHeld i (cancelled_call payload none) s.sent

  same : Still s
  same = ((own s i (cancelled_call payload none) h g refl).locked, (g, refl))

  -- Another call that holds the lock would be this one.
  the_holder :
      (k : ℕ) (c : Call)
      → get_elem? s.calls k ≡ some c
      → holds c.phase ≡ true
      → c ≡ cancelled_call payload none
  the_holder k c gk hk =
      let t = own s i (cancelled_call payload none) h g refl in
      let e : k ≡ i =
        holders_unique s.calls k i c (cancelled_call payload none) (omega (arith, t.one)) gk hk g
          refl in
      let x : get_elem? s.calls k ≡ some (cancelled_call payload none) = rw e g in cc

  not_held :
      (k : ℕ) (c : Call) (p : Phase) (A : Type 0)
      → get_elem? s.calls k ≡ some c
      → p ≡ c.phase
      → holds p ≡ true
      → p ≢ draining
      → A
  not_held k c p A gk e hp n =
      let x = the_holder k c gk (rw (← e) hp) in
      let y : c.phase ≡ draining = rw x refl in absurd (n (e ∙ y))

  aside :
      (k : ℕ) (c : Call) (r : Result ℕ)
      → get_elem? s.calls k ≡ some c
      → waiting ≡ c.phase
      → Still (record s { calls = set s.calls k (record c { phase = ended r }) })
  aside k c r gk e =
      let t = own s i (cancelled_call payload none) h g refl in
      let n : k ≢ i = λ q.
        let x : get_elem? s.calls i ≡ some c = rw (← q) gk in
        let y : c ≡ cancelled_call payload none = cc in
        let z : c.phase ≡ draining = rw y refl in cc in
      (t.locked, (get-set_other s.calls k i (record c { phase = ended r }) n ∙ g, refl))

  entered : (b : Bool) (x : Acquires) → s.locked ≡ b → Still (if b then s else x)
  entered true x e = same
  entered false x e =
      absurd (
        let y : true ≡ false = sym (own s i (cancelled_call payload none) h g refl).locked ∙ e in
        cc)

  drained_same :
      (k : ℕ) (c : Call)
      → get_elem? s.calls k ≡ some c
      → draining ≡ c.phase
      → Still (drain_call k c s)
  unfolding drain_call
  drained_same k c gk e =
      let x = the_holder k c gk (rw (← e) refl) in
      subst (λ d. Still (drain_call k d s)) (sym x) same

  step_call-IsHeld :
      (e : Event) (k : ℕ) (c : Call) (p : Phase)
      → get_elem? s.calls k ≡ some c
      → p ≡ c.phase
      → Still (step_call e k c p s)
  unfolding step_call
  step_call-IsHeld (enter j) k c waiting gk e = entered s.locked _ refl
  step_call-IsHeld (answer j (err cancelled)) k c requested gk e =
      not_held k c requested _ gk e refl (λ q. cc)
  step_call-IsHeld (answer j (err x)) k c requested gk e =
      not_held k c requested _ gk e refl (λ q. cc)
  step_call-IsHeld (answer j (ok bs)) k c requested gk e =
      not_held k c requested _ gk e refl (λ q. cc)
  step_call-IsHeld (resume j) k c queueing gk e = not_held k c queueing _ gk e refl (λ q. cc)
  step_call-IsHeld (cancel j) k c waiting gk e = aside k c (err cancelled) gk e
  step_call-IsHeld (cancel j) k c requested gk e = not_held k c requested _ gk e refl (λ q. cc)
  step_call-IsHeld (cancel j) k c queueing gk e = not_held k c queueing _ gk e refl (λ q. cc)
  step_call-IsHeld (drained j) k c draining gk e = drained_same k c gk e
  step_call-IsHeld e k c p gk q = same

  at_call-IsHeld :
      (e : Event) (k : ℕ) (o : Option Call) → get_elem? s.calls k ≡ o → Still (at_call e k o s)
  at_call-IsHeld e k none gk = same
  at_call-IsHeld e k (some c) gk = step_call-IsHeld e k c c.phase gk refl

  step-IsHeld : (e : Event) → is_quiet e ≡ true → Still (step e s)
  unfolding step
  step-IsHeld (arrive w bs) q =
      let t = own s i (cancelled_call payload none) h g refl in
      (t.locked, (get-append_left s.calls _ i (cancelled_call payload none) g, refl))
  step-IsHeld (enter k) q = at_call-IsHeld (enter k) k (get_elem? s.calls k) refl
  step-IsHeld (answer k r) q = at_call-IsHeld (answer k r) k (get_elem? s.calls k) refl
  step-IsHeld (resume k) q = at_call-IsHeld (resume k) k (get_elem? s.calls k) refl
  step-IsHeld (cancel k) q = at_call-IsHeld (cancel k) k (get_elem? s.calls k) refl
  step-IsHeld (drained k) q = at_call-IsHeld (drained k) k (get_elem? s.calls k) refl
  step-IsHeld (queued_reply bs) q = absurd (cc)
  step-IsHeld disconnect q = absurd (cc)

-- A call that was cancelled while its future stood in the deque keeps the lock, and no other call
-- sends a request, until a queued answer comes or the connection is lost: arrivals, answers of
-- requests and further cancellations do not end it, in whatever number and order they come.
pub steps-IsHeld :
    (es : List Event) (i : ℕ) (payload : Result Bytes) (s : Acquires)
    → IsTurn s
    → get_elem? s.calls i ≡ some (cancelled_call payload none)
    → all is_quiet es ≡ true
    → IsHeld i (cancelled_call payload none) s.sent (steps es s)
unfolding steps
steps-IsHeld [] i payload s h g q = same i payload s h g
steps-IsHeld (e ∷ es) i payload s h g q =
    let (locked, (found, unsent)) = step-IsHeld i payload s h g e (ground arith) in
    let (a, (b, c)) =
      steps-IsHeld es i payload (step e s) (step-IsTurn e s h) found (ground arith) in
    (a, (b, c ∙ unsent))
