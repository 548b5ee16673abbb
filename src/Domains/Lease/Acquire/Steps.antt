-- ===== src/Domains/Lease/Acquire/Steps.antt =====
-- Every step of a call of `acquire` keeps the turns.
use fitz_py.Prelude.{
  ℕ, ◌≡◌, refl, sym, ◌∙◌, Bool, true, false, inl, inr, ◌++◌, [], ◌∷◌, List, ◌==◌, if◌then◌else◌,
  bit, Option, Option-cases, none, some, arith, set, get_elem?,
}
use fitz_py.Prelude.Bytes.{Bytes}
use fitz_py.Errors.{Result, ok, err, cancelled, ◌>>=◌}
use fitz_py.Domains.Lease.{lease_error}
use fitz_py.Domains.Lease.Acquire.{
  Phase, waiting, requested, queueing, draining, ended, Call, Acquires, Event, enter, answer,
  resume, cancel, drained, in_queue, enter_call, granted, answer_call, final_token, resume_call,
  cancel_held, drain_call, step_call, decode_acquire,
}
use fitz_py.Domains.Lease.Acquire.Turns.{
  holds, holders, is_fresh, Line, Free, Taken, IsTurn, holders-set, get-set, all-set, all-get,
}
use fitz_py.Domains.Lease.Acquire.Moves.{own, finish-IsTurn, moved-IsTurn, aside-IsTurn}

no_answer : (c : Call) → is_fresh c ≡ true → waiting ≡ c.phase → c.queued_response ≡ none
no_answer c f p = elim (Option-cases c.queued_response) [
  | inl e ↦ e
  | inr (r, e) ↦ let x : false ≡ true = rw (← p, e) at f in cc
]

-- The lock is free, and a call enters.
module _ (s : Acquires) (i : ℕ) (c : Call) (f : Free s) (g : get_elem? s.calls i ≡ some c)
    (p : waiting ≡ c.phase) (no_reply : c.queued_response ≡ none) where
  enter_one : holders (set s.calls i (record c { phase = requested })) ≡ 1
  enter_one =
      let b : bit (holds c.phase) ≡ 0 = rw (← p) refl in
      omega (arith, holders-set s.calls i c (record c { phase = requested }) g, f.nobody, b)

  enter-Line :
      (w : Bool)
      → c.waits ≡ w
      → Line (if w then s.queued ++ (i ∷ []) else s.queued) i (record c { phase = requested })
  enter-Line true e = inl (rw f.no_queue refl, (e, no_reply))
  enter-Line false e = inr (f.no_queue, inr (e, refl))

enter_call-IsTurn :
    (s : Acquires) (i : ℕ) (c : Call)
    → IsTurn s
    → get_elem? s.calls i ≡ some c
    → waiting ≡ c.phase
    → s.locked ≡ false
    → IsTurn (enter_call i c s)
unfolding enter_call
enter_call-IsTurn s i c h g p u = elim h.turn [
  | inr (j, (d, t)) ↦ absurd (let x : true ≡ false = sym t.locked ∙ u in cc)
  | inl f ↦ entered f c.payload
]
  where
    entered :
        (f : Free s) (r : Result Bytes)
        → IsTurn (elim r as (λ _. Acquires) [
          | err e ↦ record s { calls = set s.calls i (record c { phase = ended (err e) }) }
          | ok payload ↦ record s {
            locked = true;
            queued = if c.waits then s.queued ++ (i ∷ []) else s.queued;
            calls = set s.calls i (record c { phase = requested });
            sent = payload ∷ s.sent;
          }
        ])
    entered f (err e) = aside-IsTurn s i c (err e) h g p
    entered f (ok payload) =
        let none_yet = no_answer c (all-get is_fresh s.calls i c h.fresh g) p in
        record {
          fresh = all-set is_fresh s.calls i (record c { phase = requested }) h.fresh refl;
          turn = inr (
            i,
            (
              record c { phase = requested },
              record {
                locked = refl;
                one = enter_one s i c f g p none_yet;
                at = get-set s.calls i c (record c { phase = requested }) g;
                holding = refl;
                line = enter-Line s i c f g p none_yet c.waits refl;
              },
            ),
          );
        }

queueing-Line :
    (q : List ℕ) (i : ℕ) (c : Call)
    → c.waits ≡ true
    → Line q i c
    → Line q i (record c { phase = queueing })
queueing-Line q i c w (inl l) = inl l
queueing-Line q i c w (inr (e, inl l)) = inr (e, inl l)
queueing-Line q i c w (inr (e, inr (v, p))) = absurd (let x : true ≡ false = sym w ∙ v in cc)

draining-Line :
    (q : List ℕ) (i : ℕ) (c : Call)
    → in_queue i q ≡ true
    → Line q i c
    → Line q i (record c { phase = draining })
draining-Line q i c w (inl l) = inl l
draining-Line q i c w (inr (e, l)) = absurd (let x : false ≡ true = rw e at w in cc)

if-IsTurn :
    (b : Bool) (x y : Acquires)
    → (b ≡ true → IsTurn x)
    → (b ≡ false → IsTurn y)
    → IsTurn (if b then x else y)
if-IsTurn true x y hx hy = hx refl
if-IsTurn false x y hx hy = hy refl

answered-IsTurn :
    (o : Option (Result Bytes)) (x : Acquires) (f : Result Bytes → Acquires)
    → IsTurn x
    → ((r : Result Bytes) → IsTurn (f r))
    → IsTurn (elim o as (λ _. Acquires) [ none ↦ x | some r ↦ f r ])
answered-IsTurn none x f hx hf = hx
answered-IsTurn (some r) x f hx hf = hf r

answer_call-IsTurn :
    (s : Acquires) (i : ℕ) (c : Call) (r : Result (ℕ × ℕ))
    → IsTurn s
    → Taken s i c
    → IsTurn (answer_call i c r s)
unfolding answer_call
answer_call-IsTurn s i c (err e) h t = finish-IsTurn s i c (err e) h t
answer_call-IsTurn s i c (ok (k, token)) h t =
    if-IsTurn (k == 3) _ _ (λ e. finish-IsTurn s i c (err (lease_error "ALREADY_QUEUED")) h t)
      (λ e.
        if-IsTurn (k == 2) _ _
          (λ z.
            if-IsTurn c.waits _ _
              (λ w.
                moved-IsTurn s i c (record c { phase = queueing }) s.queued h t refl refl
                  (queueing-Line s.queued i c w t.line))
              (λ w. finish-IsTurn s i c (err (lease_error "INVALID_RESPONSE")) h t))
          (λ z. finish-IsTurn s i c (granted i c token s) h t))

cancel_held-IsTurn :
    (s : Acquires) (i : ℕ) (c : Call) → IsTurn s → Taken s i c → IsTurn (cancel_held i c s)
unfolding cancel_held
cancel_held-IsTurn s i c h t =
    if-IsTurn (in_queue i s.queued) _ _
      (λ e.
        moved-IsTurn s i c (record c { phase = draining }) s.queued h t refl refl
          (draining-Line s.queued i c e t.line))
      (λ e. finish-IsTurn s i c (err cancelled) h t)

resume_call-IsTurn :
    (s : Acquires) (i : ℕ) (c : Call) → IsTurn s → Taken s i c → IsTurn (resume_call i c s)
unfolding resume_call
resume_call-IsTurn s i c h t =
    answered-IsTurn c.queued_response s _ h
      (λ r. finish-IsTurn s i c (r >>= decode_acquire >>= final_token) h t)

drain_call-IsTurn :
    (s : Acquires) (i : ℕ) (c : Call) → IsTurn s → Taken s i c → IsTurn (drain_call i c s)
unfolding drain_call
drain_call-IsTurn s i c h t =
    answered-IsTurn c.queued_response s _ h (λ r. finish-IsTurn s i c (err cancelled) h t)

-- The call that an event is about, in a phase that the event meets.
pub step_call-IsTurn :
    (e : Event) (i : ℕ) (c : Call) (p : Phase) (s : Acquires)
    → IsTurn s
    → get_elem? s.calls i ≡ some c
    → p ≡ c.phase
    → IsTurn (step_call e i c p s)
unfolding step_call
step_call-IsTurn (enter k) i c waiting s h g p =
    if-IsTurn s.locked _ _ (λ e. h) (λ e. enter_call-IsTurn s i c h g p e)
step_call-IsTurn (answer k (err cancelled)) i c requested s h g p =
    cancel_held-IsTurn s i c h (own s i c h g (rw (← p) refl))
step_call-IsTurn (answer k (err x)) i c requested s h g p =
    answer_call-IsTurn s i c (err x) h (own s i c h g (rw (← p) refl))
step_call-IsTurn (answer k (ok bs)) i c requested s h g p =
    answer_call-IsTurn s i c (decode_acquire bs) h (own s i c h g (rw (← p) refl))
step_call-IsTurn (resume k) i c queueing s h g p =
    resume_call-IsTurn s i c h (own s i c h g (rw (← p) refl))
step_call-IsTurn (cancel k) i c waiting s h g p = aside-IsTurn s i c (err cancelled) h g p
step_call-IsTurn (cancel k) i c requested s h g p =
    cancel_held-IsTurn s i c h (own s i c h g (rw (← p) refl))
step_call-IsTurn (cancel k) i c queueing s h g p =
    cancel_held-IsTurn s i c h (own s i c h g (rw (← p) refl))
step_call-IsTurn (drained k) i c draining s h g p =
    drain_call-IsTurn s i c h (own s i c h g (rw (← p) refl))
step_call-IsTurn e i c p s h g q = h
