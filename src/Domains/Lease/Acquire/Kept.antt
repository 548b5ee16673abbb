-- ===== src/Domains/Lease/Acquire/Kept.antt =====
-- Every step keeps the turns of the calls of `acquire`.
use fitz_py.Prelude.{
  ℕ, ◌≡◌, refl, sym, subst, Bool, true, not, ◌&&◌, inl, inr, [], ◌∷◌, List, Option, none, some,
  arith, set, get_elem?,
}
use fitz_py.Prelude.Bytes.{Bytes}
use fitz_py.Errors.{Result, ok, err, connection_error}
use fitz_py.Domains.Lease.Acquire.{
  Phase, waiting, requested, queueing, draining, ended, Call, Acquires, no_acquires, Event, arrive,
  enter, answer, resume, cancel, drained, queued_reply, disconnect, settle, reply_first, fail_all,
  at_call, step, steps,
}
use fitz_py.Domains.Lease.Acquire.Turns.{
  holds, is_waiting, is_fresh, Taken, IsTurn, all-append_one, get-append_left, holders-append_one,
}
use fitz_py.Domains.Lease.Acquire.Moves.{moved-IsTurn}
use fitz_py.Domains.Lease.Acquire.Steps.{step_call-IsTurn}

pub settle_only :
    (calls : List Call) (i : ℕ) (c : Call) (r : Result Bytes)
    → get_elem? calls i ≡ some c
    → c.queued_response ≡ none
    → settle i r calls ≡ set calls i (record c { queued_response = some r })
unfolding settle
settle_only calls i c r g e = rw (g, e) refl

-- What the callbacks of the connection leave.
abbrev pub replied : Bytes → List ℕ → Acquires → Acquires
replied payload q s = record s {
  queued = (reply_first payload q s.calls).0;
  calls = (reply_first payload q s.calls).1;
}

abbrev pub failed : List ℕ → Acquires → Acquires
failed q s = record s { queued = []; calls = fail_all q s.calls }

emptied-IsTurn : (s : Acquires) → IsTurn s → s.queued ≡ [] → IsTurn (record s { queued = [] })
emptied-IsTurn s h e = subst (λ q. IsTurn (record s { queued = q })) e h

-- The future that stands alone in the deque is settled and leaves it.
settled-IsTurn :
    (s : Acquires) (i : ℕ) (c : Call) (r : Result Bytes)
    → IsTurn s
    → Taken s i c
    → c.waits ≡ true
    → IsTurn
        (record s { queued = []; calls = set s.calls i (record c { queued_response = some r }) })
settled-IsTurn s i c r h t w =
    moved-IsTurn s i c (record c { queued_response = some r }) [] h t t.holding
      (still_fresh c.phase t.holding) (inr (refl, inl (w, refl)))
  where
    still_fresh : (p : Phase) → holds p ≡ true → not (is_waiting p && true) ≡ true
    still_fresh waiting h = cc
    still_fresh requested h = refl
    still_fresh queueing h = refl
    still_fresh draining h = refl
    still_fresh (ended r) h = refl

pub replied_alone :
    (s : Acquires) (i : ℕ) (c : Call) (payload : Bytes)
    → get_elem? s.calls i ≡ some c
    → c.queued_response ≡ none
    → replied payload (i ∷ []) s ≡ record s {
      queued = [];
      calls = set s.calls i (record c { queued_response = some (ok payload) });
    }
unfolding reply_first
replied_alone s i c payload g e =
    let x = settle_only s.calls i c (ok payload) g e in rw (g, e, x) refl

pub failed_alone :
    (s : Acquires) (i : ℕ) (c : Call)
    → get_elem? s.calls i ≡ some c
    → c.queued_response ≡ none
    → failed (i ∷ []) s ≡ record s {
      queued = [];
      calls = set s.calls i (record c { queued_response = some (err connection_error) });
    }
unfolding fail_all
failed_alone s i c g e = let x = settle_only s.calls i c (err connection_error) g e in rw x refl

callbacks-IsTurn :
    (s : Acquires) (payload : Bytes)
    → IsTurn s
    → IsTurn (replied payload s.queued s) × IsTurn (failed s.queued s)
unfolding reply_first fail_all
callbacks-IsTurn s payload h = elim h.turn [
  | inl f ↦ empty f.no_queue
  | inr (i, (c, t)) ↦ elim t.line [
    | inr (e, l) ↦ empty e
    | inl (e, (w, n)) ↦ (
      subst (λ q. IsTurn (replied payload q s)) (sym e)
          (subst IsTurn (sym (replied_alone s i c payload t.at n))
            (settled-IsTurn s i c (ok payload) h t w)),
      subst (λ q. IsTurn (failed q s)) (sym e)
          (subst IsTurn (sym (failed_alone s i c t.at n))
            (settled-IsTurn s i c (err connection_error) h t w)),
    )
  ]
]
  where
    empty : s.queued ≡ [] → IsTurn (replied payload s.queued s) × IsTurn (failed s.queued s)
    empty e = (
      subst (λ q. IsTurn (replied payload q s)) (sym e) (emptied-IsTurn s h e),
      subst (λ q. IsTurn (failed q s)) (sym e) (emptied-IsTurn s h e),
    )

arrive-IsTurn :
    (s : Acquires) (waits : Bool) (payload : Result Bytes)
    → IsTurn s
    → IsTurn (step (arrive waits payload) s)
unfolding step
arrive-IsTurn s w bs h =
    let c : Call = record { waits = w; payload = bs; phase = waiting; queued_response = none } in
    record {
      fresh = all-append_one is_fresh s.calls c h.fresh refl;
      turn = elim h.turn [
        | inl f ↦ inl (record {
          unlocked = f.unlocked;
          nobody = omega (arith, holders-append_one s.calls c, f.nobody);
          no_queue = f.no_queue;
        })
        | inr (i, (d, t)) ↦ inr (
          i,
          (
            d,
            record {
              locked = t.locked;
              one = omega (arith, holders-append_one s.calls c, t.one);
              at = get-append_left s.calls (c ∷ []) i d t.at;
              holding = t.holding;
              line = t.line;
            },
          ),
        )
      ];
    }

at_call-IsTurn :
    (e : Event) (i : ℕ) (o : Option Call) (s : Acquires)
    → IsTurn s
    → get_elem? s.calls i ≡ o
    → IsTurn (at_call e i o s)
at_call-IsTurn e i none s h g = h
at_call-IsTurn e i (some c) s h g = step_call-IsTurn e i c c.phase s h g refl

pub step-IsTurn : (e : Event) (s : Acquires) → IsTurn s → IsTurn (step e s)
unfolding step
step-IsTurn (arrive w bs) s h = arrive-IsTurn s w bs h
step-IsTurn (queued_reply payload) s h = (callbacks-IsTurn s payload h).0
step-IsTurn disconnect s h = (callbacks-IsTurn s [] h).1
step-IsTurn (enter i) s h = at_call-IsTurn (enter i) i (get_elem? s.calls i) s h refl
step-IsTurn (answer i r) s h = at_call-IsTurn (answer i r) i (get_elem? s.calls i) s h refl
step-IsTurn (resume i) s h = at_call-IsTurn (resume i) i (get_elem? s.calls i) s h refl
step-IsTurn (cancel i) s h = at_call-IsTurn (cancel i) i (get_elem? s.calls i) s h refl
step-IsTurn (drained i) s h = at_call-IsTurn (drained i) i (get_elem? s.calls i) s h refl

steps_kept : (es : List Event) (s : Acquires) → IsTurn s → IsTurn (steps es s)
unfolding steps
steps_kept [] s h = h
steps_kept (e ∷ es) s h = steps_kept es (step e s) (step-IsTurn e s h)

-- Whatever happens, the calls of `acquire` take turns: the lock is free, and then no call holds it
-- and the deque is empty; or one call holds it, from its request on until it returns, fails, or has
-- been cancelled and drained. If that one waits, its future stands alone in the deque or is done.
-- A call that has not entered has no queued answer.
pub steps-IsTurn : (es : List Event) → IsTurn (steps es no_acquires)
unfolding no_acquires
steps-IsTurn es = steps_kept es no_acquires (record {
  fresh = refl;
  turn = inl (record { unlocked = refl; nobody = refl; no_queue = refl });
})
