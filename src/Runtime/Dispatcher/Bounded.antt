-- ===== src/Runtime/Dispatcher/Bounded.antt =====
-- The dispatcher's bounds, and that it does not idle while work waits.
use fitz_py.Prelude.{
  ℕ, suc, ◌≤◌, ◌<◌, ◌≡◌, ◌⊎◌, inl, inr, refl, Bool, true, false, ◌++◌, [], ◌∷◌, List, ltb, leb,
  ◌==◌, length, any, arith, length-append, Bool-cases, ltb→lt, ltb_false→le,
}
use fitz_py.Runtime.Dispatcher.{
  AsyncDispatcher, new_dispatcher, start, dispatch, discard, completed, close, Event, dispatches,
  completes, closes, step, run, start_next,
}

-- At most `maximum` run and at most `queue_size` wait; what waits does so only while all slots are
-- taken; a closed dispatcher has nothing that waits.
pub record IsBounded (d : AsyncDispatcher) : Type 0 where
  pub active_bound : length d.active ≤ d.maximum
  pub queued_bound : length d.queued ≤ d.queue_size
  pub busy : (d.queued ≡ []) ⊎ (length d.active ≡ d.maximum)
  pub quiet : (d.closed ≡ false) ⊎ (d.queued ≡ [])

discard_lem :
    (work : ℕ) (ws : List ℕ)
    → any (λ w. w == work) ws ≡ true
    → suc (length (discard work ws)) ≡ length ws
unfolding discard
discard_lem work [] h = cc
discard_lem work (w ∷ ws) h = ground (arith, discard_lem work ws)

new_dispatcher-IsBounded : (maximum queue_size : ℕ) → IsBounded (new_dispatcher maximum queue_size)
unfolding new_dispatcher
new_dispatcher-IsBounded maximum queue_size = record {
  active_bound = omega arith;
  queued_bound = omega arith;
  busy = inl refl;
  quiet = inl refl;
}

module _ (m q : ℕ) where
  abbrev at : List ℕ → List ℕ → Bool → AsyncDispatcher
  at a w c = record { maximum = m; queue_size = q; active = a; queued = w; closed = c }

  dispatch_room :
      (work : ℕ) (a w : List ℕ) (c : Bool)
      → IsBounded (at a w c)
      → length a < m
      → IsBounded (at (a ++ (work ∷ [])) w c)
  dispatch_room work a w c h l = record {
    active_bound = omega (arith, length-append a (work ∷ []));
    queued_bound = h.queued_bound;
    busy = elim h.busy [ inl e ↦ inl e | inr e ↦ inr (omega (arith, length-append a (work ∷ []))) ];
    quiet = h.quiet;
  }

  dispatch_wait :
      (work : ℕ) (a w : List ℕ)
      → IsBounded (at a w false)
      → m ≤ length a
      → length w < q
      → IsBounded (at a (w ++ (work ∷ [])) false)
  dispatch_wait work a w h l k =
      let b = h.active_bound in
      record {
        active_bound = b;
        queued_bound = omega (arith, length-append w (work ∷ []));
        busy = inr (omega arith);
        quiet = inl refl;
      }

  dispatch-IsBounded :
      (work : ℕ) (a w : List ℕ) (c : Bool)
      → IsBounded (at a w c)
      → IsBounded (dispatch work (at a w c)).1
  unfolding dispatch start
  dispatch-IsBounded work a w true h = h
  dispatch-IsBounded work a w false h = elim (Bool-cases (ltb (length a) m)) [
    | inl e ↦ rw e (dispatch_room work a w false h (ltb→lt (length a) m e))
    | inr e ↦ elim (Bool-cases (leb q (length w))) [
      | inl f ↦ rw (e, f) h
      | inr f ↦ rw (e, f) (dispatch_wait work a w h (ltb_false→le (length a) m e) (ground arith))
    ]
  ]

  completed-IsBounded :
      (work : ℕ) (a w : List ℕ) (c : Bool)
      → any (λ x. x == work) a ≡ true
      → IsBounded (at a w c)
      → IsBounded (completed work (at a w c))
  unfolding completed start_next start
  completed-IsBounded work a [] c e h =
      let b = h.active_bound in
      record {
        active_bound = omega (arith, discard_lem work a e);
        queued_bound = omega arith;
        busy = inl refl;
        quiet = inr refl;
      }
  completed-IsBounded work a (x ∷ w) true e h = elim h.quiet [ inl z ↦ cc | inr z ↦ cc ]
  completed-IsBounded work a (x ∷ w) false e h =
      let b = h.active_bound in
      let k = h.queued_bound in
      let full : length a ≡ m = elim h.busy [ inl z ↦ cc | inr z ↦ z ] in
      let n : length (discard work a ++ (x ∷ [])) ≡ m =
        omega (arith, length-append (discard work a) (x ∷ []), discard_lem work a e) in
      record {
        active_bound = omega arith;
        queued_bound = omega arith;
        busy = inr n;
        quiet = inl refl;
      }

step-IsBounded : (e : Event) (d : AsyncDispatcher) → IsBounded d → IsBounded (step e d)
unfolding step close
step-IsBounded (dispatches work) d h =
    dispatch-IsBounded d.maximum d.queue_size work d.active d.queued d.closed h
step-IsBounded (completes work) d h = elim (Bool-cases (any (λ w. w == work) d.active)) [
  | inl e ↦ rw e (completed-IsBounded d.maximum d.queue_size work d.active d.queued d.closed e h)
  | inr e ↦ rw e h
]
step-IsBounded closes d h = record {
  active_bound = h.active_bound;
  queued_bound = omega arith;
  busy = inl refl;
  quiet = inr refl;
}

run-IsBounded : (es : List Event) (d : AsyncDispatcher) → IsBounded d → IsBounded (run es d)
unfolding run
run-IsBounded [] d h = h
run-IsBounded (e ∷ es) d h = run-IsBounded es (step e d) (step-IsBounded e d h)

-- After any dispatches, completions of running tasks and closes, at most as many handlers run as the
-- dispatcher's maximum, at most as many wait as its queue size, some wait only while the maximum
-- runs, and none waits once it is closed.
pub dispatcher-IsBounded :
    (maximum queue_size : ℕ) (es : List Event)
    → IsBounded (run es (new_dispatcher maximum queue_size))
dispatcher-IsBounded maximum queue_size es =
    run-IsBounded es _ (new_dispatcher-IsBounded maximum queue_size)
