-- ===== src/Domains/Rpc/Invocations.antt =====
-- domains/rpc.py: one invocation of a worker's handler, `_ActiveInvocation`, from its dispatch to the
-- acknowledgement of its end. A step is what `_run_worker` does between two awaits, or what a
-- callback does. The deadline is the argument that says whether it has passed; what the handler does
-- to the response is the one that says whether it has ended.
use fitz_py.Prelude.{
  ℕ, suc, ◌≡◌, refl, sym, Bool, true, false, not, ◌&&◌, ◌||◌, [], ◌∷◌, List, leb, if◌then◌else◌,
  arith,
}

-- Where `_run_worker` stands: not begun; at the semaphore; in the handler, or in `_send_error` instead
-- of it; over. `refused` is the task of `_schedule_terminal`, when the dispatcher is full.
pub data Stage : Type 0 where
  dispatched at_semaphore in_handler in_error over refused : Stage

-- `active` is the entry in `_active_invocations`; `acknowledged` counts the calls of
-- `_acknowledge_invocation`.
pub record Invocation : Type 0 where
  pub stage : Stage
  pub is_cancelled : Bool
  pub cancellation_requested : Bool
  pub finished : Bool
  pub started : Bool
  pub active : Bool
  pub acknowledged : ℕ

-- `_on_request`, when the dispatcher takes the work and when it does not.
unfoldable pub new_invocation : Bool → Invocation
new_invocation accepted = record {
  stage = if accepted then dispatched else refused;
  is_cancelled = false;
  cancellation_requested = false;
  finished = false;
  started = false;
  active = accepted;
  acknowledged = 0;
}

-- `_acknowledge_invocation`, as it is called or scheduled.
unfoldable pub acknowledge : Invocation → Invocation
acknowledge v = record v { active = false; acknowledged = suc v.acknowledged }

-- `_on_lifecycle` with a request to stop.
unfoldable pub request_stop : ℕ → Invocation → Invocation
request_stop value v =
    if v.active && (leb 1 value && leb value 4)
    then (if v.finished || not v.started
        then acknowledge (record v { is_cancelled = true; cancellation_requested = true })
        else record v { is_cancelled = true; cancellation_requested = true })
    else v

-- The `finally` of `_run_worker`.
unfoldable pub finish : Bool → Invocation → Invocation
finish response_ended v =
    if v.cancellation_requested || response_ended
    then acknowledge (record v { finished = true; stage = over })
    else record v { finished = true; stage = over }

-- Past the semaphore, before the handler.
unfoldable pub enter : Bool → Invocation → Invocation
enter deadline_passed v =
    if not v.active
    then finish false v
    else (if deadline_passed
        then (if v.cancellation_requested
            then finish false (record v { is_cancelled = true })
            else record v { is_cancelled = true; stage = in_error })
        else (if v.is_cancelled
            then finish false v
            else record v { started = true; stage = in_handler }))

pub data Event : Type 0 where
  -- the task begins; it gets past the semaphore; the handler or `_send_error` is over, or the task
  -- is cancelled
  begun : Event
  entered : Bool → Event
  ended : Bool → Event
  -- a request to stop; the deadline; the connection is lost
  stop_requested : ℕ → Event
  expired lost : Event

unfoldable pub run : Event → Stage → Invocation → Invocation
run begun dispatched v =
    if v.active
    then record v { stage = at_semaphore }
    else record v { finished = true; stage = over }
run (entered deadline_passed) at_semaphore v = enter deadline_passed v
run (ended response_ended) at_semaphore v = finish response_ended v
run (ended response_ended) in_handler v = finish response_ended v
run (ended response_ended) in_error v = finish response_ended v
run (ended response_ended) refused v = acknowledge (record v { stage = over })
run (stop_requested value) stage v = request_stop value v
run expired stage v = record v { is_cancelled = true }
run lost stage v = record v { is_cancelled = true; active = false }
run e stage v = v

unfoldable pub steps : List Event → Invocation → Invocation
steps [] v = v
steps (e ∷ es) v = steps es (run e v.stage v)

abbrev pub is_handling : Stage → Bool
is_handling dispatched = false
is_handling at_semaphore = false
is_handling in_handler = true
is_handling in_error = true
is_handling over = false
is_handling refused = false

-- A request to stop is acknowledged, or the handler that it met has begun and is not over; a handler
-- that has begun is running or over.
pub record IsAnswered (v : Invocation) : Type 0 where
  pub answered :
      v.cancellation_requested && not (leb 1 v.acknowledged || is_handling v.stage) ≡ false
  pub begun_once : v.started && not (is_handling v.stage || v.finished) ≡ false

acknowledge-IsAnswered :
    (v : Invocation)
    → v.started && not (is_handling v.stage || v.finished) ≡ false
    → IsAnswered (acknowledge v)
unfolding acknowledge
acknowledge-IsAnswered v h = ground (arith, h)

stop-IsAnswered : (n : ℕ) (v : Invocation) → IsAnswered v → IsAnswered (request_stop n v)
unfolding request_stop acknowledge
stop-IsAnswered n v h = ground (arith, h.answered, h.begun_once)

finish-IsAnswered : (b : Bool) (v : Invocation) → IsAnswered (finish b v)
unfolding finish acknowledge
finish-IsAnswered b v = ground arith

enter-IsAnswered :
    (b : Bool) (v : Invocation) → v.stage ≡ at_semaphore → IsAnswered v → IsAnswered (enter b v)
unfolding enter finish acknowledge
enter-IsAnswered b v e h = ground (arith, e, h.answered, h.begun_once)

moved-IsAnswered :
    (v : Invocation)
    → v.stage ≡ dispatched
    → IsAnswered v
    → IsAnswered (
        if v.active
        then record v { stage = at_semaphore }
        else record v { finished = true; stage = over })
moved-IsAnswered v e h = ground (arith, e, h.answered, h.begun_once)

terminated-IsAnswered :
    (v : Invocation)
    → v.stage ≡ refused
    → IsAnswered v
    → IsAnswered (acknowledge (record v { stage = over }))
unfolding acknowledge
terminated-IsAnswered v e h = ground (arith, e, h.answered, h.begun_once)

flagged-IsAnswered :
    (v : Invocation) (b c : Bool)
    → IsAnswered v
    → IsAnswered (record v { is_cancelled = b; active = c })
flagged-IsAnswered v b c h = record { answered = h.answered; begun_once = h.begun_once }

run-IsAnswered :
    (e : Event) (t : Stage) (v : Invocation) → t ≡ v.stage → IsAnswered v → IsAnswered (run e t v)
unfolding run
run-IsAnswered begun dispatched v e h = moved-IsAnswered v (sym e) h
run-IsAnswered (entered b) at_semaphore v e h = enter-IsAnswered b v (sym e) h
run-IsAnswered (ended b) at_semaphore v e h = finish-IsAnswered b v
run-IsAnswered (ended b) in_handler v e h = finish-IsAnswered b v
run-IsAnswered (ended b) in_error v e h = finish-IsAnswered b v
run-IsAnswered (ended b) refused v e h = terminated-IsAnswered v (sym e) h
run-IsAnswered (stop_requested n) t v e h = stop-IsAnswered n v h
run-IsAnswered expired t v e h = flagged-IsAnswered v true v.active h
run-IsAnswered lost t v e h = flagged-IsAnswered v true false h
run-IsAnswered x t v e h = h

steps_kept : (es : List Event) (v : Invocation) → IsAnswered v → IsAnswered (steps es v)
unfolding steps
steps_kept [] v h = h
steps_kept (e ∷ es) v h = steps_kept es (run e v.stage v) (run-IsAnswered e v.stage v refl h)

-- Whenever the broker's request to stop meets an invocation, and whatever the semaphore, the
-- deadline, the handler and the connection do: the request is acknowledged, or the handler that it
-- met has begun and is not over yet.
pub steps-IsAnswered :
    (es : List Event) (accepted : Bool) → IsAnswered (steps es (new_invocation accepted))
unfolding new_invocation
steps-IsAnswered es accepted = steps_kept es _ (record { answered = refl; begun_once = refl })
