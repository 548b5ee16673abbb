-- ===== src/Runtime/Gate.antt =====
-- `RequestGate` of _runtime.py, with the futures and tasks of its callers.
-- A future that `acquire` waits on is in the deque, or has left it and waits for its task to run:
-- `popped` holds those. Each event below is a run of code without an `await`, so any sequence of
-- events is an interleaving of the callers.
pub mod Capacity
pub mod Overcommit
pub mod Fair
use fitz_py.Prelude.{
  ℕ, ◌+◌, ◌-◌, Bool, true, false, ◌&&◌, ◌++◌, [], ◌∷◌, List, ltb, leb, ◌==◌, if◌then◌else◌, Option,
  none, some, length, get_elem?, set, is_empty,
}
use fitz_py.Errors.{Error, connection_error, request_queue_full, cancelled}

-- A future: `granted` has its result, `revoked` too but its task was cancelled after that, `failed`
-- has the exception that `close` sets.
pub data FutureState : Type 0 where
  pending granted revoked failed dropped : FutureState

pub record Waiter : Type 0 where
  pub id : ℕ
  pub state : FutureState

pub record RequestGate : Type 0 where
  pub maximum : ℕ
  pub queue_size : ℕ
  pub active : ℕ
  pub closed : Bool
  pub waiters : List Waiter

-- The gate, the futures out of the deque, and the `released` flags of the release tokens.
-- `strays` is no part of the program: it counts the futures that left the deque with no slot.
pub record World : Type 0 where
  pub gate : RequestGate
  pub open gate use *
  pub popped : List Waiter
  pub tokens : List Bool
  pub next_id : ℕ
  pub strays : ℕ

-- What a caller of `acquire` sees.
pub data Outcome : Type 0 where
  parked : Outcome
  raised : Error → Outcome
  acquired : ℕ → Outcome

unfoldable pub new_world : ℕ → ℕ → World
new_world maximum queue_size = record {
  gate = record {
    maximum = maximum;
    queue_size = queue_size;
    active = 0;
    closed = false;
    waiters = [];
  };
  popped = [];
  tokens = [];
  next_id = 0;
  strays = 0;
}

-- `_release_slot`: the loop over the deque.
unfoldable pub release_loop : List Waiter → World → World
release_loop [] w = record w { gate = record w.gate { waiters = []; active = w.active - 1 } }
release_loop (f ∷ rest) w = elim f.state [
  | pending ↦ record w {
    gate = record w.gate { waiters = rest };
    popped = record f { state = granted } ∷ w.popped;
  }
  | _ ↦ release_loop rest (record w { popped = f ∷ w.popped; strays = w.strays + 1 })
]

unfoldable pub release_slot : World → World
unfolding release_loop
release_slot w = release_loop w.waiters w

-- `_release_token`
unfoldable pub new_token : World → Outcome × World
new_token w = (acquired (length w.tokens), record w { tokens = w.tokens ++ (false ∷ []) })

-- `acquire`, up to its `await`.
unfoldable pub acquire : World → Outcome × World
unfolding new_token
acquire w =
    if w.closed
    then (raised connection_error, w)
    else if ltb w.active w.maximum && is_empty w.waiters
    then new_token (record w { gate = record w.gate { active = w.active + 1 } })
    else if leb w.queue_size (length w.waiters)
    then (raised request_queue_full, w)
    else (
      parked,
      record w {
        gate = record w.gate {
          waiters = w.waiters ++ (record { id = w.next_id; state = pending } ∷ []);
        };
        next_id = w.next_id + 1;
      },
    )

-- The future of a task, by its id.
unfoldable pub find : ℕ → List Waiter → Option FutureState
find i [] = none
find i (f ∷ fs) = if f.id == i then some f.state else find i fs

-- `deque.remove`
unfoldable pub remove : ℕ → List Waiter → List Waiter
remove i [] = []
remove i (f ∷ fs) = if f.id == i then fs else f ∷ remove i fs

-- `acquire`, from its `await` on, for a future that is not in the deque.
resume_popped : FutureState → World → Outcome × World
unfolding release_slot new_token
resume_popped pending w = (parked, w)
resume_popped granted w =
    if w.closed then (raised connection_error, release_slot w) else new_token w
resume_popped revoked w = (raised cancelled, release_slot w)
resume_popped failed w = (raised connection_error, release_slot w)
resume_popped dropped w = (raised cancelled, release_slot w)

-- For one that is: only a cancelled one runs, and removes itself.
resume_queued : ℕ → FutureState → World → Outcome × World
resume_queued i dropped w =
    (raised cancelled, record w { gate = record w.gate { waiters = remove i w.waiters } })
resume_queued i state w = (parked, w)

resume_out : ℕ → Option FutureState → World → Outcome × World
unfolding resume_popped
resume_out i none w = (parked, w)
resume_out i (some pending) w = (parked, w)
resume_out i (some state) w = resume_popped state (record w { popped = remove i w.popped })

resume_at : ℕ → Option FutureState → World → Outcome × World
unfolding resume_queued resume_out
resume_at i none w = resume_out i (find i w.popped) w
resume_at i (some state) w = resume_queued i state w

-- The task that waits on future `i` runs on.
unfoldable pub resume : ℕ → World → Outcome × World
unfolding resume_at
resume i w = resume_at i (find i w.waiters) w

-- The task that waits on a future is cancelled: a pending future becomes cancelled, and a task whose
-- future is done gets `CancelledError` when it runs, in place of its result or exception.
unfoldable pub cancel_future : FutureState → FutureState
cancel_future pending = dropped
cancel_future granted = revoked
cancel_future failed = dropped
cancel_future state = state

unfoldable pub cancel_in : ℕ → List Waiter → List Waiter
unfolding cancel_future
cancel_in i [] = []
cancel_in i (f ∷ fs) =
    if f.id == i then record f { state = cancel_future f.state } ∷ fs else f ∷ cancel_in i fs

unfoldable pub cancel : ℕ → World → World
unfolding cancel_in
cancel i w = record w {
  gate = record w.gate { waiters = cancel_in i w.waiters };
  popped = cancel_in i w.popped;
}

-- The closure `release` of a token: its second call does nothing.
release_flag : ℕ → Option Bool → World → World
unfolding release_slot
release_flag t (some false) w = release_slot (record w { tokens = set w.tokens t true })
release_flag t _ w = w

unfoldable pub release : ℕ → World → World
unfolding release_flag
release t w = release_flag t (get_elem? w.tokens t) w

-- `waiter.set_exception(error)` on every future that is not done.
abbrev fail_state : FutureState → FutureState
fail_state pending = failed
fail_state state = state

unfoldable pub fail_all : List Waiter → List Waiter → List Waiter
fail_all [] popped = popped
fail_all (f ∷ fs) popped = record f { state = fail_state f.state } ∷ fail_all fs popped

unfoldable pub close : World → World
unfolding fail_all
close w = if w.closed then w else record w {
  gate = record w.gate { closed = true; waiters = [] };
  popped = fail_all w.waiters w.popped;
  strays = w.strays + length w.waiters;
}

pub data Event : Type 0 where
  acquires closes : Event
  resumes cancels releases : ℕ → Event

unfoldable pub step : Event → World → World
unfolding acquire resume cancel release close
step acquires w = (acquire w).1
step closes w = close w
step (resumes i) w = (resume i w).1
step (cancels i) w = cancel i w
step (releases t) w = release t w

unfoldable pub run : List Event → World → World
unfolding step
run [] w = w
run (e ∷ es) w = run es (step e w)
