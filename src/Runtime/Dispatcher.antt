-- ===== src/Runtime/Dispatcher.antt =====
-- _runtime.py, `AsyncDispatcher`: at most `maximum` handlers run at once, and at most `queue_size`
-- wait. A work is a number; a task ends by `_completed`. What `_run` does inside a task, its timeout
-- and `on_error`, is left out.
pub mod Bounded
use fitz_py.Prelude.{
  ℕ, Bool, true, false, not, ◌&&◌, ◌++◌, [], ◌∷◌, List, ltb, leb, ◌==◌, if◌then◌else◌, length, any,
}

pub record AsyncDispatcher : Type 0 where
  pub maximum : ℕ
  pub queue_size : ℕ
  pub active : List ℕ
  pub queued : List ℕ
  pub closed : Bool

unfoldable pub new_dispatcher : ℕ → ℕ → AsyncDispatcher
new_dispatcher maximum queue_size = record {
  maximum = maximum;
  queue_size = queue_size;
  active = [];
  queued = [];
  closed = false;
}

-- `_start`
unfoldable pub start : ℕ → AsyncDispatcher → AsyncDispatcher
start work d = record d { active = d.active ++ (work ∷ []) }

unfoldable pub dispatch : ℕ → AsyncDispatcher → Bool × AsyncDispatcher
dispatch work d =
    if d.closed
    then (false, d)
    else if ltb (length d.active) d.maximum
    then (true, start work d)
    else if leb d.queue_size (length d.queued)
    then (false, d)
    else (true, record d { queued = d.queued ++ (work ∷ []) })

-- `set.discard`
unfoldable pub discard : ℕ → List ℕ → List ℕ
discard work [] = []
discard work (w ∷ ws) = if w == work then ws else w ∷ discard work ws

unfoldable pub start_next : List ℕ → AsyncDispatcher → AsyncDispatcher
start_next [] d = d
start_next (work ∷ queued) d = if d.closed then d else start work (record d { queued = queued })

-- `_completed`
unfoldable pub completed : ℕ → AsyncDispatcher → AsyncDispatcher
unfolding start_next
completed work d = start_next d.queued (record d { active = discard work d.active })

-- `close`, up to the wait for the cancelled tasks.
unfoldable pub close : AsyncDispatcher → AsyncDispatcher
close d = record d { closed = true; queued = [] }

-- A task completes only while it is active.
pub data Event : Type 0 where
  dispatches completes : ℕ → Event
  closes : Event

unfoldable pub step : Event → AsyncDispatcher → AsyncDispatcher
step (dispatches work) d = (dispatch work d).1
step (completes work) d = if any (λ w. w == work) d.active then completed work d else d
step closes d = close d

unfoldable pub run : List Event → AsyncDispatcher → AsyncDispatcher
run [] d = d
run (e ∷ es) d = run es (step e d)
