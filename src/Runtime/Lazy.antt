-- ===== src/Runtime/Lazy.antt =====
-- _runtime.py, `LazyAsyncContext` and `LazyAsyncIterator`: a resource that is opened once, on first
-- use, and closed with its owner. A step is a run of code without an `await`; `starting` says that a
-- `_start` holds the lock while it waits for the factory. Resources are numbers, `opened` and
-- `released` record the ones that the factory made and the ones that were closed, the last one
-- first. Every resource has a method to close it.
pub mod Balanced
use fitz_py.Prelude.{
  ℕ, Bool, true, false, List, [], ◌∷◌, Option, none, some, if◌then◌else◌, is_some,
}
use fitz_py.Errors.{Result, ok, err, connection_error, Error}

pub record Lazy : Type 0 where
  pub resource : Option ℕ
  pub closed : Bool
  pub starting : Bool
  pub opened : List ℕ
  pub released : List ℕ

unfoldable pub new_lazy : Lazy
new_lazy = record { resource = none; closed = false; starting = false; opened = []; released = [] }

-- `_start`, up to the call of the factory; a free lock is needed.
unfoldable pub start : Lazy → Lazy
start w =
    if w.starting
    then w
    else if w.closed
    then w
    else if is_some w.resource
    then w
    else record w { starting = true }

-- `_start`, after the factory returned.
unfoldable pub finish_start : ℕ → Lazy → Result ℕ × Lazy
finish_start r w =
    if w.closed
    then (
      err connection_error,
      record w { starting = false; opened = r ∷ w.opened; released = r ∷ w.released },
    )
    else (ok r, record w { starting = false; opened = r ∷ w.opened; resource = some r })

-- `aclose`, up to the lock.
unfoldable pub mark_closed : Lazy → Lazy
mark_closed w = record w { closed = true }

closing : Option ℕ → Lazy → Lazy
closing none w = w
closing (some r) w = record w { resource = none; released = r ∷ w.released }

-- `aclose`, with the lock.
unfoldable pub close_resource : Lazy → Lazy
unfolding closing
close_resource w = closing w.resource w

-- `opens` and `fails` are what the factory of the running `_start` comes back with.
pub data Event : Type 0 where
  starts fails closes drains : Event
  opens : ℕ → Event

unfoldable pub step : Event → Lazy → Lazy
step starts w = start w
step (opens r) w = if w.starting then (finish_start r w).1 else w
step fails w = record w { starting = false }
step closes w = mark_closed w
step drains w = if w.starting then w else close_resource w

unfoldable pub run : List Event → Lazy → Lazy
run [] w = w
run (e ∷ es) w = run es (step e w)
