-- ===== src/Runtime/Subscription.antt =====
-- _runtime.py, `AsyncSubscription`: the bounded queue of one local consumer. Between two `await`s a
-- method runs alone. The callbacks `on_push` and `on_failure`, which the registries of the queue and
-- key-value clients leave unset, are left out.
pub mod Backpressure
use fitz_py.Prelude.{
  ℕ, Bool, true, false, ◌&&◌, ◌++◌, [], ◌∷◌, List, ltb, leb, if◌then◌else◌, length, is_empty,
}
use fitz_py.Errors.{Error, Result, ok, err, subscription_backpressure}

-- What stands in the queue: an item, an exception, or the mark `_END`.
pub data Slot (T : Type 0) : Type 0 where
  item : T → Slot T
  failure : Error → Slot T
  ending : Slot T

pub record AsyncSubscription (T : Type 0) : Type 0 where
  pub capacity : ℕ
  pub queue : List (Slot T)
  pub closed : Bool
  pub wire_closed : Bool

-- What `__anext__` does: it returns, raises, stops the iteration, or waits for the queue to fill.
pub data Next (T : Type 0) : Type 0 where
  yields : T → Next T
  raises : Error → Next T
  stops : Next T
  waits : Next T

module _ {T : Type 0} where
  unfoldable pub new_subscription : ℕ → AsyncSubscription T
  new_subscription capacity = record {
    capacity = capacity;
    queue = [];
    closed = false;
    wire_closed = false;
  }

  -- `asyncio.Queue` takes a size of 0 for no bound.
  unfoldable pub full : AsyncSubscription T → Bool
  full s = ltb 0 s.capacity && leb s.capacity (length s.queue)

  -- `fail` and `finish` on a subscription that is open.
  abbrev end_with : Slot T → AsyncSubscription T → AsyncSubscription T
  end_with slot s = record s { closed = true; queue = slot ∷ [] }

  unfoldable pub fail : Error → AsyncSubscription T → AsyncSubscription T
  fail e s = if s.closed then s else end_with (failure e) s

  unfoldable pub finish : AsyncSubscription T → AsyncSubscription T
  finish s = if s.closed then s else end_with ending s

  unfoldable pub push : T → AsyncSubscription T → Bool × AsyncSubscription T
  push x s =
      if s.closed
      then (false, s)
      else if full s
      then (false, fail subscription_backpressure s)
      else (true, record s { queue = s.queue ++ (item x ∷ []) })

  got : Slot T → AsyncSubscription T → Next T × AsyncSubscription T
  got (item x) s = (yields x, s)
  got (failure e) s = (raises e, record s { closed = true })
  got ending s = (stops, s)

  taken : List (Slot T) → AsyncSubscription T → Next T × AsyncSubscription T
  unfolding got
  taken [] s = (waits, s)
  taken (slot ∷ slots) s = got slot (record s { queue = slots })

  -- `__anext__`
  unfoldable pub next : AsyncSubscription T → Next T × AsyncSubscription T
  unfolding taken
  next s = if s.closed && is_empty s.queue then (stops, s) else taken s.queue s

  -- `aclose`, with what `_close_wire` returns or raises.
  unfoldable pub aclose :
      Result (Unit {0}) → AsyncSubscription T → Result (Unit {0}) × AsyncSubscription T
  aclose wire s =
      if s.wire_closed then (ok tt, s) else (wire, finish (record s { wire_closed = true }))

  -- The pushes of several items, one after the other.
  unfoldable pub pushes : List T → AsyncSubscription T → AsyncSubscription T
  pushes [] s = s
  pushes (x ∷ xs) s = pushes xs (push x s).1
