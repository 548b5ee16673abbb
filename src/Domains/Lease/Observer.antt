-- ===== src/Domains/Lease/Observer.antt =====
-- domains/lease.py: `LeaseInventoryObserver`. A step is what one of its tasks does between two
-- awaits, or what a callback does; the lock, which no task holds over an await, is left out, and so
-- are the pauses, whose ends are events, and the reports of failures.
pub mod History
pub mod Kept
pub mod Passes
pub mod Current
use fitz_py.Prelude.{
  ℕ, suc, Bool, true, false, not, ◌&&◌, ◌||◌, ◌++◌, [], ◌∷◌, List, ltb, ◌==◌, if◌then◌else◌, Option,
  none, some, length, is_empty, max,
}
use fitz_py.Prelude.Dict.{Dict, put}
use fitz_py.Errors.{Error, Result, ok, err}
use fitz_py.Text.{Str, str_key}
use fitz_py.Domains.Lease.{LeaseListItem}
use fitz_py.Domains.Lease.Client.{Yielded}

-- Where `_bootstrap_loop` stands: at `_invalidate`; past it, at `_subscription_ready`; in a LIST, with
-- the two generations that it began with; in the pause after a pass that was raced; in the pause
-- after a failure; over.
pub data Loop : Type 0 where
  idle woken raced_pause failed_pause stopped : Loop
  listing : ℕ → ℕ → Loop

-- An entry of the queue of changes: `None` for a new view, or the mark of the end.
pub data Change : Type 0 where
  whole_view closed_mark : Change

-- `steady` is `_mode == "steady"`.
pub record Observer : Type 0 where
  pub view : Dict Str LeaseListItem
  pub ready : Bool
  pub closed : Bool
  pub steady : Bool
  pub buffer : List Str
  pub notification_generation : ℕ
  pub subscription_generation : ℕ
  pub subscription_ready : Bool
  pub invalidate : Bool
  pub changes : List Change
  pub changes_maxsize : ℕ
  pub loop : Loop

-- `__init__`, and `_start` up to the tasks.
unfoldable pub started : ℕ → Observer
started changes_maxsize = record {
  view = [];
  ready = false;
  closed = false;
  steady = false;
  buffer = [];
  notification_generation = 0;
  subscription_generation = 1;
  subscription_ready = true;
  invalidate = true;
  changes = [];
  changes_maxsize = max 1 changes_maxsize;
  loop = idle;
}

-- `_enqueue_change`: the oldest entries go until there is room.
unfoldable pub enqueue_change : ℕ → Change → List Change → List Change
enqueue_change size change [] = change ∷ []
enqueue_change size change (c ∷ cs) =
    let rest = enqueue_change size change cs in
    if ltb (length (c ∷ cs)) size then (c ∷ cs) ++ (change ∷ []) else rest

-- `_full_list`, from what the iterator yields: the last item of a route counts.
unfoldable pub view_of : Dict Str LeaseListItem → List LeaseListItem → Dict Str LeaseListItem
view_of view [] = view
view_of view (item ∷ items) = view_of (put item.route item view) items

pub data Event : Type 0 where
  -- `_note_notification`, and `_consume` with a route from the queue
  notified : Event
  consumed : Str → Event
  -- `_note_subscription_failure`; the clean end of a subscription; its replacement
  subscription_failed subscription_ended subscription_replaced : Event
  -- `_handle_reconnect`; the period of `_reconcile_loop`; `close` and its
  -- end
  reconnected reconcile closing closed_down : Event
  -- `_bootstrap_loop`: it gets past `_invalidate`, past `_subscription_ready`, its LIST ends, its
  -- pause ends
  woke began paused : Event
  listed : Yielded → Event
  -- `changes` gets an entry
  taken : Event

unfoldable pub note_notification : Observer → Observer
note_notification o =
    if o.steady
    then record o {
      notification_generation = suc o.notification_generation;
      ready = false;
      invalidate = true;
    }
    else record o { notification_generation = suc o.notification_generation }

unfoldable pub consume : Str → Observer → Observer
consume route o =
    if o.steady
    then record o { ready = false; invalidate = true }
    else record o { buffer = o.buffer ++ (route ∷ []) }

unfoldable pub note_subscription_failure : Observer → Observer
note_subscription_failure o = record o {
  subscription_generation = suc o.subscription_generation;
  subscription_ready = false;
  ready = false;
  steady = false;
  buffer = [];
  invalidate = true;
}

-- A replacement is made only after a failure.
unfoldable pub replace_subscription : Observer → Observer
replace_subscription o = if o.subscription_ready then o else record o {
  subscription_generation = suc o.subscription_generation;
  subscription_ready = true;
  invalidate = true;
}

unfoldable pub handle_reconnect : Observer → Observer
handle_reconnect o = record o {
  ready = false;
  steady = false;
  buffer = [];
  subscription_generation = suc o.subscription_generation;
  invalidate = true;
}

unfoldable pub wake : Loop → Observer → Observer
wake idle o =
    if o.invalidate
    then (if o.closed
        then record o { loop = stopped }
        else record o { invalidate = false; loop = woken })
    else o
wake l o = o

-- A pass of LIST begins with the generations of the moment.
abbrev pub begin_list : Observer → Observer
begin_list o = record o { loop = listing o.subscription_generation o.notification_generation }

-- The start of `_bootstrap`, and its next round after a pause.
unfoldable pub begin : Loop → Observer → Observer
begin woken o =
    if o.subscription_ready
    then begin_list (record o { invalidate = false; steady = false; buffer = [] })
    else o
begin raced_pause o = if o.subscription_ready then begin_list o else o
begin l o = o

-- `raced`
unfoldable pub is_raced : ℕ → ℕ → Observer → Bool
is_raced subscription_generation start_generation o =
    not (is_empty o.buffer)
    || (not (o.notification_generation == start_generation)
        || (not o.subscription_ready || not (o.subscription_generation == subscription_generation)))

unfoldable pub installed : ℕ → ℕ → List LeaseListItem → Observer → Observer
installed subscription_generation start_generation items o =
    if is_raced subscription_generation start_generation o
    then record o { buffer = []; loop = raced_pause }
    else record o {
      view = view_of [] items;
      steady = true;
      buffer = [];
      ready = true;
      changes = enqueue_change o.changes_maxsize whole_view o.changes;
      loop = idle;
    }

-- The end of a LIST; a failure of it clears readiness.
unfoldable pub end_list : Yielded → Loop → Observer → Observer
end_list y (listing subscription_generation start_generation) o = elim y.stop as (λ _. Observer) [
  | ok u ↦ installed subscription_generation start_generation y.items o
  | err e ↦ record o { ready = false; loop = failed_pause }
]
end_list y l o = o

unfoldable pub end_pause : Loop → Observer → Observer
end_pause failed_pause o = record o { invalidate = true; loop = idle }
end_pause l o = o

unfoldable pub reconcile_now : Observer → Observer
reconcile_now o = if o.closed then o else record o { ready = false; invalidate = true }

-- `close`, which cancels the tasks, up to the end of the tasks.
unfoldable pub close : Observer → Observer
close o = if o.closed then o else record o { closed = true; invalidate = true; loop = stopped }

-- The end of `close`.
unfoldable pub end_close : Observer → Observer
end_close o = record o { changes = enqueue_change o.changes_maxsize closed_mark o.changes }

abbrev pub tail : List Change → List Change
tail [] = []
tail (c ∷ cs) = cs

unfoldable pub step : Event → Observer → Observer
step notified o = note_notification o
step (consumed route) o = consume route o
step subscription_failed o = note_subscription_failure o
step subscription_ended o = record o { subscription_ready = false; ready = false }
step subscription_replaced o = replace_subscription o
step reconnected o = handle_reconnect o
step reconcile o = reconcile_now o
step closing o = close o
step closed_down o = end_close o
step woke o = wake o.loop o
step began o = begin o.loop o
step paused o = end_pause o.loop o
step (listed y) o = end_list y o.loop o
step taken o = record o { changes = tail o.changes }

unfoldable pub steps : List Event → Observer → Observer
steps [] o = o
steps (e ∷ es) o = steps es (step e o)
