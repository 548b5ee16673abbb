-- ===== src/Domains/Lease/Observer/Current.antt =====
-- The view of an observer that says it is ready.
use fitz_py.Prelude.{ℕ, ◌≤◌, refl, true, false, [], ◌∷◌, List, length, arith, inl, inr}
use fitz_py.Domains.Lease.Observer.{
  Change, closed_mark, Observer, started, enqueue_change, Event, notified, consumed,
  subscription_failed, subscription_ended, subscription_replaced, reconnected, reconcile, closing,
  closed_down, woke, began, paused, listed, taken, note_subscription_failure, handle_reconnect,
  reconcile_now, close, end_close, tail, step, steps,
}
use fitz_py.Domains.Lease.Observer.History.{History, no_history, noted, history}
use fitz_py.Domains.Lease.Observer.Kept.{
  IsCurrent, IsKept, disturbed-IsKept, unready-IsKept, IsCurrent-same, notified-IsKept, if-IsKept,
  consumed-IsKept, replaced-IsKept, same-IsTracked, still-IsPassive, length-enqueue_change,
}
use fitz_py.Domains.Lease.Observer.Passes.{
  wake-IsKept, begin-IsKept, end_list-IsKept, end_pause-IsKept,
}

close-IsKept : (h : History) (o : Observer) → IsKept h o → IsKept h (close o)
unfolding close
close-IsKept h o i =
    if-IsKept h o.closed _ _ (λ k. i)
      (λ k. record {
        current =
            IsCurrent-same h h o _ i.current (refl, refl, refl, refl, refl, refl) refl
              i.current.bounded;
        tracked = tt;
        passive = tt;
      })

-- A change of the queue alone.
queue-IsKept :
    (h : History) (o : Observer) (cs : List Change)
    → length cs ≤ o.changes_maxsize
    → IsKept h o
    → IsKept h (record o { changes = cs })
queue-IsKept h o cs b i = record {
  current = IsCurrent-same h h o _ i.current (refl, refl, refl, refl, refl, refl) refl b;
  tracked = same-IsTracked o.loop h h o _ i.tracked refl refl refl refl;
  passive = still-IsPassive o.loop o _ i.passive (λ k. k);
}

length-tail : (cs : List Change) (n : ℕ) → length cs ≤ n → length (tail cs) ≤ n
length-tail [] n h = h
length-tail (c ∷ cs) n h = omega arith

step-IsKept :
    (e : Event) (h : History) (o : Observer) → IsKept h o → IsKept (noted e o h) (step e o)
unfolding step note_subscription_failure handle_reconnect reconcile_now end_close
step-IsKept notified h o i = notified-IsKept h o i
step-IsKept (consumed route) h o i = consumed-IsKept route h o i
step-IsKept subscription_failed h o i =
    disturbed-IsKept h o (note_subscription_failure o) i refl refl (λ k. refl) refl refl
      (omega arith) (omega arith) (inl (omega arith))
step-IsKept subscription_ended h o i =
    disturbed-IsKept h o (record o { subscription_ready = false; ready = false }) i refl refl
      (λ k. k) refl refl (omega arith) (omega arith) (inr (inr refl))
step-IsKept subscription_replaced h o i = replaced-IsKept h o i
step-IsKept reconnected h o i =
    disturbed-IsKept h o (handle_reconnect o) i refl refl (λ k. refl) refl refl (omega arith)
      (omega arith) (inl (omega arith))
step-IsKept reconcile h o i = if-IsKept h o.closed _ _ (λ k. i) (λ k. unready-IsKept h o true i)
step-IsKept closing h o i = close-IsKept h o i
step-IsKept closed_down h o i =
    queue-IsKept h o (enqueue_change o.changes_maxsize closed_mark o.changes)
      (length-enqueue_change o.changes_maxsize closed_mark o.changes i.current.has_room) i
step-IsKept woke h o i = wake-IsKept o.loop h o i
step-IsKept began h o i = begin-IsKept o.loop h o i.passive i
step-IsKept paused h o i = end_pause-IsKept o.loop h o i
step-IsKept (listed y) h o i = end_list-IsKept y o.loop h o i.passive i.tracked i
step-IsKept taken h o i =
    queue-IsKept h o (tail o.changes) (length-tail o.changes o.changes_maxsize i.current.bounded) i

steps-IsKept :
    (es : List Event) (h : History) (o : Observer)
    → IsKept h o
    → IsKept (history es o h) (steps es o)
unfolding steps history
steps-IsKept [] h o i = i
steps-IsKept (e ∷ es) h o i = steps-IsKept es (noted e o h) (step e o) (step-IsKept e h o i)

started-IsKept : (size : ℕ) → IsKept no_history (started size)
unfolding started
started-IsKept size = record {
  current = record {
    live = refl;
    fresh = refl;
    latest = inl refl;
    has_room = omega arith;
    bounded = omega arith;
  };
  tracked = tt;
  passive = tt;
}

-- From its start on, in whatever order notifications, failures, replacements and reconnections, the
-- periodic reconciliation, the beginnings and ends of LISTs and the closing come: while an observer
-- is ready and in its steady mode, its subscription is live, its view is what the LIST gave that
-- ended last, and no notification, loss, replacement or reconnection has come since that LIST began;
-- and its queue of changes never exceeds its bound.
pub steps-IsCurrent :
    (es : List Event) (size : ℕ)
    → IsCurrent (history es (started size) no_history) (steps es (started size))
steps-IsCurrent es size = (steps-IsKept es no_history (started size) (started-IsKept size)).current
