-- ===== src/Examples/Gates.antt =====
-- _runtime.py at concrete inputs.
use fitz_py.Prelude.{◌⊎◌, ℕ, suc, ◌≡◌, ◌<◌, refl, List, [], ◌∷◌, true, false, some, arith}
use fitz_py.Errors.{subscription_backpressure}
use fitz_py.Runtime.Gate
use fitz_py.Runtime.Gate.{
  World, Waiter, pending, dropped, granted, new_world, find, release_slot, acquire, acquired,
  resume, raised, acquires, cancels, releases, resumes, closes, step,
}
use fitz_py.Runtime.Gate.Capacity.{Sound, held, gate-Sound}
use fitz_py.Runtime.Gate.Fair
use fitz_py.Runtime.Gate.Fair.{served_in_turn}
use fitz_py.Runtime.Gate.Overcommit.{overcommit}
use fitz_py.Runtime.Subscription.{failure, new_subscription, pushes}
use fitz_py.Runtime.Subscription.Backpressure.{pushes-new_subscription}
use fitz_py.Runtime.Lazy
use fitz_py.Runtime.Lazy.{Lazy, new_lazy, starts, opens, fails, closes, drains}
use fitz_py.Runtime.Lazy.Balanced.{IsBalanced, lazy-IsBalanced}
use fitz_py.Runtime.Dispatcher
use fitz_py.Runtime.Dispatcher.{new_dispatcher, dispatches, completes}
use fitz_py.Runtime.Dispatcher.Bounded.{IsBounded, dispatcher-IsBounded}

gate-Sound_example : Sound (Gate.run (acquires ∷ acquires ∷ releases 0 ∷ []) (new_world 1 4))
gate-Sound_example = gate-Sound 1 4 (acquires ∷ acquires ∷ releases 0 ∷ [])

-- A gate of two slots, both taken, with one waiter.
abbrev world : Waiter → List Waiter → World
world f fs = record {
  gate = record { maximum = 2; queue_size = 4; active = 2; closed = false; waiters = f ∷ fs };
  popped = [];
  tokens = false ∷ false ∷ [];
  next_id = 2;
  strays = 0;
}

abbrev gone : Waiter
gone = record { id = 0; state = dropped }

abbrev here : Waiter
here = record { id = 1; state = pending }

served_in_turn_example :
    let v = Fair.releases (suc (Fair.pending_count (gone ∷ []))) (world gone (here ∷ [])) in
    (v.waiters ≡ []) × (find 1 v.popped ≡ some granted) × ((resume 1 v).0 ≡ acquired 2)
unfolding find
served_in_turn_example = served_in_turn 1 (gone ∷ []) [] (world gone (here ∷ [])) refl refl refl

overcommit_example :
    2 < held (Gate.run (releases 0 ∷ resumes 0 ∷ acquires ∷ acquires ∷ []) (world gone [])).tokens
overcommit_example = overcommit (world gone []) 0 0 refl (omega arith) refl refl refl refl

abbrev shut : World
shut = record {
  gate = record { maximum = 2; queue_size = 4; active = 1; closed = true; waiters = [] };
  popped = gone ∷ [];
  tokens = false ∷ [];
  next_id = 1;
  strays = 0;
}

pushes-new_subscription_example : pushes {T = ℕ} (7 ∷ 8 ∷ 9 ∷ []) (new_subscription 2) ≡ record {
  capacity = 2;
  queue = failure subscription_backpressure ∷ [];
  closed = true;
  wire_closed = false;
}
pushes-new_subscription_example = pushes-new_subscription 2 (7 ∷ 8 ∷ 9 ∷ []) (omega arith)

dispatcher-IsBounded_example :
    IsBounded (Dispatcher.run (dispatches 5 ∷ dispatches 6 ∷ completes 5 ∷ []) (new_dispatcher 1 1))
dispatcher-IsBounded_example =
    dispatcher-IsBounded 1 1 (dispatches 5 ∷ dispatches 6 ∷ completes 5 ∷ [])

abbrev early : List Lazy.Event
early = starts ∷ closes ∷ opens 5 ∷ []

lazy-IsBalanced_example :
    IsBalanced (Lazy.run early new_lazy)
    × (((Lazy.run early new_lazy).starting ≡ true)
        ⊎ ((Lazy.step drains (Lazy.run early new_lazy)).opened
            ≡ (Lazy.step drains (Lazy.run early new_lazy)).released))
lazy-IsBalanced_example = lazy-IsBalanced early
