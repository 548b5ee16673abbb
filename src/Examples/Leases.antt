-- ===== src/Examples/Leases.antt =====
-- The lease client at concrete inputs.
use fitz_py.Prelude.{List, ◌≡◌, refl, true, false, inl, inr, [], ◌∷◌, none, some, arith}
use fitz_py.Errors.{ok, err, connection_error, cancelled, ◌>>=◌}
use fitz_py.Text.{codes, startswith, split, contains, str_eq}
use fitz_py.Text.Utf8.{encode_utf8, encode_point}
use fitz_py.Domains.Routes.{
  parts_of, checked_parts, has_star, is_star, is_double_star, ends_double, is_selector_route_shape,
  interior_shape, adjacent, fixed,
}
use fitz_py.Domains.Link.{Link}
use fitz_py.Domains.Lease.Client.{list_leases}
use fitz_py.Domains.Lease.Pages.{Stored, IsStored}
use fitz_py.Domains.Lease.Listing.{
  Inventory, IsInventory, IsListable, replies_from, items_from, frames_from, list_leases-items_from,
}
use fitz_py.Domains.Lease.Acquire.{
  Acquires, arrive, enter, answer, cancel, queued_reply, drained, resume, disconnect, final_token,
  ended, no_acquires, steps, step, enter_call, cancel_held, step_call, decode_acquire,
}
use fitz_py.Domains.Lease.Observer
use fitz_py.Domains.Lease.Observer.History.{history, no_history}
use fitz_py.Domains.Lease.Observer.Kept.{IsCurrent}
use fitz_py.Domains.Lease.Observer.Current.{steps-IsCurrent}
use fitz_py.Domains.Lease.Acquire.Turns.{IsTurn}
use fitz_py.Domains.Lease.Acquire.Kept.{steps-IsTurn}
use fitz_py.Domains.Lease.Acquire.Outcome.{
  queued_call, cancelled_call, HasEnded, queued_reply-HasEnded, disconnect-HasEnded,
}
use fitz_py.Domains.Lease.Acquire.Drain.{IsHeld, steps-IsHeld}

abbrev held : Stored
held = record {
  item = record {
    route = codes "lease://a/b/c";
    owner_id = codes "me";
    holder_incarnation = 7;
    acquired_at = codes "now";
    expires_in_secs = 30;
    renewals = 2;
  };
  route_bytes = codes "lease://a/b/c";
  owner_bytes = codes "me";
  since_bytes = codes "now";
}

held-IsStored : IsStored held
unfolding encode_utf8 encode_point
held-IsStored = record {
  route_encodes = refl;
  route_fits = omega arith;
  owner_encodes = refl;
  owner_fits = omega arith;
  since_encodes = refl;
  since_fits = omega arith;
  incarnation_fits = omega arith;
  expiry_fits = omega arith;
  renewals_fit = omega arith;
}

-- Two pages.
abbrev inventory : Inventory
inventory = record {
  first_pages = (held ∷ [], record { snapshot_id = 5; start = 1 }) ∷ [];
  last_page = held ∷ held ∷ [];
}

inventory-IsInventory : IsInventory inventory
inventory-IsInventory = (
  (((held-IsStored, tt), (omega arith, (omega arith, omega arith))), tt),
  ((held-IsStored, (held-IsStored, tt)), (omega arith, tt)),
)

abbrev idle : Link
idle = record {
  generation = 1;
  capability_ids = [];
  replies = [];
  sent = [];
  lost = false;
  attempts = 1;
}

abbrev link : Link
link = record idle { replies = replies_from idle inventory.first_pages inventory.last_page }

pattern-IsListable : IsListable (codes "lease://a/b/*") (codes "lease://a/b/*") none
unfolding is_selector_route_shape parts_of checked_parts has_star is_star is_double_star ends_double
    interior_shape adjacent fixed startswith split contains str_eq encode_utf8 encode_point
pattern-IsListable = record {
  shape = refl;
  encodes = refl;
  fits = omega arith;
  limit_fits = omega arith;
}

list_leases-items_from_example : list_leases (codes "lease://a/b/*") none link ≡ (
  record { items = items_from inventory.first_pages inventory.last_page; stop = ok tt },
  record link {
    replies = [];
    sent = frames_from (codes "lease://a/b/*") none none inventory.first_pages [];
  },
)
list_leases-items_from_example =
    list_leases-items_from (codes "lease://a/b/*") (codes "lease://a/b/*") none inventory link []
      pattern-IsListable inventory-IsInventory refl

-- A call that waits has got its place in the queue.
abbrev waiting_call : Acquires
waiting_call = record {
  locked = true;
  queued = 0 ∷ [];
  calls = queued_call (ok (1 ∷ [])) none ∷ [];
  sent = (1 ∷ []) ∷ [];
}

-- It is cancelled there.
abbrev cancelled_there : Acquires
cancelled_there = record waiting_call { calls = cancelled_call (ok (1 ∷ [])) none ∷ [] }

steps-IsTurn_example :
    IsTurn (steps (arrive true (ok (1 ∷ [])) ∷ enter 0 ∷ cancel 0 ∷ disconnect ∷ []) no_acquires)
steps-IsTurn_example =
    steps-IsTurn (arrive true (ok (1 ∷ [])) ∷ enter 0 ∷ cancel 0 ∷ disconnect ∷ [])

waiting_call-IsTurn : IsTurn waiting_call
waiting_call-IsTurn = record {
  fresh = refl;
  turn = inr (
    0,
    (
      queued_call (ok (1 ∷ [])) none,
      record {
        locked = refl;
        one = refl;
        at = refl;
        holding = refl;
        line = inl (refl, (refl, refl));
      },
    ),
  );
}

-- An acquire request of a caller that waits is cancelled before its answer.
cancelled_there-IsTurn : IsTurn cancelled_there
cancelled_there-IsTurn = record {
  fresh = refl;
  turn = inr (
    0,
    (
      cancelled_call (ok (1 ∷ [])) none,
      record {
        locked = refl;
        one = refl;
        at = refl;
        holding = refl;
        line = inl (refl, (refl, refl));
      },
    ),
  );
}

cancelled_there-reached :
    steps (arrive true (ok (1 ∷ [])) ∷ enter 0 ∷ cancel 0 ∷ []) no_acquires ≡ cancelled_there
unfolding steps step step_call enter_call cancel_held no_acquires
cancelled_there-reached = refl

queued_reply-HasEnded_example :
    HasEnded 0
      (record (queued_call (ok (1 ∷ [])) (some (ok (2 ∷ [])))) {
        phase = ended (decode_acquire (2 ∷ []) >>= final_token);
      })
      waiting_call
      (step (resume 0) (step (queued_reply (2 ∷ [])) waiting_call))
queued_reply-HasEnded_example =
    queued_reply-HasEnded waiting_call 0 (ok (1 ∷ [])) (2 ∷ []) waiting_call-IsTurn refl

disconnect-HasEnded_example :
    HasEnded 0
      (record (cancelled_call (ok (1 ∷ [])) (some (err connection_error))) {
        phase = ended (err cancelled);
      })
      cancelled_there
      (step (drained 0) (step disconnect cancelled_there))
disconnect-HasEnded_example =
    disconnect-HasEnded cancelled_there 0 true (ok (1 ∷ [])) none cancelled_there-IsTurn refl

steps-IsHeld_example : IsHeld 0 (cancelled_call (ok (1 ∷ [])) none) ((1 ∷ []) ∷ []) (
    steps
      (arrive false (ok (3 ∷ [])) ∷ enter 1 ∷ answer 0 (ok (0 ∷ [])) ∷ drained 0 ∷ [])
      cancelled_there)
steps-IsHeld_example =
    steps-IsHeld (arrive false (ok (3 ∷ [])) ∷ enter 1 ∷ answer 0 (ok (0 ∷ [])) ∷ drained 0 ∷ []) 0
      (ok (1 ∷ [])) cancelled_there cancelled_there-IsTurn refl refl

-- A bootstrap that a periodic reconciliation meets, and then a notification.
abbrev overtaken : List Observer.Event
overtaken =
    Observer.woke
    ∷ Observer.began
    ∷ Observer.reconcile
    ∷ Observer.listed (record { items = held.item ∷ []; stop = ok tt })
    ∷ Observer.woke
    ∷ Observer.began
    ∷ Observer.notified
    ∷ []

steps-IsCurrent_example :
    IsCurrent
      (history overtaken (Observer.started 4) no_history)
      (Observer.steps overtaken (Observer.started 4))
steps-IsCurrent_example = steps-IsCurrent overtaken 4

-- The observer says that it is ready, and its view has been disturbed.
ready_and_overtaken :
    ((Observer.steps overtaken (Observer.started 4)).ready ≡ true)
    × ((history overtaken (Observer.started 4) no_history).clean ≡ false)
unfolding history Observer.steps Observer.step Observer.started Observer.wake Observer.begin
    Observer.reconcile_now Observer.end_list Observer.installed Observer.is_raced
    Observer.note_notification Observer.enqueue_change
ready_and_overtaken = (refl, refl)
