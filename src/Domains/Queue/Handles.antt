-- ===== src/Domains/Queue/Handles.antt =====
-- When a reserved item can still be settled.
use fitz_py.Prelude.{ℕ, Bool, true, false, not, ◌||◌, ◌==◌, ◌≡◌, ◌≢◌, ◌⊎◌, inl, inr, refl, arith}
use fitz_py.Errors.{ok, err, stale_handle}
use fitz_py.Exec.{Ensures, Ensures-pure, Ensures-bind, guard}
use fitz_py.Domains.Link.{Link}
use fitz_py.Domains.Queue.{
  QueueItem, ensure_valid, complete_wire, nack_wire, complete, nack, extend,
}

-- No operation on the handle reaches the connection: each raises, and nothing is sent.
abbrev pub IsStale : QueueItem → Link → Type 0
IsStale item s =
    (complete item s ≡ (err (stale_handle "Queue item"), s))
    × ((visibility : ℕ) → nack item visibility s ≡ (err (stale_handle "Queue item"), s))
    × ((lease : ℕ) → extend item lease s ≡ (err (stale_handle "Queue item"), s))

ensure_valid-IsStale :
    (item : QueueItem) (s : Link)
    → ensure_valid item s ≡ (err (stale_handle "Queue item"), s)
    → IsStale item s
unfolding complete nack extend
ensure_valid-IsStale item s h = (rw h refl, λ v. rw h refl, λ l. rw h refl)

closed-IsStale : (item : QueueItem) → item.closed ≡ true → (s : Link) → IsStale item s
unfolding ensure_valid
closed-IsStale item h s = ensure_valid-IsStale item s (rw h refl)

complete-closed : (item : QueueItem) → Ensures (λ done. done.closed ≡ true) (complete item)
unfolding complete
complete-closed item = Ensures-bind {A = Unit {0}} (ensure_valid item) _ (λ u.
    Ensures-bind {A = Unit {0}} (complete_wire item.route item.id item.token) _
      (λ v. Ensures-pure (record item { closed = true }) refl))

nack-closed : (item : QueueItem) (v : ℕ) → Ensures (λ done. done.closed ≡ true) (nack item v)
unfolding nack
nack-closed item v = Ensures-bind {A = Unit {0}} (ensure_valid item) _ (λ u.
    Ensures-bind {A = Unit {0}} (nack_wire item.route item.id item.token v) _
      (λ w. Ensures-pure (record item { closed = true }) refl))

-- An item that `complete` or `nack` settled is not settled again, nor extended: on any later state
-- of the connection each of the three operations on it raises and sends nothing.
pub settled_once :
    (item done : QueueItem) (visibility : ℕ) (s : Link)
    → ((complete item s).0 ≡ ok done) ⊎ ((nack item visibility s).0 ≡ ok done)
    → (later : Link) → IsStale done later
settled_once item done visibility s (inl h) later =
    closed-IsStale done ((complete-closed item).at s done h) later
settled_once item done visibility s (inr h) later =
    closed-IsStale done ((nack-closed item visibility).at s done h) later

-- An item of an earlier generation of the connection is dead: each operation on it raises and sends
-- nothing.
pub generation-IsStale :
    (item : QueueItem) (s : Link) → item.generation ≢ s.generation → IsStale item s
unfolding ensure_valid
generation-IsStale item s h =
    let e : (item.generation == s.generation) ≡ false = ground arith in
    ensure_valid-IsStale item s (rw e (both item.closed))
  where
    both :
        (b : Bool)
        → guard {S = Link} (not (b || not false)) (stale_handle "Queue item") s
          ≡ (err (stale_handle "Queue item"), s)
    both true = refl
    both false = refl
