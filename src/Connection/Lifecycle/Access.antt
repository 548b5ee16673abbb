-- ===== src/Connection/Lifecycle/Access.antt =====
-- How a connection comes to be authenticated.
use fitz_py.Prelude.{ℕ, ◌≡◌, refl, ap, true, [], ◌∷◌, ◌++◌, List, arith, ◌⊎◌, inl, inr, Bool-cases}
use fitz_py.Connection.{authenticated, ClientConfig, Connection, set_state, new_connection}
use fitz_py.Connection.Inbound.Limits.{dispatch_transport_frame-Keeps}
use fitz_py.Connection.Lifecycle
use fitz_py.Connection.Retry.{after_attempt, exhausted}
use fitz_py.Connection.Lifecycle.Parts.{IsKept, receive_failed_kept, received_kept}
use fitz_py.Prelude.{◌≢◌, subst}
use fitz_py.Connection.{ConnectionState, disconnected}

-- `e` is the end of an attempt that still has the connection.
abbrev pub IsOwner : Lifecycle.Event → Connection → Type 0
IsOwner e c = (t : ℕ) × ((e ≡ Lifecycle.restored t) × (Lifecycle.owns_transport t c ≡ true))

-- A state other than `s` stays another one while the receiving task runs.
pub kept_out :
    (s : ConnectionState) (c : Connection)
    → s ≢ disconnected
    → IsKept (λ d. d.state ≡ s → c.state ≡ s)
unfolding Lifecycle.end_receive Lifecycle.connection_lost set_state
kept_out s c other = record {
  ends = λ t d h. ground arith;
  loses = λ d h. ground arith;
  rejects = λ k d h. h;
  dispatches = λ bs d e h. rw ((dispatch_transport_frame-Keeps bs).at d).same_state h;
}

pub step-authenticated :
    (e : Lifecycle.Event) (c : Connection)
    → (Lifecycle.step e c).state ≡ authenticated
    → (c.state ≡ authenticated) ⊎ IsOwner e c
unfolding Lifecycle.step Lifecycle.open_transport Lifecycle.begin_handshake Lifecycle.complete_open
    Lifecycle.end_handshake Lifecycle.abandon_open Lifecycle.fail_open Lifecycle.fail_closed
    Lifecycle.connection_lost Lifecycle.after_loss Lifecycle.close Lifecycle.finish_close
    Lifecycle.end_retry after_attempt exhausted set_state Lifecycle.owns_transport
step-authenticated (Lifecycle.restored t) c h = elim (Bool-cases (Lifecycle.owns_transport t c)) [
  | inl p ↦ inr (t, (refl, p))
  | inr p ↦ inl (ground (arith, p))
]
step-authenticated (Lifecycle.receives t bs) c h =
    inl (received_kept (kept_out authenticated c (λ q. cc)) t bs c (λ a. a) h)
step-authenticated (Lifecycle.opens b) c h = inl (ground arith)
step-authenticated (Lifecycle.transport_up t) c h = inl (ground arith)
step-authenticated (Lifecycle.answered t b) c h = inl (ground arith)
step-authenticated (Lifecycle.failed_at t) c h = inl h
step-authenticated (Lifecycle.failed e) c h = inl (ground arith)
step-authenticated (Lifecycle.receive_fails t e) c h =
    inl (receive_failed_kept (kept_out authenticated c (λ q. cc)) t e c (λ a. a) h)
step-authenticated Lifecycle.failed_closed c h = inl (ground arith)
step-authenticated Lifecycle.loses c h = inl (ground arith)
step-authenticated Lifecycle.lost c h = inl (ground arith)
step-authenticated Lifecycle.closes c h = inl (ground arith)
step-authenticated Lifecycle.closes_transport c h = inl h
step-authenticated Lifecycle.retries c h = inl (ground arith)
step-authenticated (Lifecycle.retry_ends r) c h = inl (ground arith)
step-authenticated Lifecycle.retries_exhausted c h = inl (ground arith)

-- The state is AUTHENTICATED, and stays so through these events.
abbrev pub StaysAuthenticated : List Lifecycle.Event → Connection → Type 0
StaysAuthenticated [] c = c.state ≡ authenticated
StaysAuthenticated (e ∷ es) c =
    (c.state ≡ authenticated) × StaysAuthenticated es (Lifecycle.step e c)

-- The events that led to the state, cut where the attempt ended; since then the state has not
-- changed.
abbrev pub IsAuthenticatedBy : List Lifecycle.Event → Connection → Type 0
IsAuthenticatedBy es c =
    (before : List Lifecycle.Event) × ((t : ℕ) × ((after : List Lifecycle.Event) × ((es
            ≡ before ++ (Lifecycle.restored t ∷ after))
          × ((Lifecycle.owns_transport t (Lifecycle.run before c) ≡ true)
              × StaysAuthenticated after
                  (Lifecycle.step (Lifecycle.restored t) (Lifecycle.run before c))))))

prepend :
    (e : Lifecycle.Event) (es : List Lifecycle.Event) (c : Connection)
    → IsAuthenticatedBy es (Lifecycle.step e c)
    → IsAuthenticatedBy (e ∷ es) c
unfolding Lifecycle.run
prepend e es c (before, (t, (after, (split, (owner, since))))) =
    (e ∷ before, (t, (after, (ap (λ l. e ∷ l) split, (owner, since)))))

stays-now :
    (es : List Lifecycle.Event) (c : Connection) → StaysAuthenticated es c → c.state ≡ authenticated
stays-now [] c h = h
stays-now (e ∷ es) c h = h.0

authenticated-split :
    (es : List Lifecycle.Event) (c : Connection)
    → (Lifecycle.run es c).state ≡ authenticated
    → StaysAuthenticated es c ⊎ IsAuthenticatedBy es c
unfolding Lifecycle.run
authenticated-split [] c h = inl h
authenticated-split (e ∷ es) c h = elim (authenticated-split es (Lifecycle.step e c) h) [
  | inr r ↦ inr (prepend e es c r)
  | inl since ↦ elim (step-authenticated e c (stays-now es (Lifecycle.step e c) since)) [
    | inl b ↦ inl (b, since)
    | inr (t, (same, owner)) ↦ inr (
      [],
      (
        t,
        (
          es,
          (
            ap (λ k. k ∷ es) same,
            (owner, subst (λ k. StaysAuthenticated es (Lifecycle.step k c)) same since),
          ),
        ),
      ),
    )
  ]
]

fresh :
    (config : ClientConfig) (concurrency handlers : ℕ)
    → ¬ ((new_connection config concurrency handlers).state ≡ authenticated)
unfolding new_connection
fresh config concurrency handlers p = cc

-- A connection is authenticated only by an attempt that ran to its end, that had the connection's
-- transport and its receiving task then, with the connection neither closed nor lost; and since the
-- end of that attempt the state has been AUTHENTICATED without a break: whatever else happened, in
-- whatever order.
pub authenticated_by :
    (config : ClientConfig) (concurrency handlers : ℕ) (es : List Lifecycle.Event)
    → (Lifecycle.run es (new_connection config concurrency handlers)).state ≡ authenticated
    → IsAuthenticatedBy es (new_connection config concurrency handlers)
authenticated_by config concurrency handlers es h =
    elim (authenticated-split es (new_connection config concurrency handlers) h) [
      | inl p ↦ absurd (
          fresh config concurrency handlers
            (stays-now es (new_connection config concurrency handlers) p))
      | inr r ↦ r
    ]
