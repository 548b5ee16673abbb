-- ===== src/Connection/Lifecycle/Machine.antt =====
-- The states of a connection as a machine of their own.
use fitz_py.Prelude.{
  ℕ, ◌≡◌, ◌≢◌, ◌⊎◌, inl, inr, refl, sym, subst, Bool, true, false, [], ◌∷◌, List, arith, Bool-cases,
  some, ◌==◌,
}
use fitz_py.Errors.{Error, Result, err, authentication_error, protocol_error}
use fitz_py.Connection.{
  ConnectionState, disconnected, connected, ClientConfig, Connection, new_connection, set_state,
  is_closed_state,
}
use fitz_py.Connection.Retry.{after_attempt, exhausted}
use fitz_py.Connection.Lifecycle
use fitz_py.Connection.Lifecycle.Parts.{receive_failed_kept, received_kept}
use fitz_py.Connection.Lifecycle.States.{
  IsUp, Drops, IsOver, IsUp-or_IsDown, lost-state, down-state, kept-Drops, kept-IsOver,
}
use fitz_py.Connection.Lifecycle.Transitions.{
  Transition, opens, reopens, handshakes, succeeds, refused, fails, loses, is_down, receives, drops,
  receive_ends, receive_fails, closes, retries, goes_on, outdated, exhausts, waits, stays, rejected,
  rejects,
}
use fitz_py.Connection.Lifecycle.Access.{kept_out}
use fitz_py.Connection.Lifecycle.Closing.{new_connection-IsSound, run-IsSound}

to :
    {e : Lifecycle.Event} {b : Bool} {s t u : ConnectionState}
    → Transition e b s t
    → u ≡ t
    → Transition e b s u
to {e} {b} {s} m q = subst (λ u. Transition e b s u) (sym q) m

step-connected :
    (e : Lifecycle.Event) (c : Connection)
    → (Lifecycle.step e c).state ≡ connected
    → c.state ≡ connected
unfolding Lifecycle.step Lifecycle.open_transport Lifecycle.begin_handshake Lifecycle.complete_open
    Lifecycle.end_handshake Lifecycle.abandon_open Lifecycle.fail_open Lifecycle.fail_closed
    Lifecycle.connection_lost Lifecycle.after_loss Lifecycle.close Lifecycle.finish_close
    Lifecycle.end_retry after_attempt exhausted set_state
step-connected (Lifecycle.receives t bs) c h =
    received_kept (kept_out connected c (λ q. cc)) t bs c (λ a. a) h
step-connected (Lifecycle.receive_fails t e) c h =
    receive_failed_kept (kept_out connected c (λ q. cc)) t e c (λ a. a) h
step-connected (Lifecycle.opens b) c h = ground arith
step-connected (Lifecycle.transport_up u) c h = ground arith
step-connected (Lifecycle.restored u) c h = ground arith
step-connected (Lifecycle.answered u b) c h = ground arith
step-connected (Lifecycle.failed_at u) c h = ground arith
step-connected (Lifecycle.failed e) c h = ground arith
step-connected Lifecycle.failed_closed c h = ground arith
step-connected Lifecycle.loses c h = ground arith
step-connected Lifecycle.lost c h = ground arith
step-connected Lifecycle.closes c h = ground arith
step-connected Lifecycle.closes_transport c h = ground arith
step-connected Lifecycle.retries c h = ground arith
step-connected (Lifecycle.retry_ends r) c h = ground arith
step-connected Lifecycle.retries_exhausted c h = ground arith

stays_in :
    (e : Lifecycle.Event) (s : ConnectionState) (d : Connection)
    → IsOver s d
    → Transition e true s d.state
stays_in e s d h = to (stays s e) h.final

retry_closed :
    (r : Result (Unit {0})) (c : Connection)
    → c.is_closed ≡ true
    → Transition
        (Lifecycle.retry_ends r)
        true
        c.state
        (Lifecycle.step (Lifecycle.retry_ends r) c).state
unfolding Lifecycle.step Lifecycle.end_retry after_attempt set_state
retry_closed (err authentication_error) c h = to (rejects c.state) (ground arith)
retry_closed r c h = to (stays c.state (Lifecycle.retry_ends r)) (ground arith)

step-closed :
    (e : Lifecycle.Event) (c : Connection)
    → c.is_closed ≡ true
    → Transition e true c.state (Lifecycle.step e c).state
unfolding Lifecycle.step Lifecycle.open_transport Lifecycle.begin_handshake Lifecycle.complete_open
    Lifecycle.end_handshake Lifecycle.abandon_open Lifecycle.fail_open Lifecycle.fail_closed
    Lifecycle.connection_lost Lifecycle.after_loss Lifecycle.close Lifecycle.finish_close
    Lifecycle.end_retry after_attempt exhausted set_state
step-closed (Lifecycle.receives t bs) c h =
    stays_in (Lifecycle.receives t bs) c.state (Lifecycle.received t bs c)
      (received_kept (kept-IsOver c.state) t bs c (record { shut = h; final = refl }))
step-closed (Lifecycle.receive_fails t e) c h =
    stays_in (Lifecycle.receive_fails t e) c.state (Lifecycle.receive_failed t e c)
      (receive_failed_kept (kept-IsOver c.state) t e c (record { shut = h; final = refl }))
step-closed Lifecycle.failed_closed c h = to (rejected c.state) (ground arith)
step-closed (Lifecycle.retry_ends r) c h = retry_closed r c h
step-closed e c h = to (stays c.state e) (ground arith)

dropped :
    (e : Lifecycle.Event) (s : ConnectionState) (d : Connection)
    → Transition e false s s
    → (IsUp s → Transition e false s disconnected)
    → Drops s d
    → Transition e false s d.state
dropped e s d same down (inl k) = to same k
dropped e s d same down (inr (u, k)) = to (down u) k

open_fails :
    (e : Error) (c : Connection)
    → c.is_closed ≡ false
    → Transition (Lifecycle.failed e) false c.state (Lifecycle.fail_open e c).state
unfolding Lifecycle.fail_open set_state
open_fails authentication_error c h = to (waits c.state _ refl) refl
open_fails e c h = to (fails c.state e (λ q. cc)) (ground arith)

retry_open :
    (r : Result (Unit {0})) (c : Connection)
    → c.is_closed ≡ false
    → Transition (Lifecycle.retry_ends r) false c.state (Lifecycle.end_retry r c).state
unfolding Lifecycle.end_retry after_attempt set_state
retry_open (err (protocol_error (some code))) c h = elim (Bool-cases (code == 50)) [
  | inl e ↦ to (outdated c.state _ code refl (ground arith)) (ground (arith, e))
  | inr e ↦ to (goes_on c.state _) (ground (arith, e))
]
retry_open r c h = to (goes_on c.state r) (ground arith)

restored_open :
    (t : ℕ) (c : Connection)
    → c.is_closed ≡ false
    → Transition (Lifecycle.restored t) false c.state (Lifecycle.complete_open t c).1.state
unfolding Lifecycle.complete_open Lifecycle.owns_transport Lifecycle.abandon_open set_state
restored_open t c h = elim (Bool-cases (Lifecycle.owns_transport t c)) [
  | inl p ↦ to (succeeds c.state t (λ q. ground (arith, p))) (ground (arith, p))
  | inr p ↦ to (refused c.state t) (ground (arith, p))
]

step-open :
    (e : Lifecycle.Event) (c : Connection)
    → c.is_closed ≡ false
    → Transition e false c.state (Lifecycle.step e c).state
unfolding Lifecycle.step Lifecycle.open_transport Lifecycle.begin_handshake Lifecycle.end_handshake
    Lifecycle.abandon_open Lifecycle.after_loss Lifecycle.close Lifecycle.finish_close exhausted
    set_state
step-open (Lifecycle.receives t bs) c h =
    dropped _ c.state (Lifecycle.received t bs c) (receives c.state t bs) (drops c.state t bs)
      (received_kept (kept-Drops c.state) t bs c (inl refl))
step-open (Lifecycle.receive_fails t e) c h =
    dropped _ c.state (Lifecycle.receive_failed t e c) (receive_ends c.state t e)
      (receive_fails c.state t e) (receive_failed_kept (kept-Drops c.state) t e c (inl refl))
step-open (Lifecycle.opens false) c h = to (opens c.state) (ground arith)
step-open (Lifecycle.opens true) c h = to (reopens c.state) (ground arith)
step-open (Lifecycle.transport_up t) c h = to (handshakes c.state t) (ground arith)
step-open (Lifecycle.restored t) c h = restored_open t c h
step-open (Lifecycle.answered t b) c h = to (waits c.state _ tt) (ground arith)
step-open (Lifecycle.failed_at t) c h = to (waits c.state _ tt) refl
step-open (Lifecycle.failed e) c h = open_fails e c h
step-open Lifecycle.failed_closed c h = to (waits c.state _ tt) (ground arith)
step-open Lifecycle.loses c h = elim (IsUp-or_IsDown c.state) [
  | inl u ↦ to (loses c.state u) (lost-state c h u)
  | inr d ↦ to (is_down c.state d) (down-state c d)
]
step-open Lifecycle.lost c h = to (waits c.state _ tt) (ground arith)
step-open Lifecycle.closes c h = to (closes c.state) (ground arith)
step-open Lifecycle.closes_transport c h = to (waits c.state _ tt) refl
step-open Lifecycle.retries c h = to (retries c.state) (ground arith)
step-open (Lifecycle.retry_ends r) c h = retry_open r c h
step-open Lifecycle.retries_exhausted c h = to (exhausts c.state) (ground arith)

step-Transition :
    (e : Lifecycle.Event) (c : Connection)
    → Transition e c.is_closed c.state (Lifecycle.step e c).state
step-Transition e c = elim (Bool-cases c.is_closed) [
  | inl h ↦
      subst (λ b. Transition e b c.state (Lifecycle.step e c).state) (sym h) (step-closed e c h)
  | inr h ↦ subst (λ b. Transition e b c.state (Lifecycle.step e c).state) (sym h) (step-open e c h)
]

run-connected :
    (es : List Lifecycle.Event) (c : Connection)
    → (Lifecycle.run es c).state ≡ connected
    → c.state ≡ connected
unfolding Lifecycle.run
run-connected [] c h = h
run-connected (e ∷ es) c h = step-connected e c (run-connected es (Lifecycle.step e c) h)

fresh :
    (config : ClientConfig) (concurrency handlers : ℕ)
    → (new_connection config concurrency handlers).state ≢ connected
unfolding new_connection
fresh config concurrency handlers h = cc

-- Whatever has happened to a new connection, each further event moves its state by the step of the
-- machine that belongs to that event, or leaves it where the machine says so: opening, the handshake,
-- success, failure, loss, reconnecting and closing each lead to one state. Success is not reached
-- from DISCONNECTED; a loss is one only from a state that is up; and once the connection is closed
-- the state can only stay or become CLOSED. Between two events the state is never CONNECTED, and it
-- is CLOSED only for a closed connection.
pub run-Transition :
    (config : ClientConfig) (concurrency handlers : ℕ) (es : List Lifecycle.Event)
    (e : Lifecycle.Event)
    → let c = Lifecycle.run es (new_connection config concurrency handlers) in
      Transition e c.is_closed c.state (Lifecycle.step e c).state
      × (c.state ≢ connected)
      × ((is_closed_state c.state ≡ false) ⊎ (c.is_closed ≡ true))
run-Transition config concurrency handlers es e =
    let c = new_connection config concurrency handlers in
    let sound = run-IsSound es c (new_connection-IsSound config concurrency handlers) in
    (
      step-Transition e (Lifecycle.run es c),
      λ h. fresh config concurrency handlers (run-connected es c h),
      sound.shut,
    )
