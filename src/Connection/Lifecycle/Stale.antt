-- ===== src/Connection/Lifecycle/Stale.antt =====
-- An attempt that another one has taken the connection from.
use fitz_py.Prelude.{ℕ, ◌<◌, ◌≡◌, false, [], ◌∷◌, List, if◌then◌else◌, arith}
use fitz_py.Prelude.Bytes.{Bytes}
use fitz_py.Errors.{err, connection_error}
use fitz_py.Multiplexer.{set_disconnected}
use fitz_py.Connection.{Connection, set_state, disconnected}
use fitz_py.Connection.Inbound.{dispatch_transport_frame}
use fitz_py.Connection.Inbound.Limits.{dispatch_transport_frame-Keeps}
use fitz_py.Connection.Lifecycle
use fitz_py.Connection.Retry.{after_attempt, exhausted}
use fitz_py.Connection.Lifecycle.Parts.{IsKept, receive_failed_kept, received_kept}

-- Transport `t` has been made, and is not the connection's.
pub record IsStale (t : ℕ) (c : Connection) : Type 0 where
  pub made : t < c.next_transport
  pub foreign : Lifecycle.is_own t c.transport ≡ false

end_receive-IsStale :
    (t u : ℕ) (c : Connection) → IsStale t c → IsStale t (Lifecycle.end_receive u c)
unfolding Lifecycle.end_receive
end_receive-IsStale t u c h = ground arith

connection_lost-IsStale :
    (t : ℕ) (c : Connection) → IsStale t c → IsStale t (Lifecycle.connection_lost c)
unfolding Lifecycle.connection_lost set_state
connection_lost-IsStale t c h = ground arith

dispatched-IsStale :
    (t : ℕ) (bs : Bytes) (c : Connection)
    → IsStale t c
    → IsStale t (dispatch_transport_frame bs c).1
dispatched-IsStale t bs c h =
    let k = (dispatch_transport_frame-Keeps bs).at c in
    record { made = rw k.same_next h.made; foreign = rw k.same_transport h.foreign }

kept-IsStale : (t : ℕ) → IsKept (IsStale t)
kept-IsStale t = record {
  ends = λ u c h. end_receive-IsStale t u c h;
  loses = connection_lost-IsStale t;
  rejects = λ k c h. record { made = h.made; foreign = h.foreign };
  dispatches = λ bs c e h. dispatched-IsStale t bs c h;
}

step-IsStale :
    (t : ℕ) (e : Lifecycle.Event) (c : Connection) → IsStale t c → IsStale t (Lifecycle.step e c)
unfolding Lifecycle.step Lifecycle.open_transport Lifecycle.begin_handshake Lifecycle.complete_open
    Lifecycle.end_handshake Lifecycle.abandon_open Lifecycle.fail_open Lifecycle.fail_closed
    Lifecycle.connection_lost Lifecycle.after_loss Lifecycle.close Lifecycle.finish_close
    Lifecycle.end_retry after_attempt exhausted set_state
step-IsStale t (Lifecycle.receives u bs) c h = received_kept (kept-IsStale t) u bs c h
step-IsStale t (Lifecycle.opens b) c h = ground arith
step-IsStale t (Lifecycle.transport_up u) c h = ground arith
step-IsStale t (Lifecycle.restored u) c h = ground arith
step-IsStale t (Lifecycle.answered u b) c h = ground arith
step-IsStale t (Lifecycle.failed_at u) c h = ground arith
step-IsStale t (Lifecycle.failed e) c h = ground arith
step-IsStale t (Lifecycle.receive_fails u e) c h = receive_failed_kept (kept-IsStale t) u e c h
step-IsStale t Lifecycle.failed_closed c h = ground arith
step-IsStale t Lifecycle.loses c h = ground arith
step-IsStale t Lifecycle.lost c h = ground arith
step-IsStale t Lifecycle.closes c h = ground arith
step-IsStale t Lifecycle.closes_transport c h = ground arith
step-IsStale t Lifecycle.retries c h = ground arith
step-IsStale t (Lifecycle.retry_ends r) c h = ground arith
step-IsStale t Lifecycle.retries_exhausted c h = ground arith

run-IsStale :
    (t : ℕ) (es : List Lifecycle.Event) (c : Connection)
    → IsStale t c
    → IsStale t (Lifecycle.run es c)
unfolding Lifecycle.run
run-IsStale t [] c h = h
run-IsStale t (e ∷ es) c h = run-IsStale t es (Lifecycle.step e c) (step-IsStale t e c h)

fails-state :
    (c : Connection)
    → (Lifecycle.fail_open connection_error c).state
      ≡ (if c.is_closed then c.state else disconnected)
unfolding Lifecycle.fail_open set_state
fails-state c = ground arith

IsStale-complete_open :
    (t : ℕ) (c : Connection)
    → IsStale t c
    → let d = (Lifecycle.complete_open t c).1 in
      ((Lifecycle.complete_open t c).0 ≡ err connection_error)
      × (d.state ≡ c.state)
      × (d.transport ≡ c.transport)
      × (d.multiplexer ≡ set_disconnected c.multiplexer)
      × IsStale t d
unfolding Lifecycle.complete_open Lifecycle.owns_transport Lifecycle.abandon_open
IsStale-complete_open t c h = ground arith

-- An attempt whose transport is no longer the connection's never gets it back, whatever happens,
-- later attempts included. Its end raises a connection error: it does not authenticate, fails the
-- requests that wait, whosoever they are, and leaves the transport of a later attempt in place; and
-- when it has closed its own transport, whatever happened meanwhile, the state becomes DISCONNECTED
-- unless the connection is closed.
pub stale_attempt :
    (t : ℕ) (es meanwhile : List Lifecycle.Event) (c : Connection)
    → IsStale t c
    → let d = Lifecycle.run es c in
      let raised = Lifecycle.complete_open t d in
      let f = Lifecycle.run meanwhile raised.1 in
      (raised.0 ≡ err connection_error)
      × (raised.1.state ≡ d.state)
      × (raised.1.transport ≡ d.transport)
      × (raised.1.multiplexer ≡ set_disconnected d.multiplexer)
      × (Lifecycle.is_own t f.transport ≡ false)
      × ((Lifecycle.fail_open connection_error f).state
          ≡ (if f.is_closed then f.state else disconnected))
stale_attempt t es meanwhile c h =
    let d = Lifecycle.run es c in
    let (raises, state, transport, requests, stale) =
      IsStale-complete_open t d (run-IsStale t es c h) in
    let f = Lifecycle.run meanwhile (Lifecycle.complete_open t d).1 in
    (raises, state, transport, requests, (run-IsStale t meanwhile _ stale).foreign, fails-state f)
