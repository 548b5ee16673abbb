-- ===== src/Connection/Lifecycle/Closing.antt =====
-- What holds of a connection at every step.
use fitz_py.Prelude.{◌∙◌}
use fitz_py.Prelude.{ℕ, ◌≡◌, ◌⊎◌, inl, refl, Bool, true, false, [], ◌∷◌, List, if◌then◌else◌, arith}
use fitz_py.Prelude.Bytes.{Bytes}
use fitz_py.Errors.{Error, Result, err, connection_error}
use fitz_py.Runtime.Gate
use fitz_py.Connection.{
  ClientConfig, Connection, set_state, is_closed_state, new_connection, new_gate,
  ensure_authenticated,
}
use fitz_py.Connection.Inbound.{dispatch_transport_frame}
use fitz_py.Connection.Inbound.Limits.{dispatch_transport_frame-Keeps}
use fitz_py.Connection.Lifecycle
use fitz_py.Connection.Retry.{after_attempt, exhausted}
use fitz_py.Connection.Lifecycle.Parts.{IsKept, receive_failed_kept, received_kept}

-- `_closed` is set in the state CLOSED, and the gate of a closed connection is closed.
pub record IsSound (c : Connection) : Type 0 where
  pub shut : (is_closed_state c.state ≡ false) ⊎ (c.is_closed ≡ true)
  pub gate_shut : (c.is_closed ≡ false) ⊎ (c.gate.closed ≡ true)

pub gate-close : (w : Gate.World) → (Gate.close w).closed ≡ true
unfolding Gate.close
gate-close w = ground arith

open_transport-IsSound :
    (b : Bool) (c : Connection) → IsSound c → IsSound (Lifecycle.open_transport b c).1
unfolding Lifecycle.open_transport set_state new_gate Gate.new_world
open_transport-IsSound b c h = ground arith

begin_handshake-IsSound :
    (t : ℕ) (c : Connection) → IsSound c → IsSound (Lifecycle.begin_handshake t c)
unfolding Lifecycle.begin_handshake set_state
begin_handshake-IsSound t c h = ground arith

end_handshake-IsSound :
    (t : ℕ) (b : Bool) (c : Connection) → IsSound c → IsSound (Lifecycle.end_handshake t b c).1
unfolding Lifecycle.end_handshake Lifecycle.abandon_open
end_handshake-IsSound t b c h = ground arith

complete_open-IsSound :
    (t : ℕ) (c : Connection) → IsSound c → IsSound (Lifecycle.complete_open t c).1
unfolding Lifecycle.complete_open Lifecycle.abandon_open set_state
complete_open-IsSound t c h = ground arith

fail_open-IsSound : (e : Error) (c : Connection) → IsSound c → IsSound (Lifecycle.fail_open e c)
unfolding Lifecycle.fail_open set_state
fail_open-IsSound e c h = ground (arith, gate-close c.gate)

fail_closed-IsSound :
    (c : Connection) → IsSound c → IsSound (if c.is_closed then Lifecycle.fail_closed c else c)
unfolding Lifecycle.fail_closed set_state
fail_closed-IsSound c h = ground arith

connection_lost-IsSound : (c : Connection) → IsSound c → IsSound (Lifecycle.connection_lost c)
unfolding Lifecycle.connection_lost set_state
connection_lost-IsSound c h = ground (arith, gate-close c.gate)

close-IsSound : (c : Connection) → IsSound c → IsSound (Lifecycle.close c)
unfolding Lifecycle.close set_state
close-IsSound c h = ground (arith, gate-close c.gate)

abandon_open-IsSound : (t : ℕ) (c : Connection) → IsSound c → IsSound (Lifecycle.abandon_open t c)
unfolding Lifecycle.abandon_open
abandon_open-IsSound t c h = record { shut = h.shut; gate_shut = h.gate_shut }

after_loss-IsSound : (c : Connection) → IsSound c → IsSound (Lifecycle.after_loss c)
unfolding Lifecycle.after_loss
after_loss-IsSound c h = ground arith

finish_close-IsSound : (c : Connection) → IsSound c → IsSound (Lifecycle.finish_close c)
unfolding Lifecycle.finish_close
finish_close-IsSound c h = record { shut = h.shut; gate_shut = h.gate_shut }

end_receive-IsSound : (t : ℕ) (c : Connection) → IsSound c → IsSound (Lifecycle.end_receive t c)
unfolding Lifecycle.end_receive
end_receive-IsSound t c h = ground arith

dispatched-IsSound :
    (bs : Bytes) (c : Connection)
    → c.is_closed ≡ false
    → IsSound c
    → IsSound (dispatch_transport_frame bs c).1
dispatched-IsSound bs c e h = ground (arith, h, (dispatch_transport_frame-Keeps bs).at c)

kept-IsSound : IsKept IsSound
kept-IsSound = record {
  ends = end_receive-IsSound;
  loses = connection_lost-IsSound;
  rejects = λ k c h. record { shut = h.shut; gate_shut = h.gate_shut };
  dispatches = dispatched-IsSound;
}

set_state-IsSound : (c : Connection) → IsSound c → IsSound (Lifecycle.step Lifecycle.retries c)
unfolding Lifecycle.step set_state
set_state-IsSound c h = ground arith

end_retry-IsSound :
    (r : Result (Unit {0})) (c : Connection) → IsSound c → IsSound (Lifecycle.end_retry r c)
unfolding Lifecycle.end_retry after_attempt set_state
end_retry-IsSound r c h = ground arith

exhausted-IsSound : (c : Connection) → IsSound c → IsSound (exhausted c)
unfolding exhausted set_state
exhausted-IsSound c h = ground arith

pub step-IsSound : (e : Lifecycle.Event) (c : Connection) → IsSound c → IsSound (Lifecycle.step e c)
unfolding Lifecycle.step
step-IsSound (Lifecycle.opens b) c h = open_transport-IsSound b c h
step-IsSound (Lifecycle.transport_up t) c h = begin_handshake-IsSound t c h
step-IsSound (Lifecycle.restored t) c h = complete_open-IsSound t c h
step-IsSound (Lifecycle.answered t b) c h = end_handshake-IsSound t b c h
step-IsSound (Lifecycle.failed_at t) c h = abandon_open-IsSound t c h
step-IsSound (Lifecycle.failed e) c h = fail_open-IsSound e c h
step-IsSound (Lifecycle.receives t bs) c h = received_kept kept-IsSound t bs c h
step-IsSound (Lifecycle.receive_fails t e) c h = receive_failed_kept kept-IsSound t e c h
step-IsSound Lifecycle.failed_closed c h = fail_closed-IsSound c h
step-IsSound Lifecycle.loses c h = connection_lost-IsSound c h
step-IsSound Lifecycle.lost c h = after_loss-IsSound c h
step-IsSound Lifecycle.closes c h = close-IsSound c h
step-IsSound Lifecycle.closes_transport c h = finish_close-IsSound c h
step-IsSound Lifecycle.retries c h = set_state-IsSound c h
step-IsSound (Lifecycle.retry_ends r) c h = end_retry-IsSound r c h
step-IsSound Lifecycle.retries_exhausted c h = exhausted-IsSound c h

pub run-IsSound :
    (es : List Lifecycle.Event) (c : Connection) → IsSound c → IsSound (Lifecycle.run es c)
unfolding Lifecycle.run
run-IsSound [] c h = h
run-IsSound (e ∷ es) c h = run-IsSound es (Lifecycle.step e c) (step-IsSound e c h)

pub new_connection-IsSound :
    (config : ClientConfig) (concurrency handlers : ℕ)
    → IsSound (new_connection config concurrency handlers)
unfolding new_connection
new_connection-IsSound config concurrency handlers = record {
  shut = inl refl;
  gate_shut = inl refl;
}

end_receive-closed :
    (t : ℕ) (c : Connection) → c.is_closed ≡ true → (Lifecycle.end_receive t c).is_closed ≡ true
unfolding Lifecycle.end_receive
end_receive-closed t c h = ground arith

connection_lost-closed :
    (c : Connection) → c.is_closed ≡ true → (Lifecycle.connection_lost c).is_closed ≡ true
unfolding Lifecycle.connection_lost set_state
connection_lost-closed c h = ground arith

kept-closed : IsKept (λ c. c.is_closed ≡ true)
kept-closed = record {
  ends = end_receive-closed;
  loses = connection_lost-closed;
  rejects = λ k c h. h;
  dispatches = λ bs c e h. ((dispatch_transport_frame-Keeps bs).at c).same_closed ∙ h;
}

step-closed :
    (e : Lifecycle.Event) (c : Connection)
    → c.is_closed ≡ true
    → (Lifecycle.step e c).is_closed ≡ true
unfolding Lifecycle.step Lifecycle.open_transport Lifecycle.begin_handshake Lifecycle.complete_open
    Lifecycle.end_handshake Lifecycle.abandon_open Lifecycle.fail_open Lifecycle.fail_closed
    Lifecycle.connection_lost Lifecycle.after_loss Lifecycle.close Lifecycle.finish_close
    Lifecycle.end_retry after_attempt exhausted set_state
step-closed (Lifecycle.receives t bs) c h = received_kept kept-closed t bs c h
step-closed (Lifecycle.receive_fails t e) c h = receive_failed_kept kept-closed t e c h
step-closed (Lifecycle.opens b) c h = ground arith
step-closed (Lifecycle.transport_up u) c h = ground arith
step-closed (Lifecycle.restored u) c h = ground arith
step-closed (Lifecycle.answered u b) c h = ground arith
step-closed (Lifecycle.failed_at u) c h = ground arith
step-closed (Lifecycle.failed e) c h = ground arith
step-closed Lifecycle.failed_closed c h = ground arith
step-closed Lifecycle.loses c h = ground arith
step-closed Lifecycle.lost c h = ground arith
step-closed Lifecycle.closes c h = ground arith
step-closed Lifecycle.closes_transport c h = ground arith
step-closed Lifecycle.retries c h = ground arith
step-closed (Lifecycle.retry_ends r) c h = ground arith
step-closed Lifecycle.retries_exhausted c h = ground arith

run-closed :
    (es : List Lifecycle.Event) (c : Connection)
    → c.is_closed ≡ true
    → (Lifecycle.run es c).is_closed ≡ true
unfolding Lifecycle.run
run-closed [] c h = h
run-closed (e ∷ es) c h = run-closed es (Lifecycle.step e c) (step-closed e c h)

close-closed : (c : Connection) → (Lifecycle.close c).is_closed ≡ true
unfolding Lifecycle.close set_state
close-closed c = ground arith

IsSound-refuses :
    (c : Connection)
    → IsSound c
    → c.is_closed ≡ true
    → (c.gate.closed ≡ true) × ((ensure_authenticated c).0 ≡ err connection_error)
unfolding ensure_authenticated
IsSound-refuses c h e = ground arith

-- Whatever happens to a new connection before `close()` and whatever after it, in any order, with
-- attempts to open it still under way and messages still arriving: from then on it is closed, its
-- gate is closed, and every request is refused.
pub closed_for_good :
    (config : ClientConfig) (concurrency handlers : ℕ) (before after : List Lifecycle.Event)
    → let c = Lifecycle.run before (new_connection config concurrency handlers) in
      let d = Lifecycle.run after (Lifecycle.close c) in
      (d.is_closed ≡ true)
      × (d.gate.closed ≡ true)
      × ((ensure_authenticated d).0 ≡ err connection_error)
closed_for_good config concurrency handlers before after =
    let c = Lifecycle.run before (new_connection config concurrency handlers) in
    let h = run-IsSound before _ (new_connection-IsSound config concurrency handlers) in
    let over = run-closed after (Lifecycle.close c) (close-closed c) in
    let (gate, refused) =
      IsSound-refuses (Lifecycle.run after (Lifecycle.close c))
        (run-IsSound after (Lifecycle.close c) (close-IsSound c h)) over in
    (over, gate, refused)
