-- ===== src/Connection/Lifecycle/Attempts.antt =====
-- The loop of attempts to open the connection again ends.
use fitz_py.Prelude.{
  ℕ, zero, suc, ◌+◌, ◌≤◌, ◌<◌, ◌≡◌, refl, ◌∙◌, ap, Bool, true, false, [], ◌∷◌, List, if◌then◌else◌,
  Option, some, arith, Bool-cases, inl, inr,
}
use fitz_py.Errors.{Result}
use fitz_py.Connection.{Connection, set_state, reconnecting}
use fitz_py.Connection.Inbound.Limits.{dispatch_transport_frame-Keeps}
use fitz_py.Connection.Lifecycle
use fitz_py.Connection.Lifecycle.Parts.{IsKept, receive_failed_kept, received_kept}
use fitz_py.Connection.{ClientConfig}
use fitz_py.Connection.Retry.{continues, exhausted, after_attempt}
use fitz_py.Connection.Lifecycle.Reconnect.{Attempt, reconnect_loop}

end_receive-config : (t : ℕ) (c : Connection) → (Lifecycle.end_receive t c).config ≡ c.config
unfolding Lifecycle.end_receive
end_receive-config t c = ground arith

connection_lost-config : (c : Connection) → (Lifecycle.connection_lost c).config ≡ c.config
unfolding Lifecycle.connection_lost set_state
connection_lost-config c = ground arith

kept-config : (config : ClientConfig) → IsKept (λ c. c.config ≡ config)
kept-config config = record {
  ends = λ t c h. end_receive-config t c ∙ h;
  loses = λ c h. connection_lost-config c ∙ h;
  rejects = λ k c h. h;
  dispatches = λ bs c e h. ((dispatch_transport_frame-Keeps bs).at c).same_config ∙ h;
}

step-config : (e : Lifecycle.Event) (c : Connection) → (Lifecycle.step e c).config ≡ c.config
unfolding Lifecycle.step Lifecycle.open_transport Lifecycle.begin_handshake Lifecycle.complete_open
    Lifecycle.end_handshake Lifecycle.abandon_open Lifecycle.fail_open Lifecycle.fail_closed
    Lifecycle.connection_lost Lifecycle.after_loss Lifecycle.close Lifecycle.finish_close
    Lifecycle.end_retry after_attempt exhausted set_state
step-config (Lifecycle.receives t bs) c = received_kept (kept-config c.config) t bs c refl
step-config (Lifecycle.receive_fails t e) c = receive_failed_kept (kept-config c.config) t e c refl
step-config (Lifecycle.opens b) c = ground arith
step-config (Lifecycle.transport_up u) c = ground arith
step-config (Lifecycle.restored u) c = ground arith
step-config (Lifecycle.answered u b) c = ground arith
step-config (Lifecycle.failed_at u) c = ground arith
step-config (Lifecycle.failed e) c = ground arith
step-config Lifecycle.failed_closed c = ground arith
step-config Lifecycle.loses c = ground arith
step-config Lifecycle.lost c = ground arith
step-config Lifecycle.closes c = ground arith
step-config Lifecycle.closes_transport c = ground arith
step-config Lifecycle.retries c = ground arith
step-config (Lifecycle.retry_ends r) c = ground arith
step-config Lifecycle.retries_exhausted c = ground arith

run-config : (es : List Lifecycle.Event) (c : Connection) → (Lifecycle.run es c).config ≡ c.config
unfolding Lifecycle.run
run-config [] c = refl
run-config (e ∷ es) c = run-config es (Lifecycle.step e c) ∙ step-config e c

after_attempt-config :
    (r : Result (Unit {0})) (c : Connection) → (after_attempt r c).1.config ≡ c.config
unfolding after_attempt set_state
after_attempt-config r c = ground arith

set_state-config : (c : Connection) → (set_state reconnecting c).config ≡ c.config
unfolding set_state
set_state-config c = ground arith

attempt-config :
    (a : Attempt) (c : Connection)
    → (after_attempt a.result (Lifecycle.run a.events (set_state reconnecting c))).1.config
      ≡ c.config
attempt-config a c =
    after_attempt-config a.result _
    ∙ (run-config a.events (set_state reconnecting c) ∙ set_state-config c)

exhausted-over : (c : Connection) → (exhausted c).reconnect_task ≡ false
unfolding exhausted set_state
exhausted-over c = ground arith

after_attempt-over :
    (r : Result (Unit {0})) (c : Connection)
    → (after_attempt r c).0 ≡ false
    → (after_attempt r c).1.reconnect_task ≡ false
unfolding after_attempt set_state
after_attempt-over r c h = ground arith

continues-ltb :
    (most made : ℕ) (c : Connection)
    → c.config.max_attempts ≡ some most
    → continues made c ≡ true
    → made < most
unfolding continues
continues-ltb most made c limit h = ground arith

-- The loop has made at most so many attempts, and runs no more.
abbrev pub Ends : ℕ → Option ℕ × Connection → Type 0
Ends most p = (n : ℕ) × ((p.0 ≡ some n) × ((n ≤ most) × (p.1.reconnect_task ≡ false)))

module _ (most : ℕ) (attempts : ℕ → Attempt) where
  loop-Ends :
      (fuel made : ℕ) (c : Connection)
      → c.config.max_attempts ≡ some most
      → made ≤ most
      → most < made + fuel
      → Ends most (reconnect_loop fuel attempts made c)
  unfolding reconnect_loop
  loop-Ends zero made c limit low high = absurd (omega (arith, low, high))
  loop-Ends (suc fuel) made c limit low high = elim (Bool-cases (continues made c)) [
    | inl e ↦ rw e (
        go_on (continues-ltb most made c limit e) (λ h.
          loop-Ends fuel (made + 1) t.1
            (ap (λ k. k.max_attempts) (attempt-config attempt c) ∙ limit) (omega (arith, h))
            (omega (arith, high))))
    | inr e ↦ rw e (made, (refl, (low, exhausted-over c)))
  ]
    where
      attempt : Attempt
      attempt = attempts (made + 1)

      t : Bool × Connection
      t = after_attempt attempt.result (Lifecycle.run attempt.events (set_state reconnecting c))

      go_on :
          made < most
          → (made < most → Ends most (reconnect_loop fuel attempts (made + 1) t.1))
          → Ends most
              (if t.0 then reconnect_loop fuel attempts (made + 1) t.1 else (some (made + 1), t.1))
      go_on h rest = elim (Bool-cases t.0) [
        | inl e ↦ rw e (rest h)
        | inr e ↦ rw e (made + 1, (refl, (omega (arith, h), after_attempt-over attempt.result _ e)))
      ]

  -- Whatever happens in the attempts, and to the connection between them: with a limit on the
  -- attempts the loop ends after at most that many, and its task is then no longer there.
  pub reconnect_loop-Ends :
      (c : Connection)
      → c.config.max_attempts ≡ some most
      → Ends most (reconnect_loop (most + 1) attempts 0 c)
  reconnect_loop-Ends c limit = loop-Ends (most + 1) 0 c limit (omega arith) (omega arith)
