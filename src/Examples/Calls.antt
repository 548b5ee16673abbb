-- ===== src/Examples/Calls.antt =====
-- The rpc client at concrete inputs.
use fitz_py.Prelude.{ℕ, ◌≡◌, refl, true, false, [], ◌∷◌, map, ◌++◌}
use fitz_py.Prelude.Dict.{Dict}
use fitz_py.Errors.{ok, err, timeout_error, connection_error, stop_iteration}
use fitz_py.Text.{Str, codes}
use fitz_py.Domains.Rpc.{best_worker}
use fitz_py.Domains.Rpc.Best.{IsChoice, best_worker-IsChoice}
use fitz_py.Domains.Rpc.Sender.{accepted, new_writer, IsNumbered, accepted-IsNumbered}
use fitz_py.Domains.Rpc.Calls.{
  ResponseFrame, Outcome, RpcCall, response, closing, settled, consumed, forwarded, new_call,
  disconnected, steps, fail, next,
}
use fitz_py.Domains.Rpc.Invocations
use fitz_py.Domains.Rpc.Invocations.{new_invocation, IsAnswered, steps-IsAnswered}
use fitz_py.Domains.Rpc.Calls.Settled.{IsCall, steps-IsCall}
use fitz_py.Domains.Rpc.Calls.Outcomes.{HasOutcome, disconnected-HasOutcome}
use fitz_py.Domains.Rpc.Calls.Drained.{read_all, open_call, asks, returned, raised, read_all-fail}

abbrev workers : Dict Str ℕ
workers = (codes "rpc://a/**", 1) ∷ (codes "rpc://a/b", 2) ∷ []

best_worker-IsChoice_example :
    IsChoice (codes "rpc://a/b") workers (best_worker (codes "rpc://a/b") workers)
best_worker-IsChoice_example = best_worker-IsChoice (codes "rpc://a/b") workers

accepted-IsNumbered_example : IsNumbered (7 ∷ []) 0 (
    accepted ((1 ∷ [], false) ∷ (2 ∷ [], true) ∷ (3 ∷ [], false) ∷ []) (
      new_writer (7 ∷ []) 4 (
        record { result = ok tt; generation = 4 }
        ∷ record { result = err timeout_error; generation = 4 }
        ∷ record { result = ok tt; generation = 5 }
        ∷ [])))
accepted-IsNumbered_example =
    accepted-IsNumbered ((1 ∷ [], false) ∷ (2 ∷ [], true) ∷ (3 ∷ [], false) ∷ []) (7 ∷ []) 4 (
      record { result = ok tt; generation = 4 }
      ∷ record { result = err timeout_error; generation = 4 }
      ∷ record { result = ok tt; generation = 5 }
      ∷ [])

abbrev one : ResponseFrame
one = record { body = 8 ∷ []; sequence = 0 }

steps-IsCall_example : IsCall (
    steps
      (response one false ∷ closing ∷ settled forwarded ∷ consumed false ∷ [])
      (new_call (7 ∷ []) 2))
steps-IsCall_example =
    steps-IsCall (response one false ∷ closing ∷ settled forwarded ∷ consumed false ∷ []) (7 ∷ []) 2

abbrev running : RpcCall
running = open_call (7 ∷ []) 2 (one ∷ [])

running-IsCall : IsCall running
running-IsCall = record {
  accounted = refl;
  live = refl;
  awaited = refl;
  over = refl;
  stopped = refl;
}

disconnected-HasOutcome_example :
    ((disconnected running).pending ≡ false)
    × (((disconnected running).cancelling ≡ false)
        × ((o : Outcome) × (HasOutcome o (disconnected running)
              × HasOutcome o (steps (settled forwarded ∷ []) (disconnected running)))))
disconnected-HasOutcome_example =
    disconnected-HasOutcome running (settled forwarded ∷ []) running-IsCall refl

read_all-fail_example :
    (read_all (asks (one ∷ []) 2) (fail connection_error true (open_call (7 ∷ []) 1 (one ∷ [])))
      ≡ map returned (one ∷ []) ++ (raised connection_error ∷ raised stop_iteration ∷ []))
    × ((first : ResponseFrame)
        → next true (fail connection_error true (open_call (7 ∷ []) 1 (first ∷ one ∷ []))) ≡ (
          raised timeout_error,
          fail connection_error true (open_call (7 ∷ []) 1 (first ∷ one ∷ [])),
        ))
read_all-fail_example = read_all-fail (7 ∷ []) 1 (one ∷ []) connection_error

steps-IsAnswered_example : IsAnswered (
    Invocations.steps
      (Invocations.begun
        ∷ Invocations.entered false
        ∷ Invocations.stop_requested 1
        ∷ Invocations.ended true
        ∷ [])
      (new_invocation true))
steps-IsAnswered_example =
    steps-IsAnswered
      (Invocations.begun
        ∷ Invocations.entered false
        ∷ Invocations.stop_requested 1
        ∷ Invocations.ended true
        ∷ [])
      true
