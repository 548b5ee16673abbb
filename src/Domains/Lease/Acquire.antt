-- ===== src/Domains/Lease/Acquire.antt =====
-- domains/lease.py: `LeaseClient.acquire`, whose calls take turns, with the queued answers, the
-- disconnects and the cancellations that meet them. A step is what one call does between two awaits,
-- or what a callback of the connection does. The asyncio lock is the flag `locked`: any call that
-- waits may take it when it is free. The future that a call with a wait makes is its field
-- `queued_response`, and `queued` has the calls whose futures stand in the deque.
pub mod Turns
pub mod Moves
pub mod Steps
pub mod Kept
pub mod Outcome
pub mod Drain
use fitz_py.Prelude.{
  ℕ, Bool, true, false, ◌||◌, ◌++◌, [], ◌∷◌, List, leb, ◌==◌, if◌then◌else◌, Option, none, some,
  set, get_elem?, is_some, is_empty, any,
}
use fitz_py.Prelude.Bytes.{Bytes}
use fitz_py.Errors.{lease, Error, Result, ok, err, connection_error, value_error, cancelled, ◌>>=◌}
use fitz_py.Errors.Retry.{response_error}
use fitz_py.Protocol.Buffer.{reader}
use fitz_py.Protocol.Response.{Response, success, parse_response}
use fitz_py.Domains.Link.{code_or_zero}
use fitz_py.Domains.Lease.{lease_error}
use fitz_py.Domains.Lease.Client.{read_acquired}

abbrev acquired : Response → Result (ℕ × ℕ)
acquired r =
    if success r
    then (read_acquired (reader r.content)).0
    else err (response_error lease "ACQUIRE" (code_or_zero r.error_code) r.error_class r.effect)

-- `_decode_acquire`
unfoldable pub decode_acquire : Bytes → Result (ℕ × ℕ)
decode_acquire payload = parse_response payload >>= acquired

-- Where a call of `acquire` stands: at the lock; in its request; at the future of the queued answer;
-- cancelled, with `_drain_cancelled_acquire` at that future; over, with the token or the error.
pub data Phase : Type 0 where
  waiting requested queueing draining : Phase
  ended : Result ℕ → Phase

-- `payload` is what building the request gives; `waits` is `wait > 0`.
pub record Call : Type 0 where
  pub waits : Bool
  pub payload : Result Bytes
  pub phase : Phase
  pub queued_response : Option (Result Bytes)

-- `sent` has the payloads of the requests, the last first.
pub record Acquires : Type 0 where
  pub locked : Bool
  pub queued : List ℕ
  pub calls : List Call
  pub sent : List Bytes

unfoldable pub no_acquires : Acquires
no_acquires = record { locked = false; queued = []; calls = []; sent = [] }

pub data Event : Type 0 where
  -- a call whose arguments are valid arrives at the lock
  arrive : Bool → Result Bytes → Event
  -- the lock lets a call in
  enter : ℕ → Event
  -- its request returns or raises
  answer : ℕ → Result Bytes → Event
  -- it goes on after its queued answer
  resume : ℕ → Event
  -- it is cancelled
  cancel : ℕ → Event
  -- `_drain_cancelled_acquire` goes on after the queued answer
  drained : ℕ → Event
  -- a `MSG_LEASE_ACQUIRE` notification
  queued_reply : Bytes → Event
  -- the connection is lost
  disconnect : Event

-- `self._queued.remove(queued)`, where it is there.
abbrev pub remove : ℕ → List ℕ → List ℕ
remove i [] = []
remove i (j ∷ js) = if i == j then js else j ∷ remove i js

abbrev pub in_queue : ℕ → List ℕ → Bool
in_queue i q = any (λ j. i == j) q

-- The call ends and releases the lock; an error takes its future out of the deque.
abbrev pub finish : ℕ → Call → Result ℕ → Acquires → Acquires
finish i c r s = record s {
  locked = false;
  queued = remove i s.queued;
  calls = set s.calls i (record c { phase = ended r });
}

-- A call that has the lock: its future joins the deque, and its request is sent.
unfoldable pub enter_call : ℕ → Call → Acquires → Acquires
enter_call i c s = elim c.payload as (λ _. Acquires) [
  | err e ↦ record s { calls = set s.calls i (record c { phase = ended (err e) }) }
  | ok payload ↦ record s {
    locked = true;
    queued = if c.waits then s.queued ++ (i ∷ []) else s.queued;
    calls = set s.calls i (record c { phase = requested });
    sent = payload ∷ s.sent;
  }
]

-- The final answer in the response of the request. `remove` raises `ValueError` when a queued answer
-- or a disconnect has taken the future out of the deque meanwhile.
abbrev pub granted : ℕ → Call → ℕ → Acquires → Result ℕ
granted i c token s =
    if c.waits then (if in_queue i s.queued then ok token else err value_error) else ok token

-- After the request: the type of the response is 3, 2, or 0 or 1.
unfoldable pub answer_call : ℕ → Call → Result (ℕ × ℕ) → Acquires → Acquires
answer_call i c (err e) s = finish i c (err e) s
answer_call i c (ok (response_type, token)) s =
    if response_type == 3
    then finish i c (err (lease_error "ALREADY_QUEUED")) s
    else (if response_type == 2
        then (if c.waits
            then record s { calls = set s.calls i (record c { phase = queueing }) }
            else finish i c (err (lease_error "INVALID_RESPONSE")) s)
        else finish i c (granted i c token s) s)

-- `_validate_final_acquire`, and the token.
unfoldable pub final_token : ℕ × ℕ → Result ℕ
final_token (response_type, token) =
    if leb response_type 1 then ok token else err (lease_error "INVALID_RESPONSE")

-- After the queued answer.
unfoldable pub resume_call : ℕ → Call → Acquires → Acquires
resume_call i c s = elim c.queued_response as (λ _. Acquires) [
  | none ↦ s
  | some r ↦ finish i c (r >>= decode_acquire >>= final_token) s
]

-- A cancelled call keeps the lock while its future is in the deque.
unfoldable pub cancel_held : ℕ → Call → Acquires → Acquires
cancel_held i c s =
    if in_queue i s.queued
    then record s { calls = set s.calls i (record c { phase = draining }) }
    else finish i c (err cancelled) s

unfoldable pub drain_call : ℕ → Call → Acquires → Acquires
drain_call i c s = elim c.queued_response as (λ _. Acquires) [
  | none ↦ s
  | some r ↦ finish i c (err cancelled) s
]

-- `future.set_result(...)` or `future.set_exception(...)`, when the future is not done.
abbrev pub settle_call : Result Bytes → Call → Call
settle_call r c = if is_some c.queued_response then c else record c { queued_response = some r }

abbrev settle_found : ℕ → Result Bytes → Option Call → List Call → List Call
settle_found i r none calls = calls
settle_found i r (some c) calls = set calls i (settle_call r c)

unfoldable pub settle : ℕ → Result Bytes → List Call → List Call
settle i r calls = settle_found i r (get_elem? calls i) calls

abbrev is_done : Option Call → Bool
is_done none = true
is_done (some c) = is_some c.queued_response

-- `_queued_reply`: the first future in the deque that is not done gets the answer.
unfoldable pub reply_first : Bytes → List ℕ → List Call → List ℕ × List Call
reply_first payload [] calls = ([], calls)
reply_first payload (i ∷ q) calls =
    let rest = reply_first payload q calls in
    if is_done (get_elem? calls i) then rest else (q, settle i (ok payload) calls)

-- `_disconnect`: all of them fail.
unfoldable pub fail_all : List ℕ → List Call → List Call
fail_all [] calls = calls
fail_all (i ∷ q) calls = fail_all q (settle i (err connection_error) calls)

-- What an event does to the call that it is about, where the call is in the phase for it.
unfoldable pub step_call : Event → ℕ → Call → Phase → Acquires → Acquires
step_call (enter k) i c waiting s = if s.locked then s else enter_call i c s
step_call (answer k (err cancelled)) i c requested s = cancel_held i c s
step_call (answer k (err e)) i c requested s = answer_call i c (err e) s
step_call (answer k (ok bs)) i c requested s = answer_call i c (decode_acquire bs) s
step_call (resume k) i c queueing s = resume_call i c s
step_call (cancel k) i c waiting s = record s {
  calls = set s.calls i (record c { phase = ended (err cancelled) });
}
step_call (cancel k) i c requested s = cancel_held i c s
step_call (cancel k) i c queueing s = cancel_held i c s
step_call (drained k) i c draining s = drain_call i c s
step_call e i c p s = s

abbrev pub at_call : Event → ℕ → Option Call → Acquires → Acquires
at_call e i none s = s
at_call e i (some c) s = step_call e i c c.phase s

unfoldable pub step : Event → Acquires → Acquires
step (arrive waits payload) s = record s {
  calls =
      s.calls
      ++ (record { waits = waits; payload = payload; phase = waiting; queued_response = none }
          ∷ []);
}
step (queued_reply payload) s =
    let next = reply_first payload s.queued s.calls in record s { queued = next.0; calls = next.1 }
step disconnect s = record s { queued = []; calls = fail_all s.queued s.calls }
step (enter i) s = at_call (enter i) i (get_elem? s.calls i) s
step (answer i r) s = at_call (answer i r) i (get_elem? s.calls i) s
step (resume i) s = at_call (resume i) i (get_elem? s.calls i) s
step (cancel i) s = at_call (cancel i) i (get_elem? s.calls i) s
step (drained i) s = at_call (drained i) i (get_elem? s.calls i) s

unfoldable pub steps : List Event → Acquires → Acquires
steps [] s = s
steps (e ∷ es) s = steps es (step e s)
