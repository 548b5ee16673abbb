-- ===== src/Domains/Rpc/Calls.antt =====
-- domains/rpc.py: `RPCCall`, and what `RPCClient` keeps of its calls. The dictionaries `_pending` and
-- `_pending_cancellations` are keyed by the correlation ids, random numbers of 16 bytes that are
-- taken as distinct: that a call stands in one of them is a flag of the call. Deadlines and the
-- cancellation of a parent are calls of `close_and_cancel` at any time; the tasks that watch for
-- them, and the timer of five seconds, whose end is `settle_cancellation` with `unconfirmed`, are
-- left out.
pub mod Settled
pub mod Drained
pub mod Outcomes
use fitz_py.Prelude.{
  ℕ, Bool, true, false, not, ◌&&◌, ◌||◌, ◌++◌, [], ◌∷◌, List, length, ltb, leb, ◌==◌, if◌then◌else◌,
  Option, none, some, is_some, is_empty, map, any, take, drop,
}
use fitz_py.Prelude.Bytes.{Bytes, from_bytes}
use fitz_py.Errors.{
  Error, Result, ok, err, rpc, domain_error, connection_error, timeout_error, cancelled,
  stop_iteration, ◌>>=◌,
}
use fitz_py.Text.{str_eq}
use fitz_py.Protocol.Buffer.{reader}
use fitz_py.Domains.Rpc.{rpc_error}
use fitz_py.Domains.Rpc.Frames.{Answer, read_response, decode_terminal_error}

pub record ResponseFrame : Type 0 where
  pub body : Bytes
  pub sequence : ℕ

-- `RpcCancellationOutcome`
pub data Outcome : Type 0 where
  not_requested unsupported queued_removed forwarded worker_unsupported already_terminal : Outcome
  unknown_or_unauthorized forwarding_failed unconfirmed connection_closed : Outcome

-- What the queue holds: a frame, an error, or `None`.
pub data Item : Type 0 where
  frame : ResponseFrame → Item
  failing : Error → Item
  finished : Item

-- `pending` and `cancelling` are the entries in the two dictionaries; `dropped` says that
-- `open_call` raised and nobody has the call.
pub record RpcCall : Type 0 where
  pub key : Bytes
  pub capacity : ℕ
  pub queue : List Item
  pub closed : Bool
  pub terminal : Bool
  pub failure : Option Error
  pub cancellation : Option Outcome
  pub pending : Bool
  pub cancelling : Bool
  pub dropped : Bool

-- `open_call`, up to `Connection.send`.
unfoldable pub new_call : Bytes → ℕ → RpcCall
new_call key capacity = record {
  key = key;
  capacity = capacity;
  queue = [];
  closed = false;
  terminal = false;
  failure = none;
  cancellation = none;
  pending = true;
  cancelling = false;
  dropped = false;
}

-- `open_call`, when `Connection.send` raises.
unfoldable pub send_failed : RpcCall → RpcCall
send_failed c = record c { pending = false; dropped = true }

-- `_resolve_call_outcome`
abbrev pub resolved : Outcome → Option Outcome → Option Outcome
resolved outcome none = some outcome
resolved outcome (some o) = some o

-- `_finish_call`
unfoldable pub finish_call : Outcome → RpcCall → RpcCall
finish_call outcome c = record c { pending = false; cancellation = resolved outcome c.cancellation }

-- `QueueFull`, for a capacity that is not 0.
abbrev pub is_full : RpcCall → Bool
is_full c = not (c.capacity == 0) && leb c.capacity (length c.queue)

abbrev pub outcome_of : Error → Outcome
outcome_of connection_error = connection_closed
outcome_of e = not_requested

-- The error joins the queue, or is kept aside when the queue is full.
abbrev pub put_error : Error → RpcCall → RpcCall
put_error e c =
    if is_full c
    then record c { failure = some e }
    else record c { queue = c.queue ++ (failing e ∷ []); failure = none }

-- `fail`
unfoldable pub fail : Error → Bool → RpcCall → RpcCall
fail e preserve c =
    if c.closed
    then c
    else put_error e (record (finish_call (outcome_of e) (record c { closed = true })) {
      queue = if preserve then c.queue else [];
    })

-- `push`
unfoldable pub push : ResponseFrame → Bool → RpcCall → RpcCall
push f end c =
    if c.closed
    then c
    else (if is_full c
        then fail (rpc_error "BACKPRESSURE") false c
        else (if end
            then finish_call not_requested
                (record c { queue = c.queue ++ (frame f ∷ []); terminal = true })
            else record c { queue = c.queue ++ (frame f ∷ []) }))

-- `_abandon_call`, up to `Connection.send`, and whether it gets there.
unfoldable pub abandon_call : RpcCall → RpcCall × Bool
abandon_call c =
    if is_some c.cancellation || c.cancelling
    then (record c { pending = false }, false)
    else (record c { pending = false; cancelling = true }, true)

-- `_close_and_cancel`, up to `Connection.send`, and whether it gets there.
unfoldable pub close_and_cancel : RpcCall → RpcCall × Bool
close_and_cancel c =
    if c.terminal || c.closed
    then (c, false)
    else abandon_call (record c { closed = true; queue = finished ∷ [] })

-- `_expire_at_deadline`, at the deadline.
unfoldable pub expire_at_deadline : RpcCall → RpcCall × Bool
expire_at_deadline c =
    if c.closed || c.terminal
    then (c, false)
    else close_and_cancel (record c { failure = some timeout_error })

-- `_settle_cancellation`
unfoldable pub settle_cancellation : Outcome → RpcCall → RpcCall
settle_cancellation outcome c =
    if c.cancelling
    then record c { cancelling = false; cancellation = resolved outcome c.cancellation }
    else c

-- The rest of `_abandon_call`, by what `Connection.send` comes to.
unfoldable pub cancellation_sent : Result (Unit {0}) → RpcCall → RpcCall
cancellation_sent (ok u) c = c
cancellation_sent (err connection_error) c = settle_cancellation connection_closed c
cancellation_sent (err timeout_error) c = settle_cancellation connection_closed c
cancellation_sent (err cancelled) c = c
cancellation_sent (err e) c = settle_cancellation unconfirmed c

-- `_disconnect`, for one call.
unfoldable pub disconnected : RpcCall → RpcCall
disconnected c =
    let d = if c.pending then fail connection_error true c else c in
    settle_cancellation connection_closed (record d { pending = false })

-- What an item of the queue means to the consumer.
abbrev pub taken : Item → RpcCall → Result ResponseFrame × RpcCall
taken (frame f) c = (ok f, c)
taken (failing e) c = (err e, record c { closed = true; failure = none })
taken finished c = elim c.failure as (λ _. Result ResponseFrame × RpcCall) [
  | none ↦ (err stop_iteration, record c { closed = true })
  | some e ↦ (err e, record c { closed = true; failure = none })
]

-- Past its deadline the consumer ends the call and gets the timeout.
abbrev pub overdue : RpcCall → Option (Result ResponseFrame) × RpcCall
overdue c = (some (err timeout_error), (close_and_cancel c).0)

-- With nothing in the queue.
abbrev pub at_rest : Bool → Option Error → RpcCall → Option (Result ResponseFrame) × RpcCall
at_rest past (some e) c = (some (err e), record c { failure = none })
at_rest past none c =
    if c.closed || c.terminal
    then (some (err stop_iteration), c)
    else (if past then overdue c else (none, c))

abbrev pub from_queue : Bool → List Item → RpcCall → Option (Result ResponseFrame) × RpcCall
from_queue past [] c = at_rest past c.failure c
from_queue true (x ∷ xs) c = overdue c
from_queue false (x ∷ xs) c = let p = taken x (record c { queue = xs }) in (some p.0, p.1)

-- `__anext__`: what it returns or raises; `none` when it waits for an item. `past` says that the call
-- has a deadline and that it is over. A wait that the deadline or a cancellation ends is a
-- `closing`.
unfoldable pub next : Bool → RpcCall → Option (Result ResponseFrame) × RpcCall
next past c = from_queue past c.queue c

-- What happens to one call.
pub data Event : Type 0 where
  response : ResponseFrame → Bool → Event
  failed : Error → Event
  closing : Event
  expired : Event
  unsent : Event
  cancel_sent : Result (Unit {0}) → Event
  settled : Outcome → Event
  lost : Event
  consumed : Bool → Event

unfoldable pub step : Event → RpcCall → RpcCall
step (response f end) c = push f end c
step (failed e) c = record (fail e true c) { pending = false }
step closing c = (close_and_cancel c).0
step expired c = (expire_at_deadline c).0
step unsent c = send_failed c
step (cancel_sent r) c = cancellation_sent r c
step (settled outcome) c = settle_cancellation outcome c
step lost c = disconnected c
step (consumed past) c = (next past c).1

unfoldable pub steps : List Event → RpcCall → RpcCall
steps [] c = c
steps (e ∷ es) c = steps es (step e c)

-- The client's calls.
abbrev pub at_key : Bytes → (RpcCall → Bool) → (RpcCall → RpcCall) → List RpcCall → List RpcCall
at_key key has f [] = []
at_key key has f (c ∷ cs) =
    let rest = at_key key has f cs in if str_eq c.key key && has c then f c ∷ cs else c ∷ rest

abbrev pub to_call : Answer → Option Error → List RpcCall → List RpcCall
to_call a (some e) cs =
    at_key a.correlation_id (λ c. c.pending) (λ c. record (fail e true c) { pending = false }) cs
to_call a none cs =
    at_key a.correlation_id (λ c. c.pending)
      (push (record { body = a.body; sequence = a.sequence }) a.end) cs

abbrev pub terminal_error : Answer → Result (Option Error)
terminal_error a = if a.end then decode_terminal_error a.body else ok none

-- `_on_response`; an answer to no pending call changes nothing.
unfoldable pub on_answer : Answer → List RpcCall → Result (List RpcCall)
on_answer a cs =
    if any (λ c. str_eq c.key a.correlation_id && c.pending) cs
    then (terminal_error a >>= λ e. ok (to_call a e cs))
    else ok cs

unfoldable pub on_response : Bytes → List RpcCall → Result (List RpcCall)
on_response payload cs = (read_response (reader payload)).0 >>= λ a. on_answer a cs

-- The outcomes that a broker reports.
abbrev pub reported : ℕ → Option Outcome
reported value =
    if value == 1
    then some queued_removed
    else if value == 2
    then some forwarded
    else if value == 3
    then some worker_unsupported
    else if value == 4
    then some already_terminal
    else if value == 5
    then some unknown_or_unauthorized
    else if value == 6
    then some forwarding_failed
    else none

abbrev settle_reported : Bytes → Option Outcome → List RpcCall → List RpcCall
settle_reported key none cs = cs
settle_reported key (some outcome) cs =
    at_key key (λ c. c.cancelling) (settle_cancellation outcome) cs

abbrev pub byte_at : Bytes → ℕ → ℕ
byte_at bs i = from_bytes (take 1 (drop i bs))

-- `_on_lifecycle`, the reports on cancellations; what asks a worker to stop is `request_stop`.
unfoldable pub on_lifecycle : Bytes → List RpcCall → List RpcCall
on_lifecycle payload cs =
    if (length payload == 18) && (byte_at payload 0 == 4)
    then settle_reported (take 16 (drop 1 payload)) (reported (byte_at payload 17)) cs
    else cs

-- `_disconnect`
unfoldable pub disconnect : List RpcCall → List RpcCall
disconnect cs = map disconnected cs
