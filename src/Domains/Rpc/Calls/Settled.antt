-- ===== src/Domains/Rpc/Calls/Settled.antt =====
-- The cancellation outcome of a call.
use fitz_py.Prelude.{
  Bool-cases, inl, inr, ℕ, ◌≡◌, refl, sym, subst, Bool, true, false, not, ◌&&◌, ◌||◌, [], ◌∷◌, List,
  if◌then◌else◌, Option, none, some, is_some, ◌++◌, any, arith,
}
use fitz_py.Prelude.Bytes.{Bytes}
use fitz_py.Errors.{
  Error, Result, ok, err, connection_error, timeout_error, cancelled, stop_iteration,
}
use fitz_py.Domains.Rpc.Calls.{
  ResponseFrame, Outcome, not_requested, unconfirmed, connection_closed, Item, RpcCall, Event,
  response, failed, closing, expired, unsent, cancel_sent, settled, lost, consumed, frame, failing,
  finished, outcome_of, new_call, is_full, send_failed, finish_call, fail, push, put_error,
  abandon_call, close_and_cancel, expire_at_deadline, settle_cancellation, cancellation_sent,
  disconnected, at_rest, from_queue, next, step, steps,
}

-- What a consumer ends with.
abbrev pub is_end : Item → Bool
is_end (frame f) = false
is_end (failing e) = true
is_end finished = true

-- A call that somebody has is either settled or stands in a dictionary through which it will be.
-- One that is pending is open and not settled; one whose cancellation is awaited is closed; and so
-- is, if it has not got its last frame, one that is settled. An error or an end in the queue is one
-- of a closed call.
pub record IsCall (c : RpcCall) : Type 0 where
  pub accounted : c.dropped || (is_some c.cancellation || (c.pending || c.cancelling)) ≡ true
  pub live :
      c.pending && (c.closed || (c.terminal || (is_some c.cancellation || c.cancelling))) ≡ false
  pub awaited : c.cancelling && not c.closed ≡ false
  pub over : is_some c.cancellation && not (c.closed || c.terminal) ≡ false
  pub stopped : any is_end c.queue && not c.closed ≡ false

settle-IsCall : (o : Outcome) (c : RpcCall) → IsCall c → IsCall (settle_cancellation o c)
unfolding settle_cancellation
settle-IsCall o c h = ground (arith, h.accounted, h.live, h.awaited, h.over, h.stopped)

put_error-IsCall : (e : Error) (c : RpcCall) → IsCall c → c.closed ≡ true → IsCall (put_error e c)
put_error-IsCall e c h k = ground (arith, h.accounted, h.live, h.awaited, h.over, h.stopped, k)

if-IsCall :
    (b : Bool) (x y : RpcCall)
    → (b ≡ true → IsCall x)
    → (b ≡ false → IsCall y)
    → IsCall (if b then x else y)
if-IsCall true x y hx hy = hx refl
if-IsCall false x y hx hy = hy refl

-- The outcome of a call is settled as the call is closed.
finished-IsCall :
    (o : Outcome) (c : RpcCall) (q : List Item)
    → IsCall c
    → IsCall (record (finish_call o (record c { closed = true })) { queue = q })
unfolding finish_call
finished-IsCall o c q h = ground (arith, h.accounted, h.live, h.awaited, h.over, h.stopped)

fail-IsCall : (e : Error) (b : Bool) (c : RpcCall) → IsCall c → IsCall (fail e b c)
unfolding fail
fail-IsCall e b c h =
    if-IsCall c.closed _ _ (λ k. h) (λ k. put_error-IsCall e _ (finished-IsCall _ c _ h) closed_now)
  where
    closed_now :
        (record (finish_call (outcome_of e) (record c { closed = true })) {
          queue = if b then c.queue else [];
        }).closed
        ≡ true
    closed_now = unfold finish_call in refl

queued-IsCall :
    (q : List Item) (c : RpcCall)
    → IsCall c
    → any is_end q && not c.closed ≡ false
    → IsCall (record c { queue = q })
queued-IsCall q c h k = record {
  accounted = h.accounted;
  live = h.live;
  awaited = h.awaited;
  over = h.over;
  stopped = k;
}

any-append_frame :
    (q : List Item) (f : ResponseFrame) → any is_end (q ++ (frame f ∷ [])) ≡ any is_end q
any-append_frame [] f = refl
any-append_frame (x ∷ q) f = rw (any-append_frame q f) refl

more_stopped :
    (c : RpcCall) (f : ResponseFrame)
    → IsCall c
    → any is_end (c.queue ++ (frame f ∷ [])) && not c.closed ≡ false
more_stopped c f h = rw (any-append_frame c.queue f) h.stopped

last-IsCall :
    (q : List Item) (o : Outcome) (c : RpcCall)
    → IsCall c
    → any is_end q && not c.closed ≡ false
    → IsCall (finish_call o (record c { queue = q; terminal = true }))
unfolding finish_call
last-IsCall q o c h k = ground (arith, h.accounted, h.live, h.awaited, h.over, k)

push-IsCall : (f : ResponseFrame) (b : Bool) (c : RpcCall) → IsCall c → IsCall (push f b c)
unfolding push
push-IsCall f b c h =
    if-IsCall c.closed _ _ (λ k. h)
      (λ k.
        if-IsCall (is_full c) _ _ (λ l. fail-IsCall _ false c h)
          (λ l.
            if-IsCall b _ _ (λ m. last-IsCall _ not_requested c h (more_stopped c f h))
              (λ m. queued-IsCall _ c h (more_stopped c f h))))

close-IsCall :
    (c : RpcCall) (q : List Item)
    → IsCall c
    → c.closed ≡ false
    → IsCall (abandon_call (record c { closed = true; queue = q })).0
unfolding abandon_call
close-IsCall c q h k = ground (arith, h.accounted, h.live, h.awaited, h.over, h.stopped, k)

if_first :
    {A B : Type 0} (b : Bool) (x y : A × B) → (if b then x else y).0 ≡ (if b then x.0 else y.0)
if_first true x y = refl
if_first false x y = refl

either_false : (a b : Bool) → (a || b) ≡ false → (a ≡ false) × (b ≡ false)
either_false a b h = ground arith

close_and_cancel-IsCall : (c : RpcCall) → IsCall c → IsCall (close_and_cancel c).0
unfolding close_and_cancel
close_and_cancel-IsCall c h = subst IsCall (sym (if_first (c.terminal || c.closed) _ _)) (
    if-IsCall (c.terminal || c.closed) _ _ (λ k. h)
      (λ k. close-IsCall c _ h (either_false c.terminal c.closed k).1))

failing-IsCall : (f : Option Error) (c : RpcCall) → IsCall c → IsCall (record c { failure = f })
failing-IsCall f c h = record {
  accounted = h.accounted;
  live = h.live;
  awaited = h.awaited;
  over = h.over;
  stopped = h.stopped;
}

expire-IsCall : (c : RpcCall) → IsCall c → IsCall (expire_at_deadline c).0
unfolding expire_at_deadline
expire-IsCall c h = subst IsCall (sym (if_first (c.closed || c.terminal) _ _)) (
    if-IsCall (c.closed || c.terminal) _ _ (λ k. h)
      (λ k. close_and_cancel-IsCall _ (failing-IsCall _ c h)))

sent-IsCall : (r : Result (Unit {0})) (c : RpcCall) → IsCall c → IsCall (cancellation_sent r c)
unfolding cancellation_sent
sent-IsCall (ok u) c h = h
sent-IsCall (err connection_error) c h = settle-IsCall connection_closed c h
sent-IsCall (err timeout_error) c h = settle-IsCall connection_closed c h
sent-IsCall (err cancelled) c h = h
sent-IsCall (err e) c h = settle-IsCall unconfirmed c h

-- Leaving the dictionary of the pending calls.
unlisted-IsCall :
    (c : RpcCall) → IsCall c → c.pending ≡ false → IsCall (record c { pending = false })
unlisted-IsCall c h k = ground (arith, h.accounted, h.live, h.awaited, h.over, h.stopped, k)

unsent-IsCall : (c : RpcCall) → IsCall c → IsCall (send_failed c)
unfolding send_failed
unsent-IsCall c h = ground (arith, h.accounted, h.live, h.awaited, h.over, h.stopped)

put_error-pending : (e : Error) (c : RpcCall) → (put_error e c).pending ≡ c.pending
put_error-pending e c = ground arith

if_pending :
    (b : Bool) (x y : RpcCall)
    → (b ≡ true → x.pending ≡ false)
    → (b ≡ false → y.pending ≡ false)
    → (if b then x else y).pending ≡ false
if_pending true x y hx hy = hx refl
if_pending false x y hx hy = hy refl

-- A call that has failed is not pending.
fail-pending : (e : Error) (b : Bool) (c : RpcCall) → IsCall c → (fail e b c).pending ≡ false
unfolding fail finish_call
fail-pending e b c h =
    if_pending c.closed _ _ (λ k. ground (arith, h.live, k))
      (λ k. put_error-pending e (record (finish_call (outcome_of e) (record c { closed = true })) {
        queue = if b then c.queue else [];
      }))

lost_pending :
    (c : RpcCall)
    → IsCall c
    → (if c.pending then fail connection_error true c else c).pending ≡ false
lost_pending c h = if_pending c.pending _ _ (λ k. fail-pending connection_error true c h) (λ k. k)

lost_first-IsCall :
    (c : RpcCall) → IsCall c → IsCall (if c.pending then fail connection_error true c else c)
lost_first-IsCall c h =
    if-IsCall c.pending _ _ (λ k. fail-IsCall connection_error true c h) (λ k. h)

pub disconnected-IsCall : (c : RpcCall) → IsCall c → IsCall (disconnected c)
unfolding disconnected
disconnected-IsCall c h =
    settle-IsCall connection_closed _ (unlisted-IsCall _ (lost_first-IsCall c h) (lost_pending c h))

-- The consumer closes the call when it takes an error or the end from the queue.
closing-IsCall :
    (c : RpcCall) (f : Option Error) (xs : List Item)
    → IsCall c
    → c.closed ≡ true
    → IsCall (record c { queue = xs; closed = true; failure = f })
closing-IsCall c f xs h k = ground (arith, h.accounted, h.live, h.awaited, h.over, k)

at_rest-IsCall :
    (past : Bool) (f : Option Error) (c : RpcCall) → IsCall c → IsCall (at_rest past f c).1
at_rest-IsCall past (some e) c h = failing-IsCall none c h
at_rest-IsCall true none c h = elim (Bool-cases (c.closed || c.terminal)) [
  | inl e ↦ rw e h
  | inr e ↦ rw e (close_and_cancel-IsCall c h)
]
at_rest-IsCall false none c h = elim (Bool-cases (c.closed || c.terminal)) [
  | inl e ↦ rw e h
  | inr e ↦ rw e h
]

is_stopped : (b : Bool) → true && not b ≡ false → b ≡ true
is_stopped true h = refl
is_stopped false h = sym h

taken_end :
    (xs : List Item) (f : Option Error) (c : RpcCall)
    → IsCall c
    → c.closed ≡ true
    → IsCall
        (elim f as (λ _. Result ResponseFrame × RpcCall) [
          | none ↦ (err stop_iteration, record c { queue = xs; closed = true })
          | some e ↦ (err e, record c { queue = xs; closed = true; failure = none })
        ]).1
taken_end xs none c h k = closing-IsCall c c.failure xs h k
taken_end xs (some e) c h k = closing-IsCall c none xs h k

from_queue-IsCall :
    (past : Bool) (q : List Item) (c : RpcCall)
    → IsCall c
    → any is_end q && not c.closed ≡ false
    → IsCall (from_queue past q c).1
from_queue-IsCall past [] c h k = at_rest-IsCall past c.failure c h
from_queue-IsCall true (x ∷ xs) c h k = close_and_cancel-IsCall c h
from_queue-IsCall false (frame f ∷ xs) c h k = queued-IsCall xs c h k
from_queue-IsCall false (failing e ∷ xs) c h k = closing-IsCall c none xs h (is_stopped c.closed k)
from_queue-IsCall false (finished ∷ xs) c h k = taken_end xs c.failure c h (is_stopped c.closed k)

step-IsCall : (e : Event) (c : RpcCall) → IsCall c → IsCall (step e c)
unfolding step next
step-IsCall (response f end) c h = push-IsCall f end c h
step-IsCall (failed e) c h = unlisted-IsCall _ (fail-IsCall e true c h) (fail-pending e true c h)
step-IsCall closing c h = close_and_cancel-IsCall c h
step-IsCall expired c h = expire-IsCall c h
step-IsCall unsent c h = unsent-IsCall c h
step-IsCall (cancel_sent r) c h = sent-IsCall r c h
step-IsCall (settled o) c h = settle-IsCall o c h
step-IsCall lost c h = disconnected-IsCall c h
step-IsCall (consumed past) c h = from_queue-IsCall past c.queue c h h.stopped

steps_kept : (es : List Event) (c : RpcCall) → IsCall c → IsCall (steps es c)
unfolding steps
steps_kept [] c h = h
steps_kept (e ∷ es) c h = steps_kept es (step e c) (step-IsCall e c h)

-- From its opening on, in whatever order its answers, its consumer, its deadline, the reports of the
-- broker and the connection act on a call: it is settled, or it stands in a dictionary of the client
-- through which it will be, unless `open_call` itself raised; and it stands in at most one of them.
pub steps-IsCall :
    (es : List Event) (key : Bytes) (capacity : ℕ) → IsCall (steps es (new_call key capacity))
unfolding new_call
steps-IsCall es key capacity =
    steps_kept es _
      (record { accounted = refl; live = refl; awaited = refl; over = refl; stopped = refl })
