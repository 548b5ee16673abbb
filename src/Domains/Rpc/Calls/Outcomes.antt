-- ===== src/Domains/Rpc/Calls/Outcomes.antt =====
-- What a caller gets to know of the cancellation.
use fitz_py.Prelude.{
  Bool-cases, inl, inr, ◌||◌, ◌≡◌, refl, ◌∙◌, Bool, true, false, [], ◌∷◌, List, if◌then◌else◌,
  Option, none, some, is_some, arith,
}
use fitz_py.Errors.{Error, Result, ok, err, connection_error, timeout_error, cancelled}
use fitz_py.Domains.Rpc.Calls.{
  ResponseFrame, Outcome, connection_closed, unconfirmed, Item, frame, failing, finished, RpcCall,
  Event, response, failed, closing, expired, unsent, cancel_sent, settled, lost, consumed,
  finish_call, fail, push, is_full, put_error, abandon_call, close_and_cancel, expire_at_deadline,
  settle_cancellation, send_failed, cancellation_sent, disconnected, taken, at_rest, from_queue,
  next, step, steps,
}
use fitz_py.Domains.Rpc.Calls.Settled.{IsCall, disconnected-IsCall}

-- The outcome of the call is settled, and this is it.
pub record HasOutcome (o : Outcome) (c : RpcCall) : Type 0 where
  pub at : c.cancellation ≡ some o

-- It stays.
module _ (o : Outcome) where
  abbrev IsSettled : RpcCall → Type 0
  IsSettled = HasOutcome o

  if-IsSettled :
      (b : Bool) (x y : RpcCall) → IsSettled x → IsSettled y → IsSettled (if b then x else y)
  if-IsSettled true x y hx hy = hx
  if-IsSettled false x y hx hy = hy

  settle-IsSettled : (p : Outcome) (c : RpcCall) → IsSettled c → IsSettled (settle_cancellation p c)
  unfolding settle_cancellation
  settle-IsSettled p c h = ground (arith, h.at)

  finish-IsSettled : (p : Outcome) (c : RpcCall) → IsSettled c → IsSettled (finish_call p c)
  unfolding finish_call
  finish-IsSettled p c h = ground (arith, h.at)

  put-IsSettled : (e : Error) (c : RpcCall) → IsSettled c → IsSettled (put_error e c)
  put-IsSettled e c h = ground (arith, h.at)

  queued-IsSettled :
      (q : List Item) (c : RpcCall) → IsSettled c → IsSettled (record c { queue = q })
  queued-IsSettled q c h = record { at = h.at }

  fail-IsSettled : (e : Error) (b : Bool) (c : RpcCall) → IsSettled c → IsSettled (fail e b c)
  unfolding fail
  fail-IsSettled e b c h = if-IsSettled c.closed _ _ h (
      put-IsSettled e _ (
        queued-IsSettled _ _
          (finish-IsSettled _ (record c { closed = true }) (record { at = h.at }))))

  push-IsSettled :
      (f : ResponseFrame) (b : Bool) (c : RpcCall) → IsSettled c → IsSettled (push f b c)
  unfolding push
  push-IsSettled f b c h = if-IsSettled c.closed _ _ h (
      if-IsSettled (is_full c) _ _ (fail-IsSettled _ false c h)
        (if-IsSettled b _ _ (finish-IsSettled _ _ (record { at = h.at })) (record { at = h.at })))

  close-IsSettled : (c : RpcCall) → IsSettled c → IsSettled (close_and_cancel c).0
  unfolding close_and_cancel abandon_call
  close-IsSettled c h = ground (arith, h.at)

  expire-IsSettled : (c : RpcCall) → IsSettled c → IsSettled (expire_at_deadline c).0
  unfolding expire_at_deadline close_and_cancel abandon_call
  expire-IsSettled c h = ground (arith, h.at)

  sent-IsSettled :
      (r : Result (Unit {0})) (c : RpcCall) → IsSettled c → IsSettled (cancellation_sent r c)
  unfolding cancellation_sent
  sent-IsSettled (ok u) c h = h
  sent-IsSettled (err connection_error) c h = settle-IsSettled connection_closed c h
  sent-IsSettled (err timeout_error) c h = settle-IsSettled connection_closed c h
  sent-IsSettled (err cancelled) c h = h
  sent-IsSettled (err e) c h = settle-IsSettled unconfirmed c h

  unlisted-IsSettled : (c : RpcCall) → IsSettled c → IsSettled (record c { pending = false })
  unlisted-IsSettled c h = record { at = h.at }

  lost-IsSettled : (c : RpcCall) → IsSettled c → IsSettled (disconnected c)
  unfolding disconnected
  lost-IsSettled c h = settle-IsSettled connection_closed _ (
      unlisted-IsSettled _
        (if-IsSettled c.pending _ _ (fail-IsSettled connection_error true c h) h))

  end-IsSettled :
      (f : Option Error) (c : RpcCall)
      → IsSettled c
      → IsSettled (taken finished (record c { failure = f })).1
  end-IsSettled none c h = record { at = h.at }
  end-IsSettled (some e) c h = record { at = h.at }

  rest-IsSettled :
      (past : Bool) (f : Option Error) (c : RpcCall) → IsSettled c → IsSettled (at_rest past f c).1
  rest-IsSettled past (some e) c h = record { at = h.at }
  rest-IsSettled true none c h = elim (Bool-cases (c.closed || c.terminal)) [
    | inl e ↦ rw e h
    | inr e ↦ rw e (close-IsSettled c h)
  ]
  rest-IsSettled false none c h = elim (Bool-cases (c.closed || c.terminal)) [
    | inl e ↦ rw e h
    | inr e ↦ rw e h
  ]

  queue-IsSettled :
      (past : Bool) (q : List Item) (c : RpcCall) → IsSettled c → IsSettled (from_queue past q c).1
  queue-IsSettled past [] c h = rest-IsSettled past c.failure c h
  queue-IsSettled true (x ∷ xs) c h = close-IsSettled c h
  queue-IsSettled false (frame f ∷ xs) c h = record { at = h.at }
  queue-IsSettled false (failing e ∷ xs) c h = record { at = h.at }
  queue-IsSettled false (finished ∷ xs) c h =
      end-IsSettled c.failure (record c { queue = xs }) (record { at = h.at })

  step-IsSettled : (e : Event) (c : RpcCall) → IsSettled c → IsSettled (step e c)
  unfolding step next send_failed
  step-IsSettled (response f end) c h = push-IsSettled f end c h
  step-IsSettled (failed e) c h = unlisted-IsSettled _ (fail-IsSettled e true c h)
  step-IsSettled closing c h = close-IsSettled c h
  step-IsSettled expired c h = expire-IsSettled c h
  step-IsSettled unsent c h = record { at = h.at }
  step-IsSettled (cancel_sent r) c h = sent-IsSettled r c h
  step-IsSettled (settled p) c h = settle-IsSettled p c h
  step-IsSettled lost c h = lost-IsSettled c h
  step-IsSettled (consumed past) c h = queue-IsSettled past c.queue c h

  steps-IsSettled : (es : List Event) (c : RpcCall) → IsSettled c → IsSettled (steps es c)
  unfolding steps
  steps-IsSettled [] c h = h
  steps-IsSettled (e ∷ es) c h = steps-IsSettled es (step e c) (step-IsSettled e c h)

settle_flags :
    (o : Outcome) (c : RpcCall)
    → ((settle_cancellation o c).cancelling ≡ false)
      × (((settle_cancellation o c).pending ≡ c.pending)
          × ((settle_cancellation o c).dropped ≡ c.dropped))
unfolding settle_cancellation
settle_flags o c = ground arith

fail_dropped : (e : Error) (b : Bool) (c : RpcCall) → (fail e b c).dropped ≡ c.dropped
unfolding fail finish_call
fail_dropped e b c = ground arith

lost_flags :
    (c : RpcCall)
    → ((disconnected c).cancelling ≡ false)
      × (((disconnected c).pending ≡ false) × ((disconnected c).dropped ≡ c.dropped))
unfolding disconnected
lost_flags c =
    let first = if c.pending then fail connection_error true c else c in
    let (a, (b, d)) = settle_flags connection_closed (record first { pending = false }) in
    (a, (b, d ∙ same_drop c.pending))
  where
    same_drop : (b : Bool) → (if b then fail connection_error true c else c).dropped ≡ c.dropped
    same_drop true = fail_dropped connection_error true c
    same_drop false = refl

has_outcome : (o : Option Outcome) → is_some o ≡ true → (p : Outcome) × (o ≡ some p)
has_outcome none h = cc
has_outcome (some p) h = (p, refl)

-- Once the connection is lost, a call that somebody has stands in no dictionary of the client any
-- more, and its cancellation has an outcome, which nothing that happens afterwards changes: whoever
-- awaits it is answered, and answered once.
pub disconnected-HasOutcome :
    (c : RpcCall) (es : List Event)
    → IsCall c
    → c.dropped ≡ false
    → ((disconnected c).pending ≡ false)
      × (((disconnected c).cancelling ≡ false)
          × ((o : Outcome) × (HasOutcome o (disconnected c)
                × HasOutcome o (steps es (disconnected c)))))
disconnected-HasOutcome c es h k =
    let (a, (b, d)) = lost_flags c in
    let all = (disconnected-IsCall c h).accounted in
    let some_outcome : is_some (disconnected c).cancellation ≡ true =
      ground (arith, all, a, b, d, k) in
    let (o, e) = has_outcome (disconnected c).cancellation some_outcome in
    let now : HasOutcome o (disconnected c) = record { at = e } in
    (b, (a, (o, (now, steps-IsSettled o es (disconnected c) now))))

-- A consumer that leaves a call before its last frame asks for its cancellation, once: leaving again
-- asks no more. The first report on it is the outcome, whatever comes later.
pub close_and_cancel-HasOutcome :
    (c : RpcCall) (o : Outcome) (es : List Event)
    → IsCall c
    → c.closed ≡ false
    → c.terminal ≡ false
    → ((close_and_cancel c).1 ≡ true)
      × (((close_and_cancel (close_and_cancel c).0).1 ≡ false)
          × HasOutcome o (steps es (settle_cancellation o (close_and_cancel c).0)))
unfolding close_and_cancel abandon_call settle_cancellation
close_and_cancel-HasOutcome c o es h k l =
    let unsettled : is_some c.cancellation ≡ false = ground (arith, h.over, k, l) in
    let unasked : c.cancelling ≡ false = ground (arith, h.awaited, k) in
    let no_outcome : c.cancellation ≡ none = ground (arith, unsettled) in
    (
      ground (arith, k, l, unsettled, unasked),
      (
        ground (arith, k, l, unsettled, unasked),
        steps-IsSettled o es _
            (record { at = ground (arith, k, l, unsettled, unasked, no_outcome) }),
      ),
    )
