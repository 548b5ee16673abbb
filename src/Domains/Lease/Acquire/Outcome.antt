-- ===== src/Domains/Lease/Acquire/Outcome.antt =====
-- How the calls of `acquire` that wait for a queued answer come to an end.
use fitz_py.Prelude.{
  ℕ, Bool, ◌≡◌, ◌≢◌, refl, sym, ◌∙◌, subst, true, false, inl, inr, [], ◌∷◌, List, Option, none,
  some, set, get_elem?,
}
use fitz_py.Prelude.Bytes.{Bytes}
use fitz_py.Errors.{Result, ok, err, connection_error, cancelled, ◌>>=◌}
use fitz_py.Domains.Lease.Acquire.{
  requested, queueing, draining, ended, Call, Acquires, Event, resume, drained, queued_reply,
  disconnect, finish, final_token, resume_call, drain_call, fail_all, step_call, step,
  decode_acquire,
}
use fitz_py.Domains.Lease.Acquire.Turns.{holds, Line, IsTurn, get-set, get-set_other}
use fitz_py.Domains.Lease.Acquire.Moves.{own}
use fitz_py.Domains.Lease.Acquire.Kept.{replied, failed, replied_alone, failed_alone}

-- A call whose request has been answered with a place in the queue.
abbrev pub queued_call : Result Bytes → Option (Result Bytes) → Call
queued_call payload r = record {
  waits = true;
  payload = payload;
  phase = queueing;
  queued_response = r;
}

-- A call that was cancelled while its future was in the deque.
abbrev pub cancelled_call : Result Bytes → Option (Result Bytes) → Call
cancelled_call payload r = record {
  waits = true;
  payload = payload;
  phase = draining;
  queued_response = r;
}

-- The call has come to this end, the lock is free, and no other call has changed.
abbrev pub HasEnded : ℕ → Call → Acquires → Acquires → Type 0
HasEnded i c s t =
    (t.locked ≡ false)
    × ((get_elem? t.calls i ≡ some c)
        × ((j : ℕ) → i ≢ j → get_elem? t.calls j ≡ get_elem? s.calls j))

undone_alone :
    (q : List ℕ) (i : ℕ) (c : Call)
    → Line q i c
    → c.queued_response ≡ none
    → c.phase ≢ requested
    → q ≡ i ∷ []
undone_alone q i c (inl (e, l)) n p = e
undone_alone q i c (inr (e, inl (w, d))) n p = absurd (let x : false ≡ true = rw n at d in cc)
undone_alone q i c (inr (e, inr (w, r))) n p = absurd (p r)

done_empty :
    (q : List ℕ) (i : ℕ) (c : Call) (r : Result Bytes)
    → Line q i c
    → c.queued_response ≡ some r
    → q ≡ []
done_empty q i c r (inl (e, (w, n))) d = absurd (let x : none ≡ some r = sym n ∙ d in cc)
done_empty q i c r (inr (e, l)) d = e

finish-HasEnded :
    (s t : Acquires) (i : ℕ) (c : Call) (r : Result ℕ)
    → get_elem? t.calls i ≡ some c
    → ((j : ℕ) → i ≢ j → get_elem? t.calls j ≡ get_elem? s.calls j)
    → HasEnded i (record c { phase = ended r }) s (finish i c r t)
finish-HasEnded s t i c r g h = (
  refl,
  (
    get-set t.calls i c (record c { phase = ended r }) g,
    λ j n. get-set_other t.calls i j (record c { phase = ended r }) n ∙ h j n,
  ),
)

-- A call that goes on, or that drains, after its future is done.
resumed-HasEnded :
    (s t : Acquires) (i : ℕ) (payload : Result Bytes) (r : Result Bytes)
    → get_elem? t.calls i ≡ some (queued_call payload (some r))
    → ((j : ℕ) → i ≢ j → get_elem? t.calls j ≡ get_elem? s.calls j)
    → HasEnded i
        (record (queued_call payload (some r)) {
          phase = ended (r >>= decode_acquire >>= final_token);
        })
        s
        (step (resume i) t)
unfolding step step_call resume_call
resumed-HasEnded s t i payload r g h = rw g (
    finish-HasEnded s t i (queued_call payload (some r)) (r >>= decode_acquire >>= final_token) g h)

drained-HasEnded :
    (s t : Acquires) (i : ℕ) (payload : Result Bytes) (r : Result Bytes)
    → get_elem? t.calls i ≡ some (cancelled_call payload (some r))
    → ((j : ℕ) → i ≢ j → get_elem? t.calls j ≡ get_elem? s.calls j)
    → HasEnded i
        (record (cancelled_call payload (some r)) { phase = ended (err cancelled) })
        s
        (step (drained i) t)
unfolding step step_call drain_call
drained-HasEnded s t i payload r g h =
    rw g (finish-HasEnded s t i (cancelled_call payload (some r)) (err cancelled) g h)

-- Another state with one call changed.
abbrev HasCall : ℕ → Call → Acquires → Acquires → Type 0
HasCall i c s t =
    (get_elem? t.calls i ≡ some c) × ((j : ℕ) → i ≢ j → get_elem? t.calls j ≡ get_elem? s.calls j)

set-HasCall :
    (s : Acquires) (i : ℕ) (c d : Call)
    → get_elem? s.calls i ≡ some c
    → HasCall i d s (record s { queued = []; calls = set s.calls i d })
set-HasCall s i c d g = (get-set s.calls i c d g, λ j n. get-set_other s.calls i j d n)

module _ (s : Acquires) (i : ℕ) (c : Call) (h : IsTurn s) (g : get_elem? s.calls i ≡ some c)
    (k : holds c.phase ≡ true) (p : c.phase ≢ requested) where
  reply-HasCall :
      (payload : Bytes)
      → c.queued_response ≡ none
      → HasCall i
          (record c { queued_response = some (ok payload) })
          s
          (step (queued_reply payload) s)
  unfolding step
  reply-HasCall payload n =
      let t = own s i c h g k in
      subst
        (λ q. HasCall i (record c { queued_response = some (ok payload) }) s (replied payload q s))
        (sym (undone_alone s.queued i c t.line n p))
        (subst (HasCall i (record c { queued_response = some (ok payload) }) s)
          (sym (replied_alone s i c payload g n))
          (set-HasCall s i c (record c { queued_response = some (ok payload) }) g))

  lost-HasCall_undone :
      c.queued_response ≡ none
      → HasCall i (record c { queued_response = some (err connection_error) }) s (step disconnect s)
  unfolding step
  lost-HasCall_undone n =
      let t = own s i c h g k in
      subst
        (λ q. HasCall i (record c { queued_response = some (err connection_error) }) s (failed q s))
        (sym (undone_alone s.queued i c t.line n p))
        (subst (HasCall i (record c { queued_response = some (err connection_error) }) s)
          (sym (failed_alone s i c g n))
          (set-HasCall s i c (record c { queued_response = some (err connection_error) }) g))

  lost-HasCall_done :
      (r : Result Bytes) → c.queued_response ≡ some r → HasCall i c s (step disconnect s)
  unfolding step fail_all
  lost-HasCall_done r n =
      let t = own s i c h g k in
      subst (λ q. HasCall i c s (failed q s)) (sym (done_empty s.queued i c r t.line n))
        (g, λ j m. refl)

-- The answer that a notification brings reaches the call that waits in the queue: it ends with the
-- token of the answer, or with the error that its decoding gives; the lock is free, and no other
-- call has changed.
pub queued_reply-HasEnded :
    (s : Acquires) (i : ℕ) (payload : Result Bytes) (reply : Bytes)
    → IsTurn s
    → get_elem? s.calls i ≡ some (queued_call payload none)
    → HasEnded i
        (record (queued_call payload (some (ok reply))) {
          phase = ended (decode_acquire reply >>= final_token);
        })
        s
        (step (resume i) (step (queued_reply reply) s))
queued_reply-HasEnded s i payload reply h g =
    let (x, y) = reply-HasCall s i (queued_call payload none) h g refl (λ e. cc) reply refl in
    resumed-HasEnded s (step (queued_reply reply) s) i payload (ok reply) x y

-- What a call finds in its future once the connection is lost.
abbrev pub or_lost : Option (Result Bytes) → Result Bytes
or_lost none = err connection_error
or_lost (some r) = r

lost-HasCall :
    (s : Acquires) (i : ℕ) (c : Call) (o : Option (Result Bytes))
    → IsTurn s
    → get_elem? s.calls i ≡ some c
    → holds c.phase ≡ true
    → c.phase ≢ requested
    → c.queued_response ≡ o
    → HasCall i (record c { queued_response = some (or_lost o) }) s (step disconnect s)
lost-HasCall s i c none h g k p e = lost-HasCall_undone s i c h g k p e
lost-HasCall s i c (some r) h g k p e =
    subst (λ o. HasCall i (record c { queued_response = o }) s (step disconnect s)) e
      (lost-HasCall_done s i c h g k p r e)

-- A call that waits for its queued answer: cancelled or not, what goes on when the answer is there,
-- and how that ends.
abbrev pub held_call : Bool → Result Bytes → Option (Result Bytes) → Call
held_call false payload r = queued_call payload r
held_call true payload r = cancelled_call payload r

abbrev pub wake : Bool → ℕ → Event
wake false i = resume i
wake true i = drained i

abbrev pub end_of : Bool → Result Bytes → Result ℕ
end_of false r = r >>= decode_acquire >>= final_token
end_of true r = err cancelled

-- A lost connection lets a call go that waits for a queued answer: one that was not cancelled ends
-- with the answer that it had got, or with the connection error; one that was cancelled stops
-- draining. The lock is free then, and no other call has changed.
pub disconnect-HasEnded :
    (s : Acquires) (i : ℕ) (is_cancelled : Bool) (payload : Result Bytes)
    (o : Option (Result Bytes))
    → IsTurn s
    → get_elem? s.calls i ≡ some (held_call is_cancelled payload o)
    → HasEnded i
        (record (held_call is_cancelled payload (some (or_lost o))) {
          phase = ended (end_of is_cancelled (or_lost o));
        })
        s
        (step (wake is_cancelled i) (step disconnect s))
disconnect-HasEnded s i false payload o h g =
    let (x, y) = lost-HasCall s i (queued_call payload o) o h g refl (λ e. cc) refl in
    resumed-HasEnded s (step disconnect s) i payload (or_lost o) x y
disconnect-HasEnded s i true payload o h g =
    let (x, y) = lost-HasCall s i (cancelled_call payload o) o h g refl (λ e. cc) refl in
    drained-HasEnded s (step disconnect s) i payload (or_lost o) x y
