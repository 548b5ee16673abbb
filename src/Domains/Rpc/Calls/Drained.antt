-- ===== src/Domains/Rpc/Calls/Drained.antt =====
-- What the consumer of a call reads to its end.
use fitz_py.Prelude.{
  ℕ, zero, suc, ◌≡◌, refl, sym, subst, ap, ◌∙◌, Bool, true, false, inl, inr, ◌||◌, ◌++◌, [], ◌∷◌,
  List, Option, none, some, map, Bool-cases,
}
use fitz_py.Prelude.Bytes.{Bytes}
use mathlib.Core.List.{append-nil}
use fitz_py.Errors.{Error, Result, ok, err, stop_iteration, timeout_error}
use fitz_py.Domains.Rpc.Calls.{
  ResponseFrame, not_requested, Item, frame, failing, RpcCall, outcome_of, is_full, put_error,
  finish_call, fail, push, from_queue, next, close_and_cancel,
}

-- The consumer asks `n` times, each time before the deadline.
unfoldable pub read_all : ℕ → RpcCall → List (Option (Result ResponseFrame))
read_all zero c = []
read_all (suc n) c = let p = next false c in p.0 ∷ read_all n p.1

-- An open call that has got some frames and no end.
abbrev pub open_call : Bytes → ℕ → List ResponseFrame → RpcCall
open_call key capacity fs = record {
  key = key;
  capacity = capacity;
  queue = map frame fs;
  closed = false;
  terminal = false;
  failure = none;
  cancellation = none;
  pending = true;
  cancelling = false;
  dropped = false;
}

abbrev pub returned : ResponseFrame → Option (Result ResponseFrame)
returned f = some (ok f)

abbrev pub raised : Error → Option (Result ResponseFrame)
raised e = some (err e)

-- One for each frame, and `n` more.
abbrev pub asks : List ResponseFrame → ℕ → ℕ
asks [] n = n
asks (f ∷ fs) n = suc (asks fs n)

-- The frames in the queue come first, then what follows them.
read_frames :
    (fs : List ResponseFrame) (n : ℕ) (c : RpcCall) (q : List Item)
    → c.queue ≡ map frame fs ++ q
    → read_all (asks fs n) c ≡ map returned fs ++ read_all n (record c { queue = q })
unfolding read_all next
read_frames [] n c q e =
    subst (λ x. read_all n (record c { queue = x }) ≡ read_all n (record c { queue = q })) (sym e)
      refl
read_frames (f ∷ fs) n c q e =
    let again = read_frames fs n (record c { queue = map frame fs ++ q }) q refl in
    subst
      (λ x.
        (from_queue false x c).0 ∷ read_all (asks fs n) (from_queue false x c).1
        ≡ map returned (f ∷ fs) ++ read_all n (record c { queue = q }))
      (sym e) (ap (λ t. returned f ∷ t) again)

no_queue :
    (fs : List ResponseFrame) (n : ℕ) (c : RpcCall)
    → c.queue ≡ map frame fs
    → read_all (asks fs n) c ≡ map returned fs ++ read_all n (record c { queue = [] })
no_queue fs n c e = read_frames fs n c [] (e ∙ sym (append-nil (map frame fs)))

put_error_drained :
    (fs : List ResponseFrame) (e : Error) (c : RpcCall)
    → c.queue ≡ map frame fs
    → c.closed ≡ true
    → read_all (asks fs 2) (put_error e c)
      ≡ map returned fs ++ (raised e ∷ raised stop_iteration ∷ [])
unfolding read_all next
put_error_drained fs e c q k = elim (Bool-cases (is_full c)) [
  | inl full ↦ rw full (no_queue fs 2 (record c { failure = some e }) q ∙ ended c.terminal)
  | inr room ↦ rw room (
      read_frames fs 2 (record c { queue = c.queue ++ (failing e ∷ []); failure = none })
        (failing e ∷ []) (ap (λ x. x ++ (failing e ∷ [])) q))
]
  where
    ended :
        (b : Bool)
        → map returned fs ++ read_all 2 (record c { queue = []; failure = some e; terminal = b })
          ≡ map returned fs ++ (raised e ∷ raised stop_iteration ∷ [])
    ended b = rw k refl

or-true : (a b : Bool) → b ≡ true → (a || b) ≡ true
or-true true b h = refl
or-true false b h = h

late_next :
    (first : ResponseFrame) (q : List Item) (e : Error) (c : RpcCall)
    → c.queue ≡ frame first ∷ q
    → c.closed ≡ true
    → next true (put_error e c) ≡ (raised timeout_error, put_error e c)
unfolding next close_and_cancel
late_next first q e c h k = elim (Bool-cases (is_full c)) [
  | inl full ↦ rw (full, h, or-true c.terminal c.closed k) refl
  | inr room ↦ rw (room, h, or-true c.terminal c.closed k) refl
]

-- Where a call fails with an error that keeps what is buffered, whether its queue is full or not, a
-- consumer that reads on before the deadline gets every frame that came, in order, then the error,
-- and then the iteration stops. One that asks past the deadline, while frames are buffered, gets the
-- timeout and takes nothing.
pub read_all-fail :
    (key : Bytes) (capacity : ℕ) (fs : List ResponseFrame) (e : Error)
    → (read_all (asks fs 2) (fail e true (open_call key capacity fs))
        ≡ map returned fs ++ (raised e ∷ raised stop_iteration ∷ []))
      × ((first : ResponseFrame)
          → next true (fail e true (open_call key capacity (first ∷ fs)))
            ≡ (raised timeout_error, fail e true (open_call key capacity (first ∷ fs))))
unfolding fail finish_call
read_all-fail key capacity fs e = (
  put_error_drained fs e
      (record (open_call key capacity fs) {
        pending = false;
        closed = true;
        cancellation = some (outcome_of e);
      })
      refl refl,
  λ first.
      late_next first (map frame fs) e
        (record (open_call key capacity (first ∷ fs)) {
          pending = false;
          closed = true;
          cancellation = some (outcome_of e);
        })
        refl refl,
)

-- Where the last frame comes, the consumer gets every frame in order and then the iteration stops.
pub read_all-push :
    (key : Bytes) (capacity : ℕ) (fs : List ResponseFrame) (last : ResponseFrame)
    → is_full (open_call key capacity fs) ≡ false
    → read_all (asks fs 2) (push last true (open_call key capacity fs))
      ≡ map returned fs ++ (returned last ∷ raised stop_iteration ∷ [])
unfolding push finish_call read_all next
read_all-push key capacity fs last room = rw room (
    read_frames fs 2
      (record (open_call key capacity fs) {
        queue = map frame fs ++ (frame last ∷ []);
        terminal = true;
        pending = false;
        cancellation = some not_requested;
      })
      (frame last ∷ []) refl)
