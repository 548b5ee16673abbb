-- ===== src/Multiplexer.antt =====
-- multiplexer.py: correlation of responses with requests, and dispatch of pushed messages.
-- A request is an object on a heap, named by its place there. The coroutine of a request and the
-- dictionary share the object, and the coroutine keeps its future also after the object forgets it.
-- Each operation is a run of code without an `await`. The flags of a request are below 256. `_pending`, the lanes and the parts of
-- `_abandon`, `_remove` and `cancel_all` for requests with no correlation id are left out: nothing in
-- the source adds to `_pending` or makes such a request.
pub mod Routing
pub mod Reset
pub mod Shrinks
pub mod Reached
pub mod Session
use fitz_py.Prelude.{
  ℕ, zero, suc, ◌+◌, Bool, true, false, ◌&&◌, ◌||◌, ◌++◌, [], ◌∷◌, List, ltb, leb, if◌then◌else◌,
  Option, none, some, length, take, drop, get_elem?, set, map,
}
use fitz_py.Prelude.Bytes.{Bytes, to_bytes}
use fitz_py.Prelude.Dict.{Dict, get, put, pop, nat_key}
use fitz_py.Errors.{
  Error, Result, ok, err, connection_error, timeout_error, protocol_error, cancelled,
}
use fitz_py.Exec.{Exec, pure, raise, ◌>>=◌, ◌>>◌}

pub data Future : Type 0 where
  waiting : Future
  resolved : Bytes → Future
  failed : Error → Future
  dropped : Future

-- `PendingRequest`, with the future of its coroutine. `linked` says that the attribute `future` is
-- not `None`.
pub record PendingRequest : Type 0 where
  pub linked : Bool
  pub future : Future
  pub sent : Bool
  pub correlation_id : ℕ

-- A notification handler returns or raises, and a classifier too; `pushed` and `errors` record the
-- calls of the handlers and of `on_error`.
pub record Multiplexer : Type 0 where
  pub correlated : Dict ℕ ℕ
  pub requests : List PendingRequest
  pub handlers : Dict ℕ (Bytes → Option Error)
  pub classifiers : Dict ℕ (Bytes → Result Bool)
  pub connected : Bool
  pub protocol_version : ℕ
  pub capabilities : ℕ
  pub capability_ids : List ℕ
  pub next_id : ℕ
  pub pushed : List (ℕ × Bytes)
  pub errors : List Error

abbrev pub max_u64 : ℕ
max_u64 = 0xFFFF_FFFF_FFFF_FFFF

unfoldable pub set_connected : Multiplexer → Multiplexer
set_connected m = record m { connected = true; next_id = 1 }

-- `set_result` or `set_exception` on a future that is not done.
abbrev pub settle : Future → PendingRequest → PendingRequest
settle f p = elim p.future as (λ _. PendingRequest) [
  | waiting ↦ if p.linked then record p { future = f } else p
  | _ ↦ p
]

-- The object at a place of the heap is changed.
unfoldable pub update :
    ℕ → (PendingRequest → PendingRequest) → List PendingRequest → List PendingRequest
update i f [] = []
update zero f (p ∷ ps) = f p ∷ ps
update (suc i) f (p ∷ ps) = p ∷ update i f ps

-- `cancel_all`
unfoldable pub cancel_all : Dict ℕ ℕ → List PendingRequest → List PendingRequest
cancel_all [] ps = ps
cancel_all ((id, i) ∷ d) ps = cancel_all d (update i (settle (failed connection_error)) ps)

unfoldable pub set_disconnected : Multiplexer → Multiplexer
set_disconnected m = record m {
  connected = false;
  protocol_version = 0;
  capabilities = 0;
  capability_ids = [];
  requests = cancel_all m.correlated m.requests;
  correlated = [];
}

abbrev pub correlation_enabled : Multiplexer → Bool
correlation_enabled m = leb 2 m.protocol_version

unfoldable pub set_capabilities : ℕ → ℕ → Multiplexer → Multiplexer
set_capabilities version capabilities m = record m {
  protocol_version = version;
  capabilities = capabilities;
}

unfoldable pub next_correlation_id : Exec Multiplexer ℕ
next_correlation_id m =
    if ltb max_u64 m.next_id
    then (err connection_error, m)
    else (ok m.next_id, record m { next_id = m.next_id + 1 })

unfoldable pub register_notification_handler :
    ℕ → (Bytes → Option Error) → Multiplexer → Multiplexer
register_notification_handler kind h m = record m { handlers = put kind h m.handlers }

unfoldable pub unregister_notification_handler : ℕ → Multiplexer → Multiplexer
unregister_notification_handler kind m = record m { handlers = pop kind m.handlers }

unfoldable pub register_push_classifier : ℕ → (Bytes → Result Bool) → Multiplexer → Multiplexer
register_push_classifier kind c m = record m { classifiers = put kind c m.classifiers }

-- The header of an encoded frame with its flags and correlation id replaced.
unfoldable pub patch_frame : Bytes → ℕ → ℕ → Bytes
patch_frame frame flags id = take 2 frame ++ (flags ∷ (to_bytes 8 id ++ drop 11 frame))

-- `_issue_request`, up to the sending of the frame: the place of the new request, and the frame.
unfoldable pub issue_request : Bytes → ℕ → Exec Multiplexer (ℕ × Bytes)
issue_request frame flags m =
    if correlation_enabled m
    then (do
      id ← next_correlation_id
      λ m'. (
        ok (length m'.requests, patch_frame frame flags id),
        record m' {
          requests =
              m'.requests
              ++ (record { linked = true; future = waiting; sent = false; correlation_id = id }
                  ∷ []);
          correlated = put id (length m'.requests) m'.correlated;
        },
      ))
        m
    else (err connection_error, m)

abbrev request_at : ℕ → Multiplexer → Option PendingRequest
request_at i m = get_elem? m.requests i

mark_sent : ℕ → Multiplexer → Multiplexer
unfolding update
mark_sent i m = record m { requests = update i (λ p. record p { sent = true }) m.requests }

-- `_remove`: by the correlation id of the request.
remove_request : PendingRequest → Multiplexer → Multiplexer
remove_request p m = record m { correlated = pop p.correlation_id m.correlated }

unfoldable pub remove : ℕ → Multiplexer → Multiplexer
unfolding remove_request
remove i m = elim (request_at i m) [ none ↦ m | some p ↦ remove_request p m ]

-- `_abandon`: a request that was sent stays as a tombstone for a late reply.
abandon_request : ℕ → PendingRequest → Multiplexer → Multiplexer
unfolding remove_request update
abandon_request i p m =
    if p.sent
    then record m { requests = update i (λ q. record q { linked = false }) m.requests }
    else remove_request p m

unfoldable pub abandon : ℕ → Multiplexer → Multiplexer
unfolding abandon_request
abandon i m = elim (request_at i m) [ none ↦ m | some p ↦ abandon_request i p m ]

-- The coroutine after its frame was sent: `pending.sent = True`.
unfoldable pub send_done : ℕ → Multiplexer → Multiplexer
unfolding mark_sent
send_done i m = mark_sent i m

-- It raised: `FitzTimeoutError` and `FitzConnectionError` leave a tombstone.
unfoldable pub send_failed : ℕ → Error → Multiplexer → Error × Multiplexer
unfolding mark_sent abandon remove
send_failed i timeout_error m = (timeout_error, abandon i (mark_sent i m))
send_failed i connection_error m = (connection_error, abandon i (mark_sent i m))
send_failed i e m = (e, remove i m)

-- The caller was cancelled during the send, which then ended.
unfoldable pub send_cancelled : Bool → ℕ → Multiplexer → Error × Multiplexer
unfolding mark_sent abandon remove
send_cancelled true i m = (cancelled, abandon i (abandon i (mark_sent i m)))
send_cancelled false i m = (cancelled, abandon i (remove i m))

-- The wait for the response ended by the clock, or the caller was cancelled.
unfoldable pub wait_timed_out : ℕ → Multiplexer → Error × Multiplexer
unfolding abandon
wait_timed_out i m = (timeout_error, abandon i m)

unfoldable pub wait_cancelled : ℕ → Multiplexer → Error × Multiplexer
unfolding abandon
wait_cancelled i m = (cancelled, abandon i m)

-- `dispatch_correlated`
unfoldable pub dispatch_correlated :
    ℕ → Bytes → Bool → Multiplexer → Result (Unit {0}) × Multiplexer
unfolding update
dispatch_correlated id payload response_final m = elim (get id m.correlated) [
  | none ↦ (err (protocol_error none), m)
  | some i ↦
      if response_final
      then (
        ok tt,
        record m {
          correlated = pop id m.correlated;
          requests = update i (settle (resolved payload)) m.requests;
        },
      )
      else (ok tt, m)
]

report_error : Error → Multiplexer → Multiplexer
report_error e m = record m { errors = m.errors ++ (e ∷ []) }

call_handler : ℕ → Bytes → Option (Bytes → Option Error) → Multiplexer → Multiplexer
unfolding report_error
call_handler kind payload none m = m
call_handler kind payload (some h) m =
    let m' = record m { pushed = m.pushed ++ ((kind, payload) ∷ []) } in
    elim (h payload) [ none ↦ m' | some e ↦ report_error e m' ]

-- `_dispatch_push`
unfoldable pub dispatch_push : ℕ → Bytes → Multiplexer → Multiplexer
unfolding call_handler
dispatch_push kind payload m = call_handler kind payload (get kind m.handlers) m

classified : ℕ → Bytes → Result Bool → Multiplexer → Multiplexer
unfolding dispatch_push
classified kind payload (ok b) m = dispatch_push kind payload m
classified kind payload (err e) m = dispatch_push kind payload (report_error e m)

-- `dispatch`, of a message with no correlation id.
unfoldable pub dispatch : ℕ → Bytes → Multiplexer → Multiplexer
unfolding dispatch_push classified
dispatch kind payload m = elim (get kind m.classifiers) [
  | none ↦ dispatch_push kind payload m
  | some c ↦ classified kind payload (c payload) m
]
