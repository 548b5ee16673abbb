-- ===== src/Examples/Requests.antt =====
-- The multiplexer at concrete inputs.
use fitz_py.Prelude.{ℕ, ◌≡◌, refl, [], ◌∷◌, true, none, some, arith, get_elem?, List}
use fitz_py.Prelude.Bytes.{Bytes}
use fitz_py.Prelude.Dict.{get, nat_key}
use fitz_py.Errors.{ok, err, protocol_error}
use fitz_py.Multiplexer.{Multiplexer, PendingRequest, waiting, resolved, dispatch_correlated}
use fitz_py.Multiplexer.Routing.{dispatch_correlated-answers}
use fitz_py.Multiplexer.Reached

abbrev sent_request : ℕ → PendingRequest
sent_request id = record { linked = true; future = waiting; sent = true; correlation_id = id }

abbrev busy : Multiplexer
busy = record {
  correlated = (1, 0) ∷ (2, 1) ∷ [];
  requests = sent_request 1 ∷ sent_request 2 ∷ [];
  handlers = [];
  classifiers = [];
  connected = true;
  protocol_version = 3;
  capabilities = 0;
  capability_ids = [];
  next_id = 3;
  pushed = [];
  errors = [];
}

dispatch_correlated-answers_example :
    ((dispatch_correlated 2 (9 ∷ []) true busy).0 ≡ ok tt)
    × (get_elem? (dispatch_correlated 2 (9 ∷ []) true busy).1.requests 1
        ≡ some (record (sent_request 2) { future = resolved (9 ∷ []) }))
    × (get_elem? (dispatch_correlated 2 (9 ∷ []) true busy).1.requests 0 ≡ some (sent_request 1))
    × ((dispatch_correlated 2 [] true (dispatch_correlated 2 (9 ∷ []) true busy).1).0
        ≡ err (protocol_error none))
unfolding get
dispatch_correlated-answers_example =
    dispatch_correlated-answers busy 2 1 0 (sent_request 2) (9 ∷ []) [] true refl refl refl refl
      (omega arith)

abbrev blank_frame : Bytes
blank_frame = 0 ∷ 200 ∷ 0 ∷ 0 ∷ 0 ∷ 0 ∷ 0 ∷ 0 ∷ 0 ∷ 0 ∷ 0 ∷ 0 ∷ 0 ∷ 0 ∷ 1 ∷ 5 ∷ []

abbrev idle : Multiplexer
idle = record busy { correlated = []; requests = []; next_id = 1 }

abbrev lost_and_found : List Reached.Event
lost_and_found =
    Reached.issues blank_frame 0
    ∷ Reached.sent 0
    ∷ Reached.disconnects
    ∷ Reached.connects
    ∷ Reached.negotiates 3 0
    ∷ Reached.issues blank_frame 0
    ∷ []
