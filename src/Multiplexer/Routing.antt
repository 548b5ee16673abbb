-- ===== src/Multiplexer/Routing.antt =====
-- Requests and responses meet by their correlation id, once.
use fitz_py.Prelude.{
  ℕ, zero, suc, ◌≤◌, ◌≡◌, ◌≢◌, refl, sym, ap, ◌∙◌, Bool, true, false, ◌++◌, [], ◌∷◌, List, none,
  some, length, length-append, drop, get_elem?, arith, ==_self, take_eq, drop_eq,
}
use mathlib.Core.List.{append_assoc}
use fitz_py.Prelude.Bytes.{Bytes, to_bytes, length-to_bytes}
use fitz_py.Prelude.Dict.{get, pop, nat_key, get-pop}
use fitz_py.Errors.{ok, err, protocol_error}
use fitz_py.Protocol.Frame.{encode_frame, decode_frame}
use fitz_py.Protocol.Frame.RoundTrip.{decode_frame-encode_frame}
use fitz_py.Multiplexer.{
  waiting, resolved, PendingRequest, Multiplexer, max_u64, settle, update, patch_frame, abandon,
  abandon_request, wait_timed_out, dispatch_correlated,
}

pub update_self :
    (i : ℕ) (f : PendingRequest → PendingRequest) (ps : List PendingRequest) (p : PendingRequest)
    → get_elem? ps i ≡ some p
    → get_elem? (update i f ps) i ≡ some (f p)
unfolding update
update_self i f [] p e = cc
update_self zero f (x ∷ ps) p e = ap some (ap f (cc))
update_self (suc i) f (x ∷ ps) p e = update_self i f ps p e

pub update-other :
    (i j : ℕ) (f : PendingRequest → PendingRequest) (ps : List PendingRequest)
    → i ≢ j
    → get_elem? (update i f ps) j ≡ get_elem? ps j
unfolding update
update-other i j f [] h = refl
update-other zero zero f (x ∷ ps) h = absurd (h refl)
update-other zero (suc j) f (x ∷ ps) h = refl
update-other (suc i) zero f (x ∷ ps) h = refl
update-other (suc i) (suc j) f (x ∷ ps) h = update-other i j f ps (λ e. h (ap suc e))

-- A final response resolves the future of the one request that was sent with its correlation id,
-- and changes no other request; the id is then free, so that a second response with it is a
-- protocol error.
pub dispatch_correlated-answers :
    (m : Multiplexer) (id i j : ℕ) (p : PendingRequest) (payload again : Bytes) (final : Bool)
    → get id m.correlated ≡ some i
    → get_elem? m.requests i ≡ some p
    → p.linked ≡ true
    → p.future ≡ waiting
    → i ≢ j
    → ((dispatch_correlated id payload true m).0 ≡ ok tt)
      × (get_elem? (dispatch_correlated id payload true m).1.requests i
          ≡ some (record p { future = resolved payload }))
      × (get_elem? (dispatch_correlated id payload true m).1.requests j ≡ get_elem? m.requests j)
      × ((dispatch_correlated id again final (dispatch_correlated id payload true m).1).0
          ≡ err (protocol_error none))
unfolding dispatch_correlated
dispatch_correlated-answers m id i j p payload again final known here linked idle other =
    let settled : settle (resolved payload) p ≡ record p { future = resolved payload } =
      ground arith in
    let gone : get id (pop id m.correlated) ≡ none = rw (get-pop id id m.correlated, ==_self id) in
    rw (known, dispatch_correlated)
      (
        refl,
        update_self i (settle (resolved payload)) m.requests p here ∙ ap some settled,
        update-other i j (settle (resolved payload)) m.requests other,
        rw (gone, dispatch_correlated),
      )

-- A request that timed out after it was sent leaves a tombstone: a late final response is taken
-- without an error, frees the id, and changes no request's future.
pub late_response_ignored :
    (m : Multiplexer) (id i : ℕ) (p : PendingRequest) (payload : Bytes)
    → get id m.correlated ≡ some i
    → get_elem? m.requests i ≡ some p
    → p.sent ≡ true
    → ((dispatch_correlated id payload true (wait_timed_out i m).1).0 ≡ ok tt)
      × (get_elem? (dispatch_correlated id payload true (wait_timed_out i m).1).1.requests i
          ≡ some (record p { linked = false }))
      × (get id (dispatch_correlated id payload true (wait_timed_out i m).1).1.correlated ≡ none)
unfolding dispatch_correlated wait_timed_out abandon
late_response_ignored m id i p payload known here sent =
    let q : PendingRequest = record p { linked = false } in
    let ps : List PendingRequest = update i (λ r. record r { linked = false }) m.requests in
    let there : get_elem? ps i ≡ some q =
      update_self i (λ r. record r { linked = false }) m.requests p here in
    let kept : settle (resolved payload) q ≡ q = ground arith in
    let left : (wait_timed_out i m).1 ≡ record m { requests = ps } =
      rw (here, sent, wait_timed_out, abandon, abandon_request) in
    rw left (
      rw (known, dispatch_correlated)
        (
          refl,
          update_self i (settle (resolved payload)) ps q there ∙ ap some kept,
          rw (get-pop id id m.correlated, ==_self id),
        ))

patch_frame-bytes :
    (kind fl flags id : ℕ) (rest : Bytes)
    → patch_frame (to_bytes 2 kind ++ (fl ∷ (to_bytes 8 0 ++ rest))) flags id
      ≡ to_bytes 2 kind ++ (flags ∷ (to_bytes 8 id ++ rest))
unfolding patch_frame
patch_frame-bytes kind fl flags id rest =
    let old : Bytes = to_bytes 8 0 in
    let front : Bytes = to_bytes 2 kind ++ (fl ∷ old) in
    let group : to_bytes 2 kind ++ (fl ∷ (old ++ rest)) ≡ front ++ rest =
      sym (append_assoc (to_bytes 2 kind) (fl ∷ old) rest) in
    let size : length front ≡ 11 = omega (
      arith,
      length-append (to_bytes 2 kind) (fl ∷ old),
      length-to_bytes 2 kind,
      length-to_bytes 8 0,
    ) in
    let head = take_eq 2 (to_bytes 2 kind) (fl ∷ (old ++ rest)) (length-to_bytes 2 kind) in
    let tail : drop 11 (to_bytes 2 kind ++ (fl ∷ (old ++ rest))) ≡ rest =
      ap (drop 11) group ∙ drop_eq 11 front rest size in
    ap (λ t. t ++ (flags ∷ (to_bytes 8 id ++ drop 11 (to_bytes 2 kind ++ (fl ∷ (old ++ rest))))))
      head
    ∙ ap (λ t. to_bytes 2 kind ++ (flags ∷ (to_bytes 8 id ++ t))) tail

-- A frame that `encode_frame` made with no correlation id becomes, when the request is issued, the
-- frame with its flags and correlation id: it is decoded to those, and to the same type and payload.
pub decode_frame-patch_frame :
    (kind id flags : ℕ) (payload bs : Bytes)
    → encode_frame kind payload flags 0 ≡ ok bs
    → id ≤ max_u64
    → decode_frame (patch_frame bs flags id)
      ≡ ok (record { message_type = kind; flags = flags; correlation_id = id; payload = payload })
unfolding encode_frame
decode_frame-patch_frame kind id flags payload bs h fits =
    decode_frame-encode_frame kind flags id payload (patch_frame bs flags id) (
      ground
        (arith, patch_frame-bytes kind flags flags id (to_bytes 4 (length payload) ++ payload)))
