-- ===== src/Connection/Outbound/Answered.antt =====
-- connection.py: a request from its frame to the response.
use fitz_py.Prelude.{
  ℕ, suc, ◌≤◌, ◌<◌, ◌≡◌, ◌≢◌, refl, ◌∙◌, true, false, ◌++◌, [], ◌∷◌, some, length, get_elem?,
  get_elem?-append_mid, arith, ==_self, ltb_ge,
}
use fitz_py.Prelude.Bytes.{Bytes}
use fitz_py.Prelude.Dict.{get, nat_key, get-put}
use fitz_py.Errors.{ok}
use fitz_py.Multiplexer.{
  resolved, PendingRequest, Multiplexer, max_u64, patch_frame, send_done, dispatch_correlated,
}
use fitz_py.Multiplexer.Reset.{issued, fresh, issue_request-issued}
use fitz_py.Multiplexer.Routing.{update_self, decode_frame-patch_frame, dispatch_correlated-answers}
use fitz_py.Protocol.Frame.{Frame, encode_frame, decode_frame, parse_frames}
use fitz_py.Protocol.Frame.RoundTrip.{decode_frame-encode_frame}
use fitz_py.Protocol.Messages.{msg_hello, msg_connect_rejected, msg_goaway}
use fitz_py.Connection.{Connection, authenticated, ensure_authenticated}
use fitz_py.Connection.Inbound.{
  dispatch_transport_frame, receive_frames, receive_decoded, receive_message, decoded_payload,
}
use fitz_py.Connection.Outbound.{
  request_without_admission, request_without_gate, issue, check_frame, frame_sent,
}

-- A connection that can send `frame`.
pub record IsReady (c : Connection) : Type 0 where
  pub opened : c.is_closed ≡ false
  pub live : c.state ≡ authenticated
  pub transport : ℕ
  pub attached : c.transport ≡ some transport
  pub correlates : 2 ≤ c.multiplexer.protocol_version
  pub started : 0 < c.multiplexer.next_id
  pub room : c.multiplexer.next_id ≤ max_u64

ensure_authenticated-ready : (c : Connection) → IsReady c → ensure_authenticated c ≡ (ok tt, c)
unfolding ensure_authenticated
ensure_authenticated-ready c r = rw (r.opened, r.live) refl

issue-ready :
    (kind flags : ℕ) (payload bs : Bytes) (c : Connection)
    → IsReady c
    → encode_frame kind payload flags 0 ≡ ok bs
    → issue kind payload flags c ≡ (
      ok (length c.multiplexer.requests, patch_frame bs flags c.multiplexer.next_id),
      record c { multiplexer = issued c.multiplexer },
    )
unfolding issue
issue-ready kind flags payload bs c r e =
    ground (arith, issue_request-issued c.multiplexer bs flags r.correlates r.room)

check_frame-ready :
    (frame : Bytes) (c : Connection)
    → IsReady c
    → length frame ≤ c.max_message_bytes
    → check_frame frame (record c { multiplexer = issued c.multiplexer })
      ≡ (ok tt, record c { multiplexer = issued c.multiplexer })
unfolding check_frame
check_frame-ready frame c r fits =
    rw (r.attached, ltb_ge c.max_message_bytes (length frame) fits) refl

request-ready :
    (kind flags : ℕ) (payload bs : Bytes) (c : Connection)
    → IsReady c
    → encode_frame kind payload flags 0 ≡ ok bs
    → length (patch_frame bs flags c.multiplexer.next_id) ≤ c.max_message_bytes
    → request_without_admission kind payload flags c ≡ (
      ok (length c.multiplexer.requests, patch_frame bs flags c.multiplexer.next_id),
      record c { multiplexer = issued c.multiplexer },
    )
unfolding request_without_admission request_without_gate
request-ready kind flags payload bs c r e fits =
    rw
      (
        ensure_authenticated-ready c r,
        issue-ready kind flags payload bs c r e,
        check_frame-ready (patch_frame bs flags c.multiplexer.next_id) c r fits,
      )
      refl

parse_frames-one : (bs : Bytes) (f : Frame) → decode_frame bs ≡ ok f → parse_frames bs ≡ ok (f ∷ [])
unfolding parse_frames decode_frame
parse_frames-one [] f e = absurd (ground arith)
parse_frames-one (b ∷ bs) f e = rw e refl

-- `kind` is none of the types that the handshake and the end of a session use.
pub record IsOrdinary (kind : ℕ) : Type 0 where
  pub not_hello : kind ≢ msg_hello
  pub not_rejected : kind ≢ msg_connect_rejected
  pub not_goaway : kind ≢ msg_goaway

abbrev response : ℕ → ℕ → Bytes → Frame
response kind id answer = record {
  message_type = kind;
  flags = 2;
  correlation_id = id;
  payload = answer;
}

decoded_payload-response :
    (kind id : ℕ) (answer : Bytes)
    → IsOrdinary kind
    → decoded_payload (response kind id answer) ≡ ok (answer, [])
unfolding decoded_payload
decoded_payload-response kind id answer o = ground arith

receive_decoded-response :
    (kind id : ℕ) (answer : Bytes) (c : Connection)
    → IsOrdinary kind
    → 0 < id
    → receive_decoded (response kind id answer) (answer, []) c ≡ (
      (dispatch_correlated id answer true c.multiplexer).0,
      record c { multiplexer = (dispatch_correlated id answer true c.multiplexer).1 },
    )
unfolding receive_decoded receive_message
receive_decoded-response kind id answer c o p = ground arith

receive_frames-response :
    (kind id : ℕ) (answer : Bytes) (c : Connection)
    → IsOrdinary kind
    → receive_frames (response kind id answer ∷ []) c
      ≡ receive_decoded (response kind id answer) (answer, []) c
unfolding receive_frames
receive_frames-response kind id answer c o = rw (decoded_payload-response kind id answer o) refl

transport-response :
    (kind id : ℕ) (answer bs : Bytes) (c : Connection)
    → IsOrdinary kind
    → 0 < id
    → encode_frame kind answer 2 id ≡ ok bs
    → length bs ≤ c.max_message_bytes
    → dispatch_transport_frame bs c ≡ (
      (dispatch_correlated id answer true c.multiplexer).0,
      record c { multiplexer = (dispatch_correlated id answer true c.multiplexer).1 },
    )
unfolding dispatch_transport_frame
transport-response kind id answer bs c o p e fits =
    let frame =
      parse_frames-one bs (response kind id answer)
        (decode_frame-encode_frame kind 2 id answer bs e) in
    rw (ltb_ge c.max_message_bytes (length bs) fits, frame)
      (receive_frames-response kind id answer c o ∙ receive_decoded-response kind id answer c o p)

abbrev sent_request : Multiplexer → PendingRequest
sent_request m = record (fresh m) { sent = true }

send_done-here :
    (m : Multiplexer)
    → get_elem? (send_done (length m.requests) (issued m)).requests (length m.requests)
      ≡ some (sent_request m)
unfolding send_done
send_done-here m =
    update_self (length m.requests) (λ p. record p { sent = true }) (m.requests ++ (fresh m ∷ []))
      (fresh m) (get_elem?-append_mid (length m.requests) m.requests (fresh m) [] refl)

send_done-known :
    (m : Multiplexer)
    → get m.next_id (send_done (length m.requests) (issued m)).correlated ≡ some (length m.requests)
unfolding send_done
send_done-known m =
    rw (get-put m.next_id m.next_id (length m.requests) m.correlated, ==_self m.next_id) refl

-- On an authenticated connection a request goes out as a frame with its type, flags and payload and
-- the next correlation id; and when the broker's final response to that id comes in one message
-- within the limit, of any type that the handshake does not use, the receiving end takes it without
-- an error and the future of that request has the response's payload.
pub request_answered :
    (kind flags reply_kind : ℕ) (payload bs answer reply : Bytes) (c : Connection)
    → IsReady c
    → IsOrdinary reply_kind
    → encode_frame kind payload flags 0 ≡ ok bs
    → length (patch_frame bs flags c.multiplexer.next_id) ≤ c.max_message_bytes
    → encode_frame reply_kind answer 2 c.multiplexer.next_id ≡ ok reply
    → length reply ≤ c.max_message_bytes
    → let place = length c.multiplexer.requests in
      let id = c.multiplexer.next_id in
      let frame = patch_frame bs flags id in
      let d = frame_sent place (request_without_admission kind payload flags c).1 in
      ((request_without_admission kind payload flags c).0 ≡ ok (place, frame))
      × (decode_frame frame
          ≡ ok (record {
            message_type = kind;
            flags = flags;
            correlation_id = id;
            payload = payload;
          }))
      × ((dispatch_transport_frame reply d).0 ≡ ok tt)
      × (get_elem? (dispatch_transport_frame reply d).1.multiplexer.requests place
          ≡ some (record {
            linked = true;
            future = resolved answer;
            sent = true;
            correlation_id = id;
          }))
unfolding frame_sent
request_answered kind flags reply_kind payload bs answer reply c r o e fits f fits' =
    let place = length c.multiplexer.requests in
    let id = c.multiplexer.next_id in
    let m = send_done place (issued c.multiplexer) in
    let d : Connection = record c { multiplexer = m } in
    let asked = request-ready kind flags payload bs c r e fits in
    let got = transport-response reply_kind id answer reply d o r.started f fits' in
    let answered =
      dispatch_correlated-answers m id place (suc place) (sent_request c.multiplexer) answer [] true
        (send_done-known c.multiplexer) (send_done-here c.multiplexer) refl refl
        (λ q. omega arith) in
    (
      rw asked refl,
      decode_frame-patch_frame kind id flags payload bs e r.room,
      rw (asked, got) answered.0,
      rw (asked, got) answered.1,
    )
