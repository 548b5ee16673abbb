-- ===== src/Connection/Inbound/Limits.antt =====
-- What a message of the broker can change.
use fitz_py.Prelude.{
  ℕ, ◌≤◌, ◌≡◌, refl, ◌∙◌, ap, min, Bool, true, false, not, ◌&&◌, [], ◌∷◌, List, ltb, ◌==◌,
  if◌then◌else◌, some, all, filter, arith, Bool-cases, ◌⊎◌, inl, inr, length,
}
use fitz_py.Prelude.Bytes.{Bytes}
use fitz_py.Errors.{Error, Result, ok, err, connection_error}
use fitz_py.Exec.{Exec, raise, gets, lift, guard, continue, ◌>>=◌}
use fitz_py.Text.{Str}
use fitz_py.Multiplexer.{Multiplexer, set_capabilities}
use fitz_py.Multiplexer.Session.{dispatch-capability_ids, dispatch_correlated-capability_ids}
use fitz_py.Protocol.Buffer.{reader}
use fitz_py.Protocol.Frame.{Frame, parse_frames}
use fitz_py.Connection.{Connection}
use fitz_py.Connection.Inbound.{
  Hello, read_hello, valid_limits, is_client_capability, negotiate, apply_hello, receive_hello,
  receive_rejected, receive_goaway, receive_message, receive_decoded, receive_frames,
  dispatch_transport_frame, well_formed_hello, decoded_payload, is_final, plain_header,
  read_rejected, read_goaway,
}

-- The configuration is one that `ClientConfig` accepts; the limits in force are within it and within
-- the protocol's; only capabilities of the client are in use.
pub record IsWithin (c : Connection) : Type 0 where
  pub frame_config : 15 ≤ c.config.max_frame_size
  pub flight_config : 1 ≤ c.config.max_in_flight
  pub frame_low : 15 ≤ c.max_message_bytes
  pub frame_high : c.max_message_bytes ≤ min c.config.max_frame_size 1048576
  pub flight_low : 1 ≤ c.max_in_flight
  pub flight_high : c.max_in_flight ≤ c.config.max_in_flight
  pub known : all is_client_capability c.multiplexer.capability_ids ≡ true

-- The part of a connection that its own methods, and no message, decide on.
pub record Stays (c d : Connection) : Type 0 where
  pub same_state : d.state ≡ c.state
  pub same_closed : d.is_closed ≡ c.is_closed
  pub same_transport : d.transport ≡ c.transport
  pub same_receive : d.receive_task ≡ c.receive_task
  pub same_generation : d.generation ≡ c.generation
  pub same_ever : d.ever_authenticated ≡ c.ever_authenticated
  pub same_config : d.config ≡ c.config
  pub same_next : d.next_transport ≡ c.next_transport
  pub within : IsWithin c → IsWithin d

Stays-self : (c : Connection) → Stays c c
Stays-self c = record {
  same_state = refl;
  same_closed = refl;
  same_transport = refl;
  same_receive = refl;
  same_generation = refl;
  same_ever = refl;
  same_config = refl;
  same_next = refl;
  within = λ h. h;
}

Stays-trans : (c d e : Connection) → Stays c d → Stays d e → Stays c e
Stays-trans c d e p q = record {
  same_state = q.same_state ∙ p.same_state;
  same_closed = q.same_closed ∙ p.same_closed;
  same_transport = q.same_transport ∙ p.same_transport;
  same_receive = q.same_receive ∙ p.same_receive;
  same_generation = q.same_generation ∙ p.same_generation;
  same_ever = q.same_ever ∙ p.same_ever;
  same_config = q.same_config ∙ p.same_config;
  same_next = q.same_next ∙ p.same_next;
  within = λ h. q.within (p.within h);
}

pub record Keeps {A : Type 0} (m : Exec Connection A) : Type 0 where
  pub at : (c : Connection) → Stays c (m c).1

module _ {A : Type 0} where
  Keeps-raise : (e : Error) → Keeps {A = A} (raise e)
  Keeps-raise e = record { at = λ c. Stays-self c }

  Keeps-lift : (r : Result A) → Keeps (lift r)
  Keeps-lift r = record { at = λ c. Stays-self c }

  Keeps-gets : (f : Connection → A) → Keeps (gets f)
  Keeps-gets f = record { at = λ c. Stays-self c }

  Keeps-if : (b : Bool) (m n : Exec Connection A) → Keeps m → Keeps n → Keeps (if b then m else n)
  Keeps-if true m n hm hn = hm
  Keeps-if false m n hm hn = hn

Keeps-guard : (b : Bool) (e : Error) → Keeps (guard b e)
Keeps-guard true e = record { at = λ c. Stays-self c }
Keeps-guard false e = record { at = λ c. Stays-self c }

module _ {A B : Type 0} where
  continue-Stays :
      (f : A → Exec Connection B) (c : Connection) (r : Result A) (d : Connection)
      → Stays c d
      → ((a : A) → Keeps (f a))
      → Stays c (continue f (r, d)).1
  continue-Stays f c (ok a) d h k = Stays-trans c d (f a d).1 h ((k a).at d)
  continue-Stays f c (err e) d h k = h

  Keeps-bind :
      (m : Exec Connection A) (f : A → Exec Connection B)
      → Keeps m
      → ((a : A) → Keeps (f a))
      → Keeps (m >>= f)
  Keeps-bind m f hm hf = record { at = λ c. continue-Stays f c (m c).0 (m c).1 (hm.at c) hf }

all-filter : (p : ℕ → Bool) (ids : List ℕ) → all p (filter p ids) ≡ true
all-filter p [] = refl
all-filter p (id ∷ ids) = elim (Bool-cases (p id)) [
  | inl e ↦ rw (e, e) (all-filter p ids)
  | inr e ↦ rw e (all-filter p ids)
]

negotiate-IsWithin :
    (h : Hello) (ids : List ℕ) (c : Connection)
    → valid_limits h ≡ true
    → IsWithin c
    → IsWithin (negotiate h ids c)
unfolding negotiate valid_limits set_capabilities
negotiate-IsWithin h ids c v w = ground (arith, all-filter is_client_capability ids)

negotiate-Stays :
    (h : Hello) (ids : List ℕ) (c : Connection)
    → valid_limits h ≡ true
    → Stays c (negotiate h ids c)
unfolding negotiate
negotiate-Stays h ids c v = record {
  same_state = refl;
  same_closed = refl;
  same_transport = refl;
  same_receive = refl;
  same_generation = refl;
  same_ever = refl;
  same_config = refl;
  same_next = refl;
  within = λ w. unfold negotiate in negotiate-IsWithin h ids c v w;
}

apply_hello-Keeps : (h : Hello) (ids : List ℕ) → Keeps (apply_hello h ids)
apply_hello-Keeps h ids = record { at = λ c. by_limits c (Bool-cases (valid_limits h)) }
  where
    session-Stays : (c : Connection) → Stays c (record c { session_id = h.session_id })
    session-Stays c = record {
      same_state = refl;
      same_closed = refl;
      same_transport = refl;
      same_receive = refl;
      same_generation = refl;
      same_ever = refl;
      same_config = refl;
      same_next = refl;
      within = λ w. record {
        frame_config = w.frame_config;
        flight_config = w.flight_config;
        frame_low = w.frame_low;
        frame_high = w.frame_high;
        flight_low = w.flight_low;
        flight_high = w.flight_high;
        known = w.known;
      };
    }

    by_limits :
        (c : Connection)
        → (valid_limits h ≡ true) ⊎ (valid_limits h ≡ false)
        → Stays c (apply_hello h ids c).1
    by_limits c (inl e) =
        unfold apply_hello in
        rw e (
          Stays-trans c (record c { session_id = h.session_id }) _ (session-Stays c)
            (negotiate-Stays h ids (record c { session_id = h.session_id }) e))
    by_limits c (inr e) = unfold apply_hello in rw e (session-Stays c)

receive_hello-Keeps :
    (flags id : ℕ) (payload : Bytes) (ids : List ℕ) → Keeps (receive_hello flags id payload ids)
unfolding receive_hello
receive_hello-Keeps flags id payload ids =
    Keeps-bind (gets (λ c. c.multiplexer.protocol_version)) _ (Keeps-gets _) (λ version.
      Keeps-bind (guard (version == 0) _) _ (Keeps-guard (version == 0) _) (λ u.
        Keeps-bind (guard (well_formed_hello flags id payload) connection_error) _
          (Keeps-guard (well_formed_hello flags id payload) connection_error)
          (λ v.
            Keeps-bind (lift ((read_hello (reader payload)).0)) _ (Keeps-lift _)
              (λ h. apply_hello-Keeps h ids))))

receive_rejected-Keeps :
    (flags id : ℕ) (payload : Bytes) → Keeps (receive_rejected flags id payload)
unfolding receive_rejected
receive_rejected-Keeps flags id payload =
    Keeps-bind (lift ((read_rejected (reader payload)).0)) _ (Keeps-lift _) (λ p.
      Keeps-bind (guard (p.1 && plain_header flags id) connection_error) _
        (Keeps-guard (p.1 && plain_header flags id) connection_error)
        (λ u. Keeps-if (p.0 == 50) _ _ (Keeps-raise _) (Keeps-raise _)))

receive_goaway-Keeps : (flags id : ℕ) (payload : Bytes) → Keeps (receive_goaway flags id payload)
unfolding receive_goaway
receive_goaway-Keeps flags id payload =
    Keeps-bind (lift ((read_goaway (reader payload)).0)) _ (Keeps-lift _) (λ p.
      Keeps-bind (guard (p.1 && plain_header flags id) connection_error) _
        (Keeps-guard (p.1 && plain_header flags id) connection_error)
        (λ u. record { at = λ c. noted p.0 c }))
  where
    noted : (notice : ℕ × ℕ × Str) (c : Connection) → Stays c (record c { goaway = some notice })
    noted notice c = record {
      same_state = refl;
      same_closed = refl;
      same_transport = refl;
      same_receive = refl;
      same_generation = refl;
      same_ever = refl;
      same_config = refl;
      same_next = refl;
      within = λ w. record {
        frame_config = w.frame_config;
        flight_config = w.flight_config;
        frame_low = w.frame_low;
        frame_high = w.frame_high;
        flight_low = w.flight_low;
        flight_high = w.flight_high;
        known = w.known;
      };
    }

-- A multiplexer with the same capabilities is put in place of the old one.
multiplexer-Stays :
    (c : Connection) (m : Multiplexer)
    → m.capability_ids ≡ c.multiplexer.capability_ids
    → Stays c (record c { multiplexer = m })
multiplexer-Stays c m e = record {
  same_state = refl;
  same_closed = refl;
  same_transport = refl;
  same_receive = refl;
  same_generation = refl;
  same_ever = refl;
  same_config = refl;
  same_next = refl;
  within = λ w. record {
    frame_config = w.frame_config;
    flight_config = w.flight_config;
    frame_low = w.frame_low;
    frame_high = w.frame_high;
    flight_low = w.flight_low;
    flight_high = w.flight_high;
    known = ap (all is_client_capability) e ∙ w.known;
  };
}

receive_message-Keeps : (f : Frame) (payload : Bytes) → Keeps (receive_message f payload)
receive_message-Keeps f payload = record { at = λ c. by_id c (Bool-cases (f.correlation_id == 0)) }
  where
    by_id :
        (c : Connection)
        → ((f.correlation_id == 0) ≡ true) ⊎ ((f.correlation_id == 0) ≡ false)
        → Stays c (receive_message f payload c).1
    by_id c (inl e) =
        unfold receive_message in
        rw e (multiplexer-Stays c _ (dispatch-capability_ids f.message_type payload c.multiplexer))
    by_id c (inr e) =
        unfold receive_message in
        rw e (
          multiplexer-Stays c _ (
            dispatch_correlated-capability_ids f.correlation_id payload (is_final f.flags)
              c.multiplexer))

receive_decoded-Keeps :
    (f : Frame) (payload : Bytes) (ids : List ℕ) → Keeps (receive_decoded f (payload, ids))
unfolding receive_decoded
receive_decoded-Keeps f payload ids =
    Keeps-if _ _ _ (receive_hello-Keeps f.flags f.correlation_id payload ids) (
      Keeps-if _ _ _ (receive_rejected-Keeps f.flags f.correlation_id payload) (
        Keeps-if _ _ _ (receive_goaway-Keeps f.flags f.correlation_id payload)
          (receive_message-Keeps f payload)))

receive_frames-Keeps : (fs : List Frame) → Keeps (receive_frames fs)
unfolding receive_frames
receive_frames-Keeps [] = record { at = λ c. Stays-self c }
receive_frames-Keeps (f ∷ fs) =
    Keeps-bind (lift (decoded_payload f)) _ (Keeps-lift _) (λ p. receive_decoded-Keeps f p.0 p.1)

pub dispatch_transport_frame-Keeps : (bs : Bytes) → Keeps (dispatch_transport_frame bs)
unfolding dispatch_transport_frame
dispatch_transport_frame-Keeps bs =
    Keeps-bind (gets (λ c. c.max_message_bytes)) _ (Keeps-gets _) (λ limit.
      Keeps-bind (guard (not (ltb limit (length bs))) connection_error) _
        (Keeps-guard (not (ltb limit (length bs))) connection_error)
        (λ u.
          Keeps-bind (lift (parse_frames bs)) _ (Keeps-lift _)
            (λ frames. receive_frames-Keeps frames)))
