-- ===== src/Domains/Rpc/Sender.antt =====
-- domains/rpc.py: `ResponseWriter`, whose lock makes each `send` one step. What `Connection.send`
-- does is a script: whether it raises, and the generation that the connection has by then.
use fitz_py.Prelude.{
  ℕ, suc, ◌≡◌, refl, sym, ap, subst, ◌∙◌, Bool, true, false, not, ◌||◌, [], ◌∷◌, List, ◌==◌, ◌⊎◌,
  inl, inr, Bool-cases,
}
use fitz_py.Prelude.Bytes.{Bytes}
use fitz_py.Errors.{Error, Result, ok, err, connection_error}
use fitz_py.Exec.{Exec, gets, lift, guard, continue, ◌>>=◌, ◌>>◌}
use fitz_py.Text.{Str}
use fitz_py.Protocol.Buffer.{written}
use fitz_py.Domains.Rpc.Frames.{response_payload, error_body}

-- What a call of `Connection.send` comes to.
pub record Sending : Type 0 where
  pub result : Result (Unit {0})
  pub generation : ℕ

-- `connection_generation`, `sendings` and `sent` belong to the connection; the payloads stand with
-- the last first.
pub record ResponseWriter : Type 0 where
  pub correlation_id : Bytes
  pub sequence : ℕ
  pub generation : ℕ
  pub ended : Bool
  pub connection_generation : ℕ
  pub sendings : List Sending
  pub sent : List Bytes

unfoldable pub new_writer : Bytes → ℕ → List Sending → ResponseWriter
new_writer correlation_id generation sendings = record {
  correlation_id = correlation_id;
  sequence = 0;
  generation = generation;
  ended = false;
  connection_generation = generation;
  sendings = sendings;
  sent = [];
}

abbrev pub sending : List Sending → Exec ResponseWriter Unit
sending [] w = (err connection_error, w)
sending (s ∷ ss) w = (s.result, record w { connection_generation = s.generation; sendings = ss })

-- `Connection.send`
unfoldable pub connection_send : Bytes → Exec ResponseWriter Unit
connection_send payload w = sending w.sendings (record w { sent = payload ∷ w.sent })

abbrev pub sent_one : Bool → Exec ResponseWriter Unit
sent_one end w = (ok tt, record w { sequence = suc w.sequence; ended = end })

-- `send`
unfoldable pub send : Bytes → Bool → Exec ResponseWriter Unit
send body end = do
  stale ← gets (λ w. w.ended || not (w.generation == w.connection_generation))
  guard (not stale) connection_error
  bs ← gets (λ w. written (response_payload w.correlation_id w.sequence end body))
  payload ← lift bs
  connection_send payload
  sent_one end

-- `RPCClient._send_error`
unfoldable pub send_error : ℕ → Str → Exec ResponseWriter Unit
send_error code message = do body ← lift (written (error_body code message)); send body true

-- The payloads that the connection took, with what they were made of: of the sends of a handler one
-- after the other, each whatever the one before came to, those that succeed.
abbrev pub Taken : Type 0
Taken = List (Bytes × Bytes × Bool)

abbrev pub last_sent : List Bytes → Bytes
last_sent [] = []
last_sent (payload ∷ rest) = payload

abbrev pub taken : Bytes → Bool → Result (Unit {0}) × ResponseWriter → Taken → Taken
taken body end (ok u, w) rest = (last_sent w.sent, body, end) ∷ rest
taken body end (err e, w) rest = rest

unfoldable pub accepted : List (Bytes × Bool) → ResponseWriter → Taken
accepted [] w = []
accepted ((body, end) ∷ frames) w =
    let after = send body end w in taken body end after (accepted frames after.1)

-- The payloads are responses with the correlation id, numbered from `n` on without a gap, and none
-- comes after one that ends the response.
abbrev pub IsNumbered : Bytes → ℕ → Taken → Type 0
IsNumbered id n [] = Unit {0}
IsNumbered id n ((payload, body, end) ∷ fs) =
    (written (response_payload id n end body) ≡ ok payload)
    × ((end ≡ true → fs ≡ []) × IsNumbered id (suc n) fs)

-- What one `send` that succeeds does to the writer.
record Sent (body : Bytes) (end : Bool) (w v : ResponseWriter) : Type 0 where
  was_open : w.ended ≡ false
  made : written (response_payload w.correlation_id w.sequence end body) ≡ ok (last_sent v.sent)
  counted : v.sequence ≡ suc w.sequence
  now_ended : v.ended ≡ end
  same_id : v.correlation_id ≡ w.correlation_id

-- One that fails keeps these.
record Unsent (w v : ResponseWriter) : Type 0 where
  same_sequence : v.sequence ≡ w.sequence
  same_end : v.ended ≡ w.ended
  same_id : v.correlation_id ≡ w.correlation_id

abbrev Advanced : Bytes → Bool → ResponseWriter → Result (Unit {0}) × ResponseWriter → Type 0
Advanced body end w p =
    ((p.0 ≡ ok tt) × Sent body end w p.1) ⊎ ((e : Error) × (p.0 ≡ err e) × Unsent w p.1)

finish_sent :
    (body : Bytes) (end : Bool) (w v : ResponseWriter) (payload : Bytes) (r : Result (Unit {0}))
    → w.ended ≡ false
    → written (response_payload w.correlation_id w.sequence end body) ≡ ok payload
    → v.sent ≡ payload ∷ w.sent
    → Unsent w v
    → Advanced body end w (continue (λ u. sent_one end) (r, v))
finish_sent body end w v payload (ok u) h m s k = inl (
  refl,
  record {
    was_open = h;
    made = m ∙ ap (λ l. ok (last_sent l)) (sym s);
    counted = ap suc k.same_sequence;
    now_ended = refl;
    same_id = k.same_id;
  },
)
finish_sent body end w v payload (err x) h m s k = inr (x, refl, k)

Unsent-self : (w : ResponseWriter) → Unsent w w
Unsent-self w = record { same_sequence = refl; same_end = refl; same_id = refl }

handed_over :
    (body : Bytes) (end : Bool) (w : ResponseWriter) (payload : Bytes)
    → w.ended ≡ false
    → written (response_payload w.correlation_id w.sequence end body) ≡ ok payload
    → (ss : List Sending)
    → Advanced body end w
        (continue (λ u. sent_one end) (sending ss (record w { sent = payload ∷ w.sent })))
handed_over body end w payload h m [] =
    inr (connection_error, refl, record { same_sequence = refl; same_end = refl; same_id = refl })
handed_over body end w payload h m (s ∷ ss) =
    finish_sent body end w
      (record w { sent = payload ∷ w.sent; connection_generation = s.generation; sendings = ss })
      payload s.result h m refl (record { same_sequence = refl; same_end = refl; same_id = refl })

built :
    (body : Bytes) (end : Bool) (w : ResponseWriter)
    → w.ended ≡ false
    → (r : Result Bytes) → written (response_payload w.correlation_id w.sequence end body) ≡ r
    → Advanced body end w (continue (λ payload. connection_send payload >> sent_one end) (r, w))
unfolding connection_send
built body end w h (ok payload) m = handed_over body end w payload h m w.sendings
built body end w h (err e) m = inr (e, refl, Unsent-self w)

not_ended : (a b : Bool) → (a || b) ≡ false → a ≡ false
not_ended true b h = cc
not_ended false b h = refl

send-Advanced :
    (body : Bytes) (end : Bool) (w : ResponseWriter) → Advanced body end w (send body end w)
unfolding send
send-Advanced body end w =
    let stale = w.ended || not (w.generation == w.connection_generation) in
    elim (Bool-cases stale) [
      | inl e ↦ rw e (inr (connection_error, refl, Unsent-self w))
      | inr e ↦ rw e (
          built body end w (not_ended w.ended _ e)
            (written (response_payload w.correlation_id w.sequence end body)) refl)
    ]

nothing_after :
    (frames : List (Bytes × Bool)) (w : ResponseWriter) → w.ended ≡ true → accepted frames w ≡ []
unfolding accepted
nothing_after [] w h = refl
nothing_after ((body, end) ∷ frames) w h =
    unsent body end (accepted frames (send body end w).1) (send body end w)
      (send-Advanced body end w) (λ k. nothing_after frames (send body end w).1 (k ∙ h))
  where
    unsent :
        (body : Bytes) (end : Bool) (rest : Taken) (p : Result (Unit {0}) × ResponseWriter)
        → Advanced body end w p
        → (p.1.ended ≡ w.ended → rest ≡ [])
        → taken body end p rest ≡ []
    unsent body end rest (ok u, v) (inl (o, s)) k = absurd (let q = s.was_open in cc)
    unsent body end rest (ok u, v) (inr (e, o, s)) k = absurd (cc)
    unsent body end rest (err x, v) (inl (o, s)) k = absurd (cc)
    unsent body end rest (err x, v) (inr (e, o, s)) k = k s.same_end

taken-IsNumbered :
    (body : Bytes) (end : Bool) (w : ResponseWriter) (rest : Taken)
    (p : Result (Unit {0}) × ResponseWriter)
    → Advanced body end w p
    → (p.1.ended ≡ true → rest ≡ [])
    → IsNumbered p.1.correlation_id p.1.sequence rest
    → IsNumbered w.correlation_id w.sequence (taken body end p rest)
taken-IsNumbered body end w rest (ok u, v) (inl (o, s)) last again = (
  s.made,
  (
    λ e. last (s.now_ended ∙ e),
    subst (λ n. IsNumbered w.correlation_id n rest) s.counted
        (subst (λ i. IsNumbered i v.sequence rest) s.same_id again),
  ),
)
taken-IsNumbered body end w rest (ok u, v) (inr (e, o, s)) last again = absurd (cc)
taken-IsNumbered body end w rest (err x, v) (inl (o, s)) last again = absurd (cc)
taken-IsNumbered body end w rest (err x, v) (inr (e, o, s)) last again =
    subst (λ n. IsNumbered w.correlation_id n rest) s.same_sequence
      (subst (λ i. IsNumbered i v.sequence rest) s.same_id again)

rest-IsNumbered :
    (frames : List (Bytes × Bool)) (w : ResponseWriter)
    → IsNumbered w.correlation_id w.sequence (accepted frames w)
unfolding accepted
rest-IsNumbered [] w = tt
rest-IsNumbered ((body, end) ∷ frames) w =
    taken-IsNumbered body end w (accepted frames (send body end w).1) (send body end w)
      (send-Advanced body end w) (nothing_after frames (send body end w).1)
      (rest-IsNumbered frames (send body end w).1)

-- Whatever frames a handler sends, with whatever sendings fail: the payloads that the connection
-- takes carry the correlation id, the body and the end mark of their frame, and the numbers 0, 1, 2
-- and so on without a gap; and none is taken after the one that ends the response.
pub accepted-IsNumbered :
    (frames : List (Bytes × Bool)) (correlation_id : Bytes) (generation : ℕ)
    (sendings : List Sending)
    → IsNumbered correlation_id 0 (accepted frames (new_writer correlation_id generation sendings))
unfolding new_writer
accepted-IsNumbered frames correlation_id generation sendings = rest-IsNumbered frames (record {
  correlation_id = correlation_id;
  sequence = 0;
  generation = generation;
  ended = false;
  connection_generation = generation;
  sendings = sendings;
  sent = [];
})
