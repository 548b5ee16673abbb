-- ===== src/Multiplexer/Shrinks.antt =====
-- The operations of a multiplexer that register nothing: each leaves the ids that it does not drop to
-- their requests.
use fitz_py.Prelude.{
  subst, ℕ, zero, suc, ◌≡◌, refl, sym, ◌∙◌, Bool, true, false, [], ◌∷◌, List, if◌then◌else◌, Option,
  none, some, get_elem?, arith,
}
use fitz_py.Prelude.Bytes.{Bytes}
use fitz_py.Prelude.Dict.{Dict, get, pop, nat_key, get-pop}
use fitz_py.Errors.{Error, Result, ok, err, timeout_error, connection_error, protocol_error}
use fitz_py.Multiplexer.{
  Future, failed, resolved, PendingRequest, Multiplexer, settle, update, cancel_all,
  set_disconnected, remove_request, remove, mark_sent, abandon_request, abandon, send_done,
  send_failed, send_cancelled, dispatch_correlated, dispatch, dispatch_push, classified,
  call_handler, report_error, request_at,
}
use fitz_py.Multiplexer.Reset.{Registered}

-- `n` has the ids of `m`, or fewer, each for the same request.
pub record Shrinks (m n : Multiplexer) : Type 0 where
  pub next : n.next_id ≡ m.next_id
  pub fewer : (id i : ℕ) → get id n.correlated ≡ some i → get id m.correlated ≡ some i
  pub same :
      (i : ℕ) (p : PendingRequest)
      → get_elem? m.requests i ≡ some p
      → (q : PendingRequest) × (get_elem? n.requests i ≡ some q)
        × (q.correlation_id ≡ p.correlation_id)

Shrinks-self : (m : Multiplexer) → Shrinks m m
Shrinks-self m = record { next = refl; fewer = λ id i e. e; same = λ i p e. (p, e, refl) }

Shrinks-trans : (l m n : Multiplexer) → Shrinks l m → Shrinks m n → Shrinks l n
Shrinks-trans l m n a b = record {
  next = b.next ∙ a.next;
  fewer = λ id i e. a.fewer id i (b.fewer id i e);
  same = λ i p e.
      let (q, at_q, k) = a.same i p e in let (r, at_r, j) = b.same i q at_q in (r, at_r, j ∙ k);
}

pub Shrinks-Registered : (m n : Multiplexer) → Shrinks m n → Registered m → Registered n
Shrinks-Registered m n s r = record {
  at = λ id i e.
      let (below, p, at_p, key) = r.at id i (s.fewer id i e) in
      let (q, at_q, k) = s.same i p at_p in (rw s.next below, q, at_q, k ∙ key);
}

update-same :
    (j : ℕ) (f : PendingRequest → PendingRequest)
    → ((p : PendingRequest) → (f p).correlation_id ≡ p.correlation_id)
    → (ps : List PendingRequest) (i : ℕ) (p : PendingRequest) → get_elem? ps i ≡ some p
    → (q : PendingRequest) × (get_elem? (update j f ps) i ≡ some q)
      × (q.correlation_id ≡ p.correlation_id)
unfolding update
update-same j f k [] i p e = absurd (cc)
update-same zero f k (x ∷ ps) zero p e = (f x, refl, k x ∙ (let h : x ≡ p = cc in rw h refl))
update-same zero f k (x ∷ ps) (suc i) p e = (p, e, refl)
update-same (suc j) f k (x ∷ ps) zero p e = (p, e, refl)
update-same (suc j) f k (x ∷ ps) (suc i) p e = update-same j f k ps i p e

settle-same : (f : Future) (p : PendingRequest) → (settle f p).correlation_id ≡ p.correlation_id
settle-same f p = ground arith

pop-fewer : (k : ℕ) (d : Dict ℕ ℕ) (id i : ℕ) → get id (pop k d) ≡ some i → get id d ≡ some i
pop-fewer k d id i e = ground (arith, get-pop k id d)

cancel_all-same :
    (d : Dict ℕ ℕ) (ps : List PendingRequest) (i : ℕ) (p : PendingRequest)
    → get_elem? ps i ≡ some p
    → (q : PendingRequest) × (get_elem? (cancel_all d ps) i ≡ some q)
      × (q.correlation_id ≡ p.correlation_id)
unfolding cancel_all
cancel_all-same [] ps i p e = (p, e, refl)
cancel_all-same ((id, j) ∷ d) ps i p e =
    let (q, at_q, k) = update-same j (settle (failed connection_error)) (settle-same _) ps i p e in
    let (r, at_r, l) = cancel_all-same d _ i q at_q in (r, at_r, l ∙ k)

pub update-Shrinks :
    (m : Multiplexer) (i : ℕ) (f : PendingRequest → PendingRequest)
    → ((p : PendingRequest) → (f p).correlation_id ≡ p.correlation_id)
    → Shrinks m (record m { requests = update i f m.requests })
update-Shrinks m i f k = record {
  next = refl;
  fewer = λ id j e. e;
  same = λ j p e. update-same i f k m.requests j p e;
}

pub pop-Shrinks :
    (m : Multiplexer) (id : ℕ) → Shrinks m (record m { correlated = pop id m.correlated })
pop-Shrinks m id = record {
  next = refl;
  fewer = λ k i e. pop-fewer id m.correlated k i e;
  same = λ i p e. (p, e, refl);
}

mark_sent-Shrinks : (i : ℕ) (m : Multiplexer) → Shrinks m (mark_sent i m)
unfolding mark_sent
mark_sent-Shrinks i m = update-Shrinks m i (λ p. record p { sent = true }) (λ p. refl)

pub sent-Shrinks : (i : ℕ) (m : Multiplexer) → Shrinks m (send_done i m)
unfolding send_done
sent-Shrinks i m = mark_sent-Shrinks i m

remove_at :
    (o : Option PendingRequest) (m : Multiplexer)
    → Shrinks m (elim o as (λ _. Multiplexer) [ none ↦ m | some p ↦ remove_request p m ])
unfolding remove_request
remove_at none m = Shrinks-self m
remove_at (some p) m = pop-Shrinks m p.correlation_id

pub remove-Shrinks : (i : ℕ) (m : Multiplexer) → Shrinks m (remove i m)
unfolding remove
remove-Shrinks i m = remove_at (request_at i m) m

abandon_request-Shrinks :
    (i : ℕ) (p : PendingRequest) (m : Multiplexer) → Shrinks m (abandon_request i p m)
unfolding abandon_request remove_request
abandon_request-Shrinks i p m = by_flag p.sent
  where
    by_flag :
        (b : Bool)
        → Shrinks m (
            if b
            then record m { requests = update i (λ q. record q { linked = false }) m.requests }
            else record m { correlated = pop p.correlation_id m.correlated })
    by_flag true = update-Shrinks m i (λ q. record q { linked = false }) (λ q. refl)
    by_flag false = pop-Shrinks m p.correlation_id

abandon_at :
    (i : ℕ) (o : Option PendingRequest) (m : Multiplexer)
    → Shrinks m (elim o as (λ _. Multiplexer) [ none ↦ m | some p ↦ abandon_request i p m ])
abandon_at i none m = Shrinks-self m
abandon_at i (some p) m = abandon_request-Shrinks i p m

pub abandon-Shrinks : (i : ℕ) (m : Multiplexer) → Shrinks m (abandon i m)
unfolding abandon
abandon-Shrinks i m = abandon_at i (request_at i m) m

marked_then_abandoned : (i : ℕ) (m : Multiplexer) → Shrinks m (abandon i (mark_sent i m))
marked_then_abandoned i m =
    Shrinks-trans m (mark_sent i m) _ (mark_sent-Shrinks i m) (abandon-Shrinks i (mark_sent i m))

pub send_failed-Shrinks : (i : ℕ) (e : Error) (m : Multiplexer) → Shrinks m (send_failed i e m).1
unfolding send_failed
send_failed-Shrinks i timeout_error m = marked_then_abandoned i m
send_failed-Shrinks i connection_error m = marked_then_abandoned i m
send_failed-Shrinks i e m = remove-Shrinks i m

pub send_cancelled-Shrinks :
    (b : Bool) (i : ℕ) (m : Multiplexer) → Shrinks m (send_cancelled b i m).1
unfolding send_cancelled
send_cancelled-Shrinks true i m =
    Shrinks-trans m _ _ (marked_then_abandoned i m) (abandon-Shrinks i (abandon i (mark_sent i m)))
send_cancelled-Shrinks false i m =
    Shrinks-trans m _ _ (remove-Shrinks i m) (abandon-Shrinks i (remove i m))

pub answered-Shrinks :
    (id : ℕ) (payload : Bytes) (final : Bool) (m : Multiplexer)
    → Shrinks m (dispatch_correlated id payload final m).1
unfolding dispatch_correlated
answered-Shrinks id payload final m = by_entry (get id m.correlated) final
  where
    by_entry :
        (o : Option ℕ) (b : Bool)
        → Shrinks m
            (elim o as (λ _. Result (Unit {0}) × Multiplexer) [
              | none ↦ (err (protocol_error none), m)
              | some i ↦
                  if b
                  then (
                    ok tt,
                    record m {
                      correlated = pop id m.correlated;
                      requests = update i (settle (resolved payload)) m.requests;
                    },
                  )
                  else (ok tt, m)
            ]).1
    by_entry none b = Shrinks-self m
    by_entry (some i) false = Shrinks-self m
    by_entry (some i) true =
        Shrinks-trans m (record m { correlated = pop id m.correlated }) _ (pop-Shrinks m id)
          (update-Shrinks (record m { correlated = pop id m.correlated }) i
            (settle (resolved payload)) (settle-same (resolved payload)))

-- A message with no correlation id touches no request.
pub record Untouched (m n : Multiplexer) : Type 0 where
  pub next : n.next_id ≡ m.next_id
  pub ids : n.correlated ≡ m.correlated
  pub requests : n.requests ≡ m.requests

handled-Untouched :
    (kind : ℕ) (payload : Bytes) (h : Option (Bytes → Option Error)) (m : Multiplexer)
    → Untouched m (call_handler kind payload h m)
unfolding call_handler report_error
handled-Untouched kind payload none m = record { next = refl; ids = refl; requests = refl }
handled-Untouched kind payload (some h) m = ground (arith, h payload)

classified-Untouched :
    (kind : ℕ) (payload : Bytes) (r : Result Bool) (m : Multiplexer)
    → Untouched m (classified kind payload r m)
unfolding classified dispatch_push report_error
classified-Untouched kind payload (ok b) m = handled-Untouched kind payload (get kind m.handlers) m
classified-Untouched kind payload (err e) m =
    let u = handled-Untouched kind payload (get kind m.handlers) (report_error e m) in
    record { next = u.next; ids = u.ids; requests = u.requests }

pub dispatch-Untouched :
    (kind : ℕ) (payload : Bytes) (m : Multiplexer) → Untouched m (dispatch kind payload m)
unfolding dispatch dispatch_push
dispatch-Untouched kind payload m = by_classifier (get kind m.classifiers)
  where
    by_classifier :
        (o : Option (Bytes → Result Bool))
        → Untouched m (elim o as (λ _. Multiplexer) [
          | none ↦ call_handler kind payload (get kind m.handlers) m
          | some c ↦ classified kind payload (c payload) m
        ])
    by_classifier none = handled-Untouched kind payload (get kind m.handlers) m
    by_classifier (some c) = classified-Untouched kind payload (c payload) m

pub Untouched-Shrinks : (m n : Multiplexer) → Untouched m n → Shrinks m n
Untouched-Shrinks m n u = record {
  next = u.next;
  fewer = λ id i e. subst (λ d. get id d ≡ some i) u.ids e;
  same = λ i p e. (p, subst (λ ps. get_elem? ps i ≡ some p) (sym u.requests) e, refl);
}

pub lost-Shrinks : (m : Multiplexer) → Shrinks m (set_disconnected m)
unfolding set_disconnected
lost-Shrinks m = record {
  next = refl;
  fewer = λ id i e. absurd (nothing id i e);
  same = λ i p e. cancel_all-same m.correlated m.requests i p e;
}
  where
    nothing : (id i : ℕ) → get id [] ≡ some i → ⊥
    nothing id i e = unfold get in cc
