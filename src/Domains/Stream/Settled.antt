-- ===== src/Domains/Stream/Settled.antt =====
-- The end of an append session.
use fitz_py.Prelude.{
  ℕ, String, ◌≡◌, refl, sym, ◌∙◌, Bool, true, false, ◌==◌, ◌⊎◌, inl, inr, Option, some, arith,
  subst, is_empty, if◌then◌else◌,
}
use fitz_py.Prelude.Bytes.{Bytes}
use fitz_py.Errors.{Error, Result, ok, err, stale_handle}
use fitz_py.Exec.{Exec, continue, ◌>>=◌, ◌>>◌, gets, lift, guard}
use fitz_py.Text.{Str}
use fitz_py.Protocol.Buffer.{Writer, written, reader, write_u64_be, write_u8}
use fitz_py.Protocol.Response.{success, parse_response}
use fitz_py.Protocol.Messages.{msg_stream_commit, msg_stream_rollback}
use fitz_py.Domains.Stream.{StreamCommitMode, stream_error}
use fitz_py.Domains.Stream.Session.{
  StreamSession, ensure_open, invalidate, request, exchange, expect_status, append, commit,
  rollback, close, read_committed, mode_byte,
}

-- Every operation raises, and nothing is sent or changed.
abbrev pub IsOver : StreamSession → Type 0
IsOver s =
    ((expected_offset : ℕ) (body : Bytes) (metadata : Option Bytes) (discriminator : Option Str)
      → append expected_offset body metadata discriminator s
        ≡ (err (stale_handle "Stream session"), s))
    × ((mode : StreamCommitMode) → commit mode s ≡ (err (stale_handle "Stream session"), s))
    × (rollback s ≡ (err (stale_handle "Stream session"), s))

closed-refused :
    (s : StreamSession) → s.closed ≡ true → ensure_open s ≡ (err (stale_handle "Stream session"), s)
unfolding ensure_open
closed-refused s h = rw h refl

refused-IsOver :
    (s : StreamSession) → ensure_open s ≡ (err (stale_handle "Stream session"), s) → IsOver s
unfolding append commit rollback
refused-IsOver s h = (λ o b m d. rw h refl, λ mode. rw h refl, rw h refl)

-- A session that was open when an operation started is closed by a lost transport alone.
abbrev pub Survives : StreamSession → StreamSession → Type 0
Survives s t = (t.closed ≡ false) ⊎ ((s.closed ≡ true) ⊎ (t.connection.lost ≡ true))

request-Survives :
    (message_type : ℕ) (payload : Bytes) (s : StreamSession)
    → Survives s (request message_type payload s).1
unfolding request invalidate
request-Survives message_type payload s = ground arith

record Same {A : Type 0} (m : Exec StreamSession A) : Type 0 where
  pub at : (s : StreamSession) → (m s).1 ≡ s

record Mild {A : Type 0} (m : Exec StreamSession A) : Type 0 where
  pub at : (s : StreamSession) → Survives s (m s).1

module _ {A : Type 0} where
  Same-lift : (r : Result A) → Same (lift r)
  Same-lift r = record { at = λ s. refl }

  Same-gets : (f : StreamSession → A) → Same (gets f)
  Same-gets f = record { at = λ s. refl }

Same-guard : (b : Bool) (e : Error) → Same (guard b e)
Same-guard true e = record { at = λ s. refl }
Same-guard false e = record { at = λ s. refl }

Same-ensure_open : Same ensure_open
unfolding ensure_open
Same-ensure_open = record { at = λ s. ground arith }

Same-if :
    {A : Type 0} (b : Bool) (m n : Exec StreamSession A)
    → Same m
    → Same n
    → Same (if b then m else n)
Same-if true m n hm hn = hm
Same-if false m n hm hn = hn

Survives-self : (s : StreamSession) → Survives s s
Survives-self s = ground arith

module _ {A B : Type 0} (m : Exec StreamSession A) (f : A → Exec StreamSession B) where
  continue-Same :
      (r : Result A) (s : StreamSession) → ((a : A) → Same (f a)) → (continue f (r, s)).1 ≡ s
  continue-Same (ok a) s h = (h a).at s
  continue-Same (err e) s h = refl

  continue-Mild :
      (r : Result A) (s : StreamSession) → ((a : A) → Mild (f a)) → Survives s (continue f (r, s)).1
  continue-Mild (ok a) s h = (h a).at s
  continue-Mild (err e) s h = Survives-self s

  Same-bind : Same m → ((a : A) → Same (f a)) → Same (m >>= f)
  Same-bind hm hf = record { at = λ s. continue-Same (m s).0 (m s).1 hf ∙ hm.at s }

  Mild-after : Mild m → ((a : A) → Same (f a)) → Mild (m >>= f)
  Mild-after hm hf = record {
    at = λ s. subst (Survives s) (sym (continue-Same (m s).0 (m s).1 hf)) (hm.at s);
  }

  Mild-before : Same m → ((a : A) → Mild (f a)) → Mild (m >>= f)
  Mild-before hm hf = record {
    at = λ s.
        subst (λ t. Survives t (continue f ((m s).0, (m s).1)).1) (hm.at s)
          (continue-Mild (m s).0 (m s).1 hf);
  }

exchange-Mild :
    (message_type : ℕ) (operation : String) (payload : Writer Unit)
    → Mild (exchange message_type operation payload)
unfolding exchange
exchange-Mild message_type operation payload =
    Mild-before (lift (written payload)) _ (Same-lift _) (λ bs.
      Mild-after (request message_type bs) _ (record { at = request-Survives message_type bs })
        (λ raw. Same-bind (lift (parse_response raw)) _ (Same-lift _) (λ response.
          Same-bind (guard (success response) _) _ (Same-guard (success response) _)
            (λ u. Same-lift (ok response)))))

expect_status-Mild :
    (message_type : ℕ) (payload : Writer Unit) (operation : String)
    → Mild (expect_status message_type payload operation)
unfolding expect_status
expect_status-Mild message_type payload operation =
    Mild-after (exchange message_type operation payload) _
      (exchange-Mild message_type operation payload)
      (λ response.
        Same-if (message_type == msg_stream_commit)
          (lift ((read_committed (reader response.content)).0))
          (guard (is_empty response.content) (stream_error "INVALID_RESPONSE")) (Same-lift _)
          (Same-guard (is_empty response.content) _))

-- An operation that ends the session is over, or failed and left it as it was.
abbrev pub Outcome : StreamSession → Result (Unit {0}) × StreamSession → Type 0
Outcome s p = ((p.0 ≡ ok tt) × IsOver p.1) ⊎ ((e : Error) × ((p.0 ≡ err e) × Survives s p.1))

end_outcome :
    (reason : String) (s : StreamSession) (p : Result (Unit {0}) × StreamSession)
    → Survives s p.1
    → Outcome s (continue (λ u. close reason) p)
unfolding close
end_outcome reason s (ok u, t) h = inl (
  refl,
  refused-IsOver (record t { closed = true; closed_reason = some reason }) (closed-refused _ refl),
)
end_outcome reason s (err e, t) h = inr (e, (refl, h))

ensured :
    (reason : String) (s : StreamSession) (m : StreamSession → Exec StreamSession Unit)
    → Mild (m s)
    → (ensure_open s ≡ (ok tt, s)) ⊎ (ensure_open s ≡ (err (stale_handle "Stream session"), s))
    → Outcome s ((ensure_open >> (λ t. (m t >> close reason) t)) s)
ensured reason s m h (inl e) = rw e (end_outcome reason s (m s s) (h.at s))
ensured reason s m h (inr e) = rw e (inr (stale_handle "Stream session", (refl, Survives-self s)))

ensure_open-cases :
    (s : StreamSession)
    → (ensure_open s ≡ (ok tt, s)) ⊎ (ensure_open s ≡ (err (stale_handle "Stream session"), s))
unfolding ensure_open
ensure_open-cases s = ground arith

-- A commit or a rollback either succeeds, and then every later operation on the session raises,
-- sends nothing and changes nothing; or it raises, and then the session is closed only if it was
-- before or if the transport was lost: an error that the broker reports leaves it open for a retry.
pub commit-Outcome :
    (mode : StreamCommitMode) (s : StreamSession)
    → Outcome s (commit mode s) × Outcome s (rollback s)
unfolding commit rollback
commit-Outcome mode s = (
  ensured "committed" s
      (λ t.
        expect_status msg_stream_commit (do write_u64_be t.session_id; write_u8 (mode_byte mode))
          "COMMIT")
      (expect_status-Mild _ _ _) (ensure_open-cases s),
  ensured "rolled back" s
      (λ t. expect_status msg_stream_rollback (write_u64_be t.session_id) "ROLLBACK")
      (expect_status-Mild _ _ _) (ensure_open-cases s),
)
