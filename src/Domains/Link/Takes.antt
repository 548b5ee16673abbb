-- ===== src/Domains/Link/Takes.antt =====
-- Requests take answers from the script: what a loop over pages needs to end.
use fitz_py.Prelude.{ℕ, ◌≤◌, ◌<◌, ◌≡◌, Bool, true, false, length, arith, refl, if◌then◌else◌}
use fitz_py.Prelude.Bytes.{Bytes}
use fitz_py.Errors.{Error, Result, ok, err}
use fitz_py.Exec.{Exec, lift, guard, continue, ◌>>=◌}
use fitz_py.Protocol.Buffer.{Writer, written}
use fitz_py.Protocol.Response.{parse_response}
use fitz_py.Domains.Link.{Link, call, request_frame, request_frame_with_flags}

module _ {A : Type 0} where
  -- It leaves no more answers than there were.
  pub record Keeps (m : Exec Link A) : Type 0 where
    pub at : (s : Link) → length (m s).1.replies ≤ length s.replies

  -- Where it returns, it has taken an answer.
  pub record Takes (m : Exec Link A) : Type 0 where
    pub at : (s : Link) (a : A) → (m s).0 ≡ ok a → length (m s).1.replies < length s.replies

  pub Keeps-lift : (r : Result A) → Keeps (lift r)
  Keeps-lift r = record { at = λ s. omega arith }

  pub Takes-if : (b : Bool) (m n : Exec Link A) → Takes m → Takes n → Takes (if b then m else n)
  Takes-if true m n hm hn = hm
  Takes-if false m n hm hn = hn

pub Keeps-guard : (b : Bool) (e : Error) → Keeps (guard b e)
Keeps-guard true e = record { at = λ s. omega arith }
Keeps-guard false e = record { at = λ s. omega arith }

module _ {A B : Type 0} (m : Exec Link A) (f : A → Exec Link B) where
  continue-Keeps :
      (n : ℕ) (p : Result A × Link)
      → length p.1.replies ≤ n
      → ((a : A) → Keeps (f a))
      → length (continue f p).1.replies ≤ n
  continue-Keeps n (ok a, s) h k = omega (arith, (k a).at s)
  continue-Keeps n (err e, s) h k = h

  continue-Takes_after :
      (n : ℕ) (p : Result A × Link) (b : B)
      → ((a : A) → p.0 ≡ ok a → length p.1.replies < n)
      → ((a : A) → Keeps (f a))
      → (continue f p).0 ≡ ok b
      → length (continue f p).1.replies < n
  continue-Takes_after n (ok a, s) b h k e = omega (arith, h a refl, (k a).at s)
  continue-Takes_after n (err x, s) b h k e = cc

  continue-Takes_before :
      (n : ℕ) (p : Result A × Link) (b : B)
      → length p.1.replies ≤ n
      → ((a : A) → Takes (f a))
      → (continue f p).0 ≡ ok b
      → length (continue f p).1.replies < n
  continue-Takes_before n (ok a, s) b h k e = omega (arith, (k a).at s b e)
  continue-Takes_before n (err x, s) b h k e = cc

  pub Keeps-bind : Keeps m → ((a : A) → Keeps (f a)) → Keeps (m >>= f)
  Keeps-bind hm hf = record { at = λ s. continue-Keeps (length s.replies) (m s) (hm.at s) hf }

  pub Takes-after : Takes m → ((a : A) → Keeps (f a)) → Takes (m >>= f)
  Takes-after hm hf = record {
    at = λ s b e. continue-Takes_after (length s.replies) (m s) b (hm.at s) hf e;
  }

  pub Takes-before : Keeps m → ((a : A) → Takes (f a)) → Takes (m >>= f)
  Takes-before hm hf = record {
    at = λ s b e. continue-Takes_before (length s.replies) (m s) b (hm.at s) hf e;
  }

Takes-request : (message_type : ℕ) (bs : Bytes) → Takes (request_frame message_type bs)
unfolding request_frame request_frame_with_flags
Takes-request message_type bs = record { at = λ s b e. ground arith }

pub Takes-call : (message_type : ℕ) (payload : Writer Unit) → Takes (call message_type payload)
unfolding call
Takes-call message_type payload = Takes-before (lift (written payload)) _ (Keeps-lift _) (λ bs.
    Takes-after (request_frame message_type bs) _ (Takes-request message_type bs)
      (λ raw. Keeps-lift (parse_response raw)))
