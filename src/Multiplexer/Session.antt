-- ===== src/Multiplexer/Session.antt =====
-- What was negotiated for the session is touched by no message.
use fitz_py.Prelude.{ℕ, ◌≡◌, refl, Option, none, some, Bool, arith}
use fitz_py.Prelude.Bytes.{Bytes}
use fitz_py.Prelude.Dict.{get, nat_key}
use fitz_py.Errors.{Error, Result, ok, err}
use fitz_py.Multiplexer.{
  Multiplexer, dispatch, dispatch_push, classified, call_handler, report_error, dispatch_correlated,
}

call_handler-capability_ids :
    (kind : ℕ) (payload : Bytes) (h : Option (Bytes → Option Error)) (m : Multiplexer)
    → (call_handler kind payload h m).capability_ids ≡ m.capability_ids
unfolding call_handler report_error
call_handler-capability_ids kind payload none m = refl
call_handler-capability_ids kind payload (some h) m = ground (arith, h payload)

dispatch_push-capability_ids :
    (kind : ℕ) (payload : Bytes) (m : Multiplexer)
    → (dispatch_push kind payload m).capability_ids ≡ m.capability_ids
unfolding dispatch_push
dispatch_push-capability_ids kind payload m =
    call_handler-capability_ids kind payload (get kind m.handlers) m

classified-capability_ids :
    (kind : ℕ) (payload : Bytes) (r : Result Bool) (m : Multiplexer)
    → (classified kind payload r m).capability_ids ≡ m.capability_ids
unfolding classified report_error
classified-capability_ids kind payload (ok b) m = dispatch_push-capability_ids kind payload m
classified-capability_ids kind payload (err e) m = dispatch_push-capability_ids kind payload _

pub dispatch-capability_ids :
    (kind : ℕ) (payload : Bytes) (m : Multiplexer)
    → (dispatch kind payload m).capability_ids ≡ m.capability_ids
unfolding dispatch
dispatch-capability_ids kind payload m = ground (arith, dispatch_push-capability_ids kind payload m)

pub dispatch_correlated-capability_ids :
    (id : ℕ) (payload : Bytes) (final : Bool) (m : Multiplexer)
    → (dispatch_correlated id payload final m).1.capability_ids ≡ m.capability_ids
unfolding dispatch_correlated
dispatch_correlated-capability_ids id payload final m = ground arith
