-- ===== src/Errors/Retry.antt =====
-- `is_retryable` and `domain_error` of errors.py.
use fitz_py.Prelude.{
  ℕ, String, Option, none, some, Bool, true, false, ◌&&◌, ◌||◌, ◌==◌, if◌then◌else◌, ◌≡◌, arith,
}
use fitz_py.Errors.{
  Domain, kv, lease, rpc, Error, transport_error, timeout_error, request_queue_full, domain_error,
}

-- `(error.prefix, error.domain_code) in _RETRYABLE`
abbrev pub retryable_code : Domain → ℕ → Bool
retryable_code kv code = code == 1053
retryable_code lease code = code == 5050 || code == 5056
retryable_code rpc code = code == 6051
retryable_code _ code = false

-- An `int | None` against a number.
abbrev pub holds : Option ℕ → ℕ → Bool
holds none n = false
holds (some m) n = m == n

unfoldable pub is_retryable : Error → Bool
is_retryable transport_error = true
is_retryable timeout_error = true
is_retryable request_queue_full = true
is_retryable (domain_error d reason none error_class effect) = false
is_retryable (domain_error d reason (some code) error_class effect) =
    if holds effect 0 then (holds error_class 5 || retryable_code d code) else false
is_retryable _ = false

-- `domain_error(error_type, operation, status, message, error_class, effect)`
abbrev pub response_error : Domain → String → ℕ → Option ℕ → Option ℕ → Error
response_error d operation status error_class effect =
    domain_error d operation (some status) error_class effect

-- A broker's error is never retried unless it says that it had no effect (effect 0), and, that
-- said, it is retried exactly when its class is 5 or its code is one of the four listed.
pub is_retryable-domain_error :
    (d : Domain) (reason : String) (code error_class effect : ℕ)
    → is_retryable (domain_error d reason (some code) (some error_class) (some effect))
      ≡ ((effect == 0) && (error_class == 5 || retryable_code d code))
unfolding is_retryable
is_retryable-domain_error d reason code error_class effect = ground arith
