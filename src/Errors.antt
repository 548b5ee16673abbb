-- ===== src/Errors.antt =====
-- errors.py: the exceptions of the library and those of Python that its code raises.
-- An exception is a value; the text of its message, which no code reads, is left out.
pub mod Retry
use fitz_py.Prelude.{ℕ, String, Option, none, some, List}

-- The subclasses of `DomainError`, by their `prefix`.
pub data Domain : Type 0 where
  kv queue notice rpc lease stream schedule : Domain

pub data Error : Type 0 where
  -- subclasses of `FitzError`
  transport_error connection_error authentication_error timeout_error codec_error : Error
  request_queue_full subscription_backpressure lease_lost : Error
  protocol_error : Option ℕ → Error
  stale_handle : String → Error
  -- `ReconnectRestoreError(domain, registration, cause)`
  reconnect_restore : String → List ℕ → Error → Error
  -- prefix, reason, `domain_code`, `error_class`, `effect`
  domain_error : Domain → String → Option ℕ → Option ℕ → Option ℕ → Error
  -- Python's own
  value_error type_error index_error unicode_error struct_error cancelled stop_iteration : Error
  -- no Python exception: a loop of the model ran out of fuel
  diverged : Error

-- A computation that returns or raises.
pub data Result {ℓ} (A : Type ℓ) : Type ℓ where
  ok : A → Result A
  err : Error → Result A

infixl 5 ◌>>=◌ ◌>>◌
abbrev pub ◌>>=◌ {ℓ κ} : {A : Type ℓ} {B : Type κ} → Result A → (A → Result B) → Result B
ok a >>= f = f a
err e >>= f = err e

abbrev pub ◌>>◌ {ℓ κ} : {A : Type ℓ} {B : Type κ} → Result A → Result B → Result B
m >> k = m >>= λ _. k

-- The class attribute `prefix`.
unfoldable pub prefix : Domain → String
prefix kv = "KV"
prefix queue = "QUEUE"
prefix notice = "NOTICE"
prefix rpc = "RPC"
prefix lease = "LEASE"
prefix stream = "STREAM"
prefix schedule = "SCHEDULE"
