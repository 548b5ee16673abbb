-- ===== src/Domains/Kv/Settled.antt =====
-- A transaction that was committed or rolled back is used no more.
use fitz_py.Prelude.{
  ℕ, String, Bool, true, false, ◌||◌, ◌==◌, ◌≡◌, refl, ap, inl, inr, Bool-cases, if◌then◌else◌,
  none, Option, ◌⊎◌,
}
use fitz_py.Prelude.Bytes.{Bytes}
use fitz_py.Errors.{Error, Result, ok, err, kv, domain_error, stale_handle}
use fitz_py.Exec.{continue, lift, pure, ◌>>=◌}
use fitz_py.Protocol.Buffer.{Writer, Reader, reader, written}
use fitz_py.Domains.Link.{request_frame}
use fitz_py.Domains.Kv.{
  KvTransaction, ensure_open, request, exchange, prefixed, finish, commit, rollback, get, write,
  delete, read_status, delete_range, bytes_lt, scan_page, scan, valid_limit,
}

-- `_ensure_open` raises `e` and changes nothing.
abbrev pub IsDead : Error → KvTransaction → Type 0
IsDead e t = ensure_open t ≡ (err e, t)

-- Every operation raises, and nothing is sent or changed; a range or a limit that is refused before
-- the transaction is looked at raises the error of that.
abbrev pub IsRefused : KvTransaction → Type 0
IsRefused t =
    (e : Error) × ((key : Bytes) → get key t ≡ (err e, t))
    × ((message_type : ℕ) (operation : String) (key value : Bytes)
        → write message_type operation key value t ≡ (err e, t))
    × ((key : Bytes) → delete key t ≡ (err e, t))
    × ((sync : Bool) → commit sync t ≡ (err e, t))
    × ((start_key end_key : Bytes)
        → (delete_range start_key end_key t ≡ (err e, t))
          ⊎ (delete_range start_key end_key t
              ≡ (err (domain_error kv "INVALID_RANGE" none none none), t)))
    × ((start_key end_key : Option Bytes) (limit : Option ℕ) (reverse exclusive : Bool)
        → (scan_page start_key end_key limit reverse exclusive t ≡ (err e, t))
          ⊎ (scan_page start_key end_key limit reverse exclusive t
              ≡ (err (domain_error kv "INVALID_LIMIT" none none none), t)))
    × ((start_key end_key : Option Bytes) (limit : Option ℕ) (reverse : Bool)
        → (scan start_key end_key limit reverse t ≡ (err e, t))
          ⊎ (scan start_key end_key limit reverse t
              ≡ (err (domain_error kv "INVALID_LIMIT" none none none), t)))

dead-delete_range :
    (e : Error) (t : KvTransaction) (start_key end_key : Bytes)
    → IsDead e t
    → (delete_range start_key end_key t ≡ (err e, t))
      ⊎ (delete_range start_key end_key t
          ≡ (err (domain_error kv "INVALID_RANGE" none none none), t))
unfolding delete_range
dead-delete_range e t start_key end_key h = elim (Bool-cases (bytes_lt start_key end_key)) [
  | inl p ↦ inl (rw (p, h) refl)
  | inr p ↦ inr (rw p refl)
]

dead-scan_page :
    (e : Error) (t : KvTransaction) (start_key end_key : Option Bytes) (limit : Option ℕ)
    (reverse exclusive : Bool)
    → IsDead e t
    → (scan_page start_key end_key limit reverse exclusive t ≡ (err e, t))
      ⊎ (scan_page start_key end_key limit reverse exclusive t
          ≡ (err (domain_error kv "INVALID_LIMIT" none none none), t))
unfolding scan_page
dead-scan_page e t start_key end_key limit reverse exclusive h =
    elim (Bool-cases (valid_limit limit)) [ inl p ↦ inl (rw (p, h) refl) | inr p ↦ inr (rw p refl) ]

dead-scan :
    (e : Error) (t : KvTransaction) (start_key end_key : Option Bytes) (limit : Option ℕ)
    (reverse : Bool)
    → IsDead e t
    → (scan start_key end_key limit reverse t ≡ (err e, t))
      ⊎ (scan start_key end_key limit reverse t
          ≡ (err (domain_error kv "INVALID_LIMIT" none none none), t))
unfolding scan
dead-scan e t start_key end_key limit reverse h =
    elim (dead-scan_page e t start_key end_key limit reverse false h) [
      | inl p ↦ inl (rw p refl)
      | inr p ↦ inr (rw p refl)
    ]

IsDead-IsRefused : (e : Error) (t : KvTransaction) → IsDead e t → IsRefused t
unfolding get write delete commit finish
IsDead-IsRefused e t h = (
  e,
  λ key. rw h refl,
  λ m o k v. rw h refl,
  λ key. rw h refl,
  λ sync. rw h refl,
  λ s d. dead-delete_range e t s d h,
  λ s d l r x. dead-scan_page e t s d l r x h,
  λ s d l r. dead-scan e t s d l r h,
)

closed-IsRefused : (t : KvTransaction) → t.closed ≡ true → IsRefused t
closed-IsRefused t h = elim (Bool-cases (t.generation == t.connection.generation)) [
  | inl e ↦
      IsDead-IsRefused (domain_error kv "TX_CLOSED" none none none) t
        (unfold ensure_open in rw (e, h) refl)
  | inr e ↦ IsDead-IsRefused (stale_handle "KV transaction") t (unfold ensure_open in rw e refl)
]

module _ {A : Type 0} (message_type : ℕ) (read : Reader A) where
  answer_closed :
      (answer : Result Bytes) (t : KvTransaction)
      → t.closed ≡ true
      → (continue (λ raw. lift ((read (reader raw)).0)) (answer, t)).1.closed ≡ true
  answer_closed (ok raw) t h = h
  answer_closed (err e) t h = h

  payload_closed :
      (payload : Result Bytes) (t : KvTransaction)
      → t.closed ≡ true
      → (continue
          (λ bs. request message_type bs >>= λ raw. lift ((read (reader raw)).0))
          (payload, t)).1.closed
        ≡ true
  unfolding request
  payload_closed (ok bs) t h =
      answer_closed _ _ (ap (λ b. b || (request_frame message_type bs t.connection).1.lost) h)
  payload_closed (err e) t h = h

  exchange-closed :
      (rest : Writer Unit) (t : KvTransaction)
      → t.closed ≡ true
      → (exchange message_type rest read t).1.closed ≡ true
  unfolding exchange
  exchange-closed rest t h = payload_closed (written (prefixed t rest)) t h

finish_dead :
    (message_type : ℕ) (operation : String) (persistence : Writer Unit) (e : Error)
    (t : KvTransaction)
    → IsDead e t
    → IsRefused (finish message_type operation persistence t).1
unfolding finish
finish_dead message_type operation persistence e t h = rw h (IsDead-IsRefused e t h)

finish_open :
    (message_type : ℕ) (operation : String) (persistence : Writer Unit) (t : KvTransaction)
    → ensure_open t ≡ (ok tt, t)
    → IsRefused (finish message_type operation persistence t).1
unfolding finish
finish_open message_type operation persistence t h = rw h (
    closed-IsRefused _ (
      exchange-closed message_type (read_status operation (pure tt)) persistence
        (record t { closed = true }) refl))

abbrev opened : Bool → KvTransaction → Result (Unit {0}) × KvTransaction
opened c t = if c then (err (domain_error kv "TX_CLOSED" none none none), t) else (ok tt, t)

finish-IsRefused :
    (message_type : ℕ) (operation : String) (persistence : Writer Unit) (t : KvTransaction)
    → IsRefused (finish message_type operation persistence t).1
unfolding ensure_open
finish-IsRefused message_type operation persistence t =
    elim (Bool-cases (t.generation == t.connection.generation)) [
      | inr e ↦
          finish_dead message_type operation persistence (stale_handle "KV transaction") t
            (rw e refl)
      | inl e ↦ elim (Bool-cases t.closed) [
        | inl c ↦
            finish_dead message_type operation persistence
              (domain_error kv "TX_CLOSED" none none none) t (rw e (ap (λ b. opened b t) c))
        | inr c ↦ finish_open message_type operation persistence t (rw e (ap (λ b. opened b t) c))
      ]
    ]

rollback-IsRefused : (t : KvTransaction) → IsRefused (rollback t).1
unfolding rollback
rollback-IsRefused t = by_flag t.closed refl
  where
    by_flag :
        (b : Bool)
        → t.closed ≡ b
        → IsRefused (if b then (ok tt, t) else finish 102 "ROLLBACK" (pure tt) t).1
    by_flag true h = closed-IsRefused t h
    by_flag false h = finish-IsRefused 102 "ROLLBACK" (pure tt) t

-- However a commit with a valid durability or a rollback ends, in success or in an error, the
-- transaction is used no more: every later get, write, delete, commit, range deletion, scan of a
-- page and scan on it raises, sends nothing and changes nothing.
pub commit-IsRefused :
    (sync : Bool) (t : KvTransaction) → IsRefused (commit sync t).1 × IsRefused (rollback t).1
unfolding commit
commit-IsRefused sync t = (finish-IsRefused _ _ _ t, rollback-IsRefused t)
