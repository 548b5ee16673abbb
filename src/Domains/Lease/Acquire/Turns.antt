-- ===== src/Domains/Lease/Acquire/Turns.antt =====
-- The calls of `acquire` that hold the lock, and whose future stands in the deque.
use fitz_py.Prelude.{
  ℕ, zero, suc, ◌+◌, ◌≤◌, ◌≡◌, ◌≢◌, refl, ap, Bool, true, false, not, ◌&&◌, ◌⊎◌, ◌++◌, [], ◌∷◌,
  List, ==_self, bit, none, some, arith, set, get_elem?, all, is_some,
}
use fitz_py.Domains.Lease.Acquire.{
  Phase, waiting, requested, queueing, draining, ended, Call, Acquires, remove,
}

-- From the lock on until it is released.
abbrev pub holds : Phase → Bool
holds waiting = false
holds requested = true
holds queueing = true
holds draining = true
holds (ended r) = false

abbrev pub holders : List Call → ℕ
holders [] = 0
holders (c ∷ cs) = bit (holds c.phase) + holders cs

abbrev pub is_waiting : Phase → Bool
is_waiting waiting = true
is_waiting requested = false
is_waiting queueing = false
is_waiting draining = false
is_waiting (ended r) = false

-- A call that has not entered has no answer.
abbrev pub is_fresh : Call → Bool
is_fresh c = not (is_waiting c.phase && is_some c.queued_response)

-- The call that holds the lock: its future stands alone in the deque and is not done; or the deque
-- is empty, and the future is done, or there is none since the call does not wait and is in its
-- request.
abbrev pub Line : List ℕ → ℕ → Call → Type 0
Line q i c =
    ((q ≡ i ∷ []) × ((c.waits ≡ true) × (c.queued_response ≡ none)))
    ⊎ ((q ≡ [])
        × (((c.waits ≡ true) × (is_some c.queued_response ≡ true))
            ⊎ ((c.waits ≡ false) × (c.phase ≡ requested))))

-- The lock is free: nobody holds it, and the deque is empty.
pub record Free (s : Acquires) : Type 0 where
  pub unlocked : s.locked ≡ false
  pub nobody : holders s.calls ≡ 0
  pub no_queue : s.queued ≡ []

-- One call holds it.
pub record Taken (s : Acquires) (i : ℕ) (c : Call) : Type 0 where
  pub locked : s.locked ≡ true
  pub one : holders s.calls ≡ 1
  pub at : get_elem? s.calls i ≡ some c
  pub holding : holds c.phase ≡ true
  pub line : Line s.queued i c

pub record IsTurn (s : Acquires) : Type 0 where
  pub fresh : all is_fresh s.calls ≡ true
  pub turn : Free s ⊎ ((i : ℕ) × ((c : Call) × Taken s i c))

pub holders-set :
    (cs : List Call) (i : ℕ) (c d : Call)
    → get_elem? cs i ≡ some c
    → holders (set cs i d) + bit (holds c.phase) ≡ holders cs + bit (holds d.phase)
holders-set [] i c d h = cc
holders-set (x ∷ cs) zero c d h = let e : x ≡ c = cc in rw e (omega arith)
holders-set (x ∷ cs) (suc i) c d h = omega (arith, holders-set cs i c d h)

pub holders_at :
    (cs : List Call) (i : ℕ) (c : Call)
    → get_elem? cs i ≡ some c
    → holds c.phase ≡ true
    → 1 ≤ holders cs
holders_at [] i c h k = cc
holders_at (x ∷ cs) zero c h k = let e : x ≡ c = cc in rw (e, k) (omega arith)
holders_at (x ∷ cs) (suc i) c h k = omega (arith, holders_at cs i c h k)

-- Two calls that hold are one.
pub holders_unique :
    (cs : List Call) (i j : ℕ) (c d : Call)
    → holders cs ≤ 1
    → get_elem? cs i ≡ some c
    → holds c.phase ≡ true
    → get_elem? cs j ≡ some d
    → holds d.phase ≡ true
    → i ≡ j
holders_unique [] i j c d l hc kc hd kd = cc
holders_unique (x ∷ cs) zero zero c d l hc kc hd kd = refl
holders_unique (x ∷ cs) zero (suc j) c d l hc kc hd kd =
    let e : x ≡ c = cc in
    let b : bit (holds x.phase) ≡ 1 = rw (e, kc) refl in
    absurd (omega (arith, holders_at cs j d hd kd, b))
holders_unique (x ∷ cs) (suc i) zero c d l hc kc hd kd =
    let e : x ≡ d = cc in
    let b : bit (holds x.phase) ≡ 1 = rw (e, kd) refl in
    absurd (omega (arith, holders_at cs i c hc kc, b))
holders_unique (x ∷ cs) (suc i) (suc j) c d l hc kc hd kd =
    ap suc (holders_unique cs i j c d (omega arith) hc kc hd kd)

module _ {A : Type 0} where
  pub get-set :
      (xs : List A) (i : ℕ) (a b : A) → get_elem? xs i ≡ some a → get_elem? (set xs i b) i ≡ some b
  get-set [] i a b h = cc
  get-set (x ∷ xs) zero a b h = refl
  get-set (x ∷ xs) (suc i) a b h = get-set xs i a b h

  pub get-set_other :
      (xs : List A) (i j : ℕ) (b : A) → i ≢ j → get_elem? (set xs i b) j ≡ get_elem? xs j
  get-set_other [] i j b h = refl
  get-set_other (x ∷ xs) zero zero b h = absurd (h refl)
  get-set_other (x ∷ xs) zero (suc j) b h = refl
  get-set_other (x ∷ xs) (suc i) zero b h = refl
  get-set_other (x ∷ xs) (suc i) (suc j) b h = get-set_other xs i j b (λ e. h (ap suc e))

  pub all-set :
      (p : A → Bool) (xs : List A) (i : ℕ) (b : A)
      → all p xs ≡ true
      → p b ≡ true
      → all p (set xs i b) ≡ true
  all-set p [] i b h k = refl
  all-set p (x ∷ xs) zero b h k = ground arith
  all-set p (x ∷ xs) (suc i) b h k = ground (arith, all-set p xs i b)

  pub all-get :
      (p : A → Bool) (xs : List A) (i : ℕ) (a : A)
      → all p xs ≡ true
      → get_elem? xs i ≡ some a
      → p a ≡ true
  all-get p [] i a h k = cc
  all-get p (x ∷ xs) zero a h k = let e : x ≡ a = cc in rw (← e) (ground arith)
  all-get p (x ∷ xs) (suc i) a h k = all-get p xs i a (ground arith) k

  pub all-append_one :
      (p : A → Bool) (xs : List A) (b : A)
      → all p xs ≡ true
      → p b ≡ true
      → all p (xs ++ (b ∷ [])) ≡ true
  all-append_one p [] b h k = ground arith
  all-append_one p (x ∷ xs) b h k = ground (arith, all-append_one p xs b)

  pub get-append_left :
      (xs ys : List A) (i : ℕ) (a : A) → get_elem? xs i ≡ some a → get_elem? (xs ++ ys) i ≡ some a
  get-append_left [] ys i a h = cc
  get-append_left (x ∷ xs) ys zero a h = h
  get-append_left (x ∷ xs) ys (suc i) a h = get-append_left xs ys i a h

pub holders-append_one :
    (cs : List Call) (c : Call) → holders (cs ++ (c ∷ [])) ≡ holders cs + bit (holds c.phase)
holders-append_one [] c = omega arith
holders-append_one (x ∷ cs) c = omega (arith, holders-append_one cs c)

pub remove-only : (i : ℕ) → remove i (i ∷ []) ≡ []
remove-only i = rw (==_self i) refl
