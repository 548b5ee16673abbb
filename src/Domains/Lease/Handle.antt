-- ===== src/Domains/Lease/Handle.antt =====
-- The handle of a lease that is held.
use fitz_py.Prelude.{ℕ, ◌≡◌, refl, Bool, true, not, ◌||◌, ◌==◌, ◌⊎◌, inl, inr, Bool-cases}
use fitz_py.Errors.{Error, Result, ok, err, stale_handle}
use fitz_py.Exec.{continue}
use fitz_py.Domains.Link.{Link}
use fitz_py.Domains.Lease.{Lease}
use fitz_py.Domains.Lease.Client.{valid, through, extend, extend_wire, release, release_wire}

abbrev is_stale : Lease → Bool
is_stale h = h.released || not (h.generation == h.connection.generation)

-- Every operation raises, and nothing is sent or changed.
abbrev pub IsOver : Lease → Type 0
IsOver h =
    ((ttl : ℕ) → extend ttl h ≡ (err (stale_handle "Lease"), h))
    × (release h ≡ (err (stale_handle "Lease"), h))

stale-IsOver : (h : Lease) → is_stale h ≡ true → IsOver h
unfolding extend release valid
stale-IsOver h e = (λ ttl. rw e refl, rw e refl)

-- A handle with a new token, or released; or an error that leaves all but the connection.
abbrev Released : Lease → Result (Unit {0}) × Lease → Type 0
Released h p =
    ((p.0 ≡ ok tt) × IsOver p.1)
    ⊎ ((e : Error) × ((p.0 ≡ err e) × (p.1 ≡ record h { connection = p.1.connection })))

abbrev Extended : Lease → Result (Unit {0}) × Lease → Type 0
Extended h p =
    ((p.0 ≡ ok tt) × (p.1 ≡ record h { token = p.1.token; connection = p.1.connection }))
    ⊎ ((e : Error) × ((p.0 ≡ err e) × (p.1 ≡ record h { connection = p.1.connection })))

release_after :
    (h : Lease) (p : Result (Unit {0}) × Link)
    → Released h (continue (λ u g. (ok tt, record g { released = true })) (through h p))
release_after h (ok u, s) =
    inl (refl, stale-IsOver (record h { connection = s; released = true }) refl)
release_after h (err e, s) = inr (e, (refl, refl))

extend_after :
    (h : Lease) (p : Result ℕ × Link)
    → Extended h (continue (λ (n : ℕ) g. (ok tt, record g { token = n })) (through h p))
extend_after h (ok n, s) = inl (refl, refl)
extend_after h (err e, s) = inr (e, (refl, refl))

-- A handle that was released, or that another generation of the connection gave, raises at every
-- use and sends nothing. A release of one that is in use either succeeds, and then it is over in
-- the same way, or raises and changes nothing of the handle, so that it may be tried again. An
-- extension changes at most its token, and nothing when it raises.
pub release-Outcome :
    (h : Lease) (ttl : ℕ)
    → ((is_stale h ≡ true) × IsOver h) ⊎ (Released h (release h) × Extended h (extend ttl h))
unfolding extend release valid
release-Outcome h ttl = elim (Bool-cases (is_stale h)) [
  | inl e ↦ inl (e, stale-IsOver h e)
  | inr e ↦ inr (
    rw e (release_after h (release_wire h.route h.owner_id h.token h.connection)),
    rw e (extend_after h (extend_wire h.route h.owner_id h.token ttl h.connection)),
  )
]
