-- ===== src/Connection/Lifecycle/Parts.antt =====
-- What the receiving task does, part by part.
use fitz_py.Prelude.{
  ℕ, ◌≡◌, refl, Bool, true, false, not, ◌&&◌, ◌||◌, ◌⊎◌, inl, inr, Bool-cases, if◌then◌else◌,
}
use fitz_py.Prelude.Bytes.{Bytes}
use fitz_py.Errors.{Error, Result, ok, err, cancelled}
use fitz_py.Connection.{Connection, Handshake}
use fitz_py.Connection.Inbound.{dispatch_transport_frame}
use fitz_py.Connection.Lifecycle

-- A property that each part of the task keeps.
pub record IsKept (P : Connection → Type 0) : Type 0 where
  pub ends : (t : ℕ) (c : Connection) → P c → P (Lifecycle.end_receive t c)
  pub loses : (c : Connection) → P c → P (Lifecycle.connection_lost c)
  pub rejects : (k : Handshake) (c : Connection) → P c → P (record c { handshake = k })
  pub dispatches :
      (bs : Bytes) (c : Connection)
      → c.is_closed ≡ false
      → P c
      → P (dispatch_transport_frame bs c).1

cancelled_or_not :
    (e : Error)
    → (e ≡ cancelled)
      ⊎ ((t : ℕ) (c : Connection)
          → Lifecycle.receive_failed t e c ≡ (
              if Lifecycle.is_authenticating c.state && Lifecycle.has_handshake c.handshake
              then Lifecycle.end_receive t (record c { handshake = Lifecycle.reject e c.handshake })
              else if not c.is_closed && Lifecycle.is_own t c.transport
              then Lifecycle.end_receive t (Lifecycle.connection_lost c)
              else Lifecycle.end_receive t c))
unfolding Lifecycle.receive_failed
cancelled_or_not cancelled = inl refl
cancelled_or_not e = inr (λ t c. refl)

or-false : (a b : Bool) → (a || b) ≡ false → a ≡ false
or-false true b e = e
or-false false b e = refl

module _ {P : Connection → Type 0} (k : IsKept P) where
  if_kept : (b : Bool) (c d : Connection) → P c → P d → P (if b then c else d)
  if_kept true c d h g = h
  if_kept false c d h g = g

  pub receive_failed_kept :
      (t : ℕ) (e : Error) (c : Connection) → P c → P (Lifecycle.receive_failed t e c)
  unfolding Lifecycle.receive_failed
  receive_failed_kept t e c h = elim (cancelled_or_not e) [
    | inl q ↦ rw q (k.ends t c h)
    | inr q ↦ rw (q t c) (
        if_kept _ _ _ (k.ends t _ (k.rejects _ c h))
          (if_kept _ _ _ (k.ends t _ (k.loses c h)) (k.ends t c h)))
  ]

  answered_kept :
      (t : ℕ) (r : Result (Unit {0})) (c : Connection)
      → P c
      → P (elim r as (λ _. Connection) [ ok u ↦ c | err e ↦ Lifecycle.receive_failed t e c ])
  answered_kept t (ok u) c h = h
  answered_kept t (err e) c h = receive_failed_kept t e c h

  pub received_kept : (t : ℕ) (bs : Bytes) (c : Connection) → P c → P (Lifecycle.received t bs c)
  unfolding Lifecycle.received
  received_kept t bs c h = elim (Bool-cases (c.is_closed || not (Lifecycle.is_own t c.transport))) [
    | inl e ↦ rw e (k.ends t c h)
    | inr e ↦ rw e (
        answered_kept t (dispatch_transport_frame bs c).0 _
          (k.dispatches bs c (or-false c.is_closed _ e) h))
  ]
