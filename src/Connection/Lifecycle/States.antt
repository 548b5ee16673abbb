-- ===== src/Connection/Lifecycle/States.antt =====
-- What the receiving task does to the state of a connection.
use fitz_py.Prelude.{ℕ, ◌≡◌, ◌⊎◌, inl, inr, refl, sym, ◌∙◌, subst, true, false, arith}
use fitz_py.Connection.{
  ConnectionState, disconnected, connecting, connected, authenticating, authenticated, reconnecting,
  closed, Connection, set_state,
}
use fitz_py.Connection.Inbound.Limits.{dispatch_transport_frame-Keeps}
use fitz_py.Connection.Lifecycle
use fitz_py.Connection.Lifecycle.Parts.{IsKept}

-- The states in which a connection can be lost.
abbrev pub IsUp : ConnectionState → Type 0
IsUp disconnected = ⊥
IsUp reconnecting = ⊥
IsUp closed = ⊥
IsUp s = Unit {0}

abbrev pub IsDown : ConnectionState → Type 0
IsDown disconnected = Unit {0}
IsDown reconnecting = Unit {0}
IsDown closed = Unit {0}
IsDown s = ⊥

-- What the receiving task does to the state `s` of a connection that is not closed.
abbrev pub Drops : ConnectionState → Connection → Type 0
Drops s d = (d.state ≡ s) ⊎ (IsUp s × (d.state ≡ disconnected))

pub IsUp-or_IsDown : (s : ConnectionState) → IsUp s ⊎ IsDown s
IsUp-or_IsDown disconnected = inr tt
IsUp-or_IsDown reconnecting = inr tt
IsUp-or_IsDown closed = inr tt
IsUp-or_IsDown connecting = inl tt
IsUp-or_IsDown connected = inl tt
IsUp-or_IsDown authenticating = inl tt
IsUp-or_IsDown authenticated = inl tt

pub IsDown-already_down : (s : ConnectionState) → IsDown s → Lifecycle.already_down s ≡ true
IsDown-already_down disconnected h = refl
IsDown-already_down reconnecting h = refl
IsDown-already_down closed h = refl
IsDown-already_down connecting h = elim h [ ]
IsDown-already_down connected h = elim h [ ]
IsDown-already_down authenticating h = elim h [ ]
IsDown-already_down authenticated h = elim h [ ]

pub IsUp-already_down : (s : ConnectionState) → IsUp s → Lifecycle.already_down s ≡ false
IsUp-already_down connecting h = refl
IsUp-already_down connected h = refl
IsUp-already_down authenticating h = refl
IsUp-already_down authenticated h = refl
IsUp-already_down disconnected h = elim h [ ]
IsUp-already_down reconnecting h = elim h [ ]
IsUp-already_down closed h = elim h [ ]

pub lost-state :
    (c : Connection)
    → c.is_closed ≡ false
    → IsUp c.state
    → (Lifecycle.connection_lost c).state ≡ disconnected
unfolding Lifecycle.connection_lost set_state
lost-state c h u = ground (arith, IsUp-already_down c.state u)

lost_or_not :
    (c : Connection)
    → ((Lifecycle.connection_lost c).state ≡ c.state)
      ⊎ ((Lifecycle.connection_lost c).state ≡ disconnected)
unfolding Lifecycle.connection_lost set_state
lost_or_not c = ground arith

pub down-state : (c : Connection) → IsDown c.state → (Lifecycle.connection_lost c).state ≡ c.state
unfolding Lifecycle.connection_lost set_state
down-state c d = ground (arith, IsDown-already_down c.state d)

connection_lost-Drops :
    (s : ConnectionState) (d : Connection) → Drops s d → Drops s (Lifecycle.connection_lost d)
connection_lost-Drops s d (inl e) = elim (IsUp-or_IsDown s) [
  | inl u ↦ elim (lost_or_not d) [ inl k ↦ inl (k ∙ e) | inr k ↦ inr (u, k) ]
  | inr n ↦ inl (down-state d (subst IsDown (sym e) n) ∙ e)
]
connection_lost-Drops s d (inr (u, e)) = inr (u, down-state d (subst IsDown (sym e) tt) ∙ e)

end_receive-state : (t : ℕ) (c : Connection) → (Lifecycle.end_receive t c).state ≡ c.state
unfolding Lifecycle.end_receive
end_receive-state t c = ground arith

pub kept-Drops : (s : ConnectionState) → IsKept (Drops s)
kept-Drops s = record {
  ends =
      λ t d h. subst (λ x. (x ≡ s) ⊎ (IsUp s × (x ≡ disconnected))) (sym (end_receive-state t d)) h;
  loses = connection_lost-Drops s;
  rejects = λ k d h. h;
  dispatches = λ bs d e h.
      subst (λ x. (x ≡ s) ⊎ (IsUp s × (x ≡ disconnected)))
        (sym ((dispatch_transport_frame-Keeps bs).at d).same_state) h;
}

-- Closed, and in the state `s`.
pub record IsOver (s : ConnectionState) (c : Connection) : Type 0 where
  pub shut : c.is_closed ≡ true
  pub final : c.state ≡ s

end_receive-IsOver :
    (s : ConnectionState) (t : ℕ) (c : Connection)
    → IsOver s c
    → IsOver s (Lifecycle.end_receive t c)
unfolding Lifecycle.end_receive
end_receive-IsOver s t c h = ground arith

pub connection_lost-IsOver :
    (s : ConnectionState) (c : Connection) → IsOver s c → IsOver s (Lifecycle.connection_lost c)
unfolding Lifecycle.connection_lost set_state
connection_lost-IsOver s c h = ground arith

pub kept-IsOver : (s : ConnectionState) → IsKept (IsOver s)
kept-IsOver s = record {
  ends = end_receive-IsOver s;
  loses = connection_lost-IsOver s;
  rejects = λ k c h. record { shut = h.shut; final = h.final };
  dispatches = λ bs c e h.
      let k = (dispatch_transport_frame-Keeps bs).at c in
      record { shut = k.same_closed ∙ h.shut; final = k.same_state ∙ h.final };
}
