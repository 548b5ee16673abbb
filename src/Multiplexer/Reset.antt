-- ===== src/Multiplexer/Reset.antt =====
-- Issuing a request: its id is free, and every registered id stays with its request.
use fitz_py.Prelude.{
  ℕ, zero, suc, ◌+◌, ◌≤◌, ◌<◌, ◌≡◌, refl, true, false, ◌++◌, [], ◌∷◌, List, ◌==◌, none, some,
  length, get_elem?, get_elem?-append_mid, arith, ltb_ge, le→leb, Option-cases, Bool-cases, inl,
  inr,
}
use fitz_py.Prelude.Bytes.{Bytes}
use fitz_py.Prelude.Dict.{get, put, nat_key, get-put}
use fitz_py.Errors.{ok}
use fitz_py.Multiplexer.{
  waiting, PendingRequest, Multiplexer, max_u64, next_correlation_id, issue_request, patch_frame,
}

-- Every registered id was given out on this connection, to the request that stands under it.
pub record Registered (m : Multiplexer) : Type 0 where
  pub at :
      (id i : ℕ)
      → get id m.correlated ≡ some i
      → (id < m.next_id)
        × (p : PendingRequest) × (get_elem? m.requests i ≡ some p)
        × (p.correlation_id ≡ id)

get_elem?-append_left :
    (i : ℕ) (ps qs : List PendingRequest) (p : PendingRequest)
    → get_elem? ps i ≡ some p
    → get_elem? (ps ++ qs) i ≡ some p
get_elem?-append_left i [] qs p e = cc
get_elem?-append_left zero (x ∷ ps) qs p e = e
get_elem?-append_left (suc i) (x ∷ ps) qs p e = get_elem?-append_left i ps qs p e

-- The request that is issued next, and the state with it.
abbrev pub fresh : Multiplexer → PendingRequest
fresh m = record { linked = true; future = waiting; sent = false; correlation_id = m.next_id }

abbrev pub issued : Multiplexer → Multiplexer
issued m = record m {
  next_id = m.next_id + 1;
  requests = m.requests ++ (fresh m ∷ []);
  correlated = put m.next_id (length m.requests) m.correlated;
}

pub issue_request-issued :
    (m : Multiplexer) (frame : Bytes) (flags : ℕ)
    → 2 ≤ m.protocol_version
    → m.next_id ≤ max_u64
    → issue_request frame flags m
      ≡ (ok (length m.requests, patch_frame frame flags m.next_id), issued m)
unfolding issue_request next_correlation_id
issue_request-issued m frame flags on room =
    rw (le→leb 2 m.protocol_version on, ltb_ge max_u64 m.next_id room)

pub next-free : (m : Multiplexer) → Registered m → get m.next_id m.correlated ≡ none
next-free m r = elim (Option-cases (get m.next_id m.correlated)) [
  | inl free ↦ free
  | inr (i, taken) ↦ absurd (omega (arith, (r.at m.next_id i taken).0))
]

pub issued-Registered : (m : Multiplexer) → Registered m → Registered (issued m)
issued-Registered m r = record {
  at = λ id i e. elim (Bool-cases (m.next_id == id)) [
    | inl same ↦
        let e' = rw (get-put m.next_id id (length m.requests) m.correlated, same) at e in
        let place : length m.requests ≡ i = cc in
        let key : m.next_id ≡ id = ground arith in
        (
          omega arith,
          fresh m,
          rw (← place) (get_elem?-append_mid (length m.requests) m.requests (fresh m) [] refl),
          key,
        )
    | inr other ↦
        let e' = rw (get-put m.next_id id (length m.requests) m.correlated, other) at e in
        let (below, p, at_p, key) = r.at id i e' in
        (omega arith, p, get_elem?-append_left i m.requests (fresh m ∷ []) p at_p, key)
  ];
}
