-- ===== src/Domains/Lease/Acquire/Moves.antt =====
-- A call of `acquire` that ends, goes on with the lock, or ends without it.
use fitz_py.Prelude.{
  ℕ, ◌≡◌, ◌≢◌, refl, sym, ap, ◌∙◌, subst, true, inl, inr, [], List, bit, some, arith, set,
  get_elem?,
}
use fitz_py.Errors.{Result}
use fitz_py.Domains.Lease.Acquire.{waiting, ended, Call, Acquires, remove, finish}
use fitz_py.Domains.Lease.Acquire.Turns.{
  holds, holders, is_fresh, Line, Free, Taken, IsTurn, holders-set, holders_at, holders_unique,
  get-set, get-set_other, all-set, remove-only,
}

-- A call that holds is the one that has the lock.
pub own :
    (s : Acquires) (i : ℕ) (c : Call)
    → IsTurn s
    → get_elem? s.calls i ≡ some c
    → holds c.phase ≡ true
    → Taken s i c
own s i c h g k = elim h.turn [
  | inl f ↦ absurd (omega (arith, holders_at s.calls i c g k, f.nobody))
  | inr (j, (d, t)) ↦
      let e : j ≡ i = holders_unique s.calls j i d c (omega (arith, t.one)) t.at t.holding g k in
      let x : get_elem? s.calls i ≡ some d = rw (← e) t.at in
      let y : d ≡ c = cc in subst (λ (z : Call). Taken s i z) y (subst (λ (n : ℕ). Taken s n d) e t)
]

remove-Line : (q : List ℕ) (i : ℕ) (c : Call) → Line q i c → remove i q ≡ []
remove-Line q i c (inl (e, l)) = rw e (remove-only i)
remove-Line q i c (inr (e, l)) = rw e refl

-- The call ends, and the lock is free.
finish-Free : (s : Acquires) (i : ℕ) (c : Call) (r : Result ℕ) → Taken s i c → Free (finish i c r s)
finish-Free s i c r t = record {
  unlocked = refl;
  nobody =
      let b : bit (holds c.phase) ≡ 1 = rw t.holding refl in
      omega (arith, holders-set s.calls i c (record c { phase = ended r }) t.at, t.one, b);
  no_queue = remove-Line s.queued i c t.line;
}

pub finish-IsTurn :
    (s : Acquires) (i : ℕ) (c : Call) (r : Result ℕ)
    → IsTurn s
    → Taken s i c
    → IsTurn (finish i c r s)
finish-IsTurn s i c r h t = record {
  fresh = all-set is_fresh s.calls i (record c { phase = ended r }) h.fresh refl;
  turn = inl (finish-Free s i c r t);
}

-- The call goes on and keeps the lock.
pub moved-IsTurn :
    (s : Acquires) (i : ℕ) (c d : Call) (q : List ℕ)
    → IsTurn s
    → Taken s i c
    → holds d.phase ≡ true
    → is_fresh d ≡ true
    → Line q i d
    → IsTurn (record s { queued = q; calls = set s.calls i d })
moved-IsTurn s i c d q h t k f l = record {
  fresh = all-set is_fresh s.calls i d h.fresh f;
  turn = inr (
    i,
    (
      d,
      record {
        locked = t.locked;
        one =
            let b : bit (holds c.phase) ≡ bit (holds d.phase) = rw (t.holding, k) refl in
            omega (arith, holders-set s.calls i c d t.at, t.one, b);
        at = get-set s.calls i c d t.at;
        holding = k;
        line = l;
      },
    ),
  );
}

apart :
    (cs : List Call) (i j : ℕ) (c d : Call)
    → get_elem? cs i ≡ some c
    → 0 ≡ bit (holds c.phase)
    → get_elem? cs j ≡ some d
    → holds d.phase ≡ true
    → i ≢ j
apart cs i j c d g b k l = λ e.
    let x : get_elem? cs j ≡ some c = rw (← e) g in
    let y : c ≡ d = cc in
    let z : holds c.phase ≡ true = rw y l in absurd (omega (arith, b, ap bit z))

-- A call that does not hold changes to another phase in which it does not.
pub aside-IsTurn :
    (s : Acquires) (i : ℕ) (c : Call) (r : Result ℕ)
    → IsTurn s
    → get_elem? s.calls i ≡ some c
    → waiting ≡ c.phase
    → IsTurn (record s { calls = set s.calls i (record c { phase = ended r }) })
aside-IsTurn s i c r h g p =
    let b : bit (holds c.phase) ≡ 0 = rw (← p) refl in
    let same : holders (set s.calls i (record c { phase = ended r })) ≡ holders s.calls =
      omega (arith, holders-set s.calls i c (record c { phase = ended r }) g, b) in
    record {
      fresh = all-set is_fresh s.calls i (record c { phase = ended r }) h.fresh refl;
      turn = elim h.turn [
        | inl f ↦
            inl (record { unlocked = f.unlocked; nobody = same ∙ f.nobody; no_queue = f.no_queue })
        | inr (j, (d, t)) ↦ inr (
          j,
          (
            d,
            record {
              locked = t.locked;
              one = same ∙ t.one;
              at =
                  get-set_other s.calls i j _ (apart s.calls i j c d g (sym b) t.at t.holding)
                  ∙ t.at;
              holding = t.holding;
              line = t.line;
            },
          ),
        )
      ];
    }
