-- ===== src/Runtime/Gate/Overcommit.antt =====
-- What a cancelled caller does to the gate: who is served after it, and a slot that is given twice.
use fitz_py.Prelude.{
  ℕ, ◌+◌, ◌-◌, ◌≤◌, ◌<◌, ◌≡◌, true, false, ◌++◌, [], ◌∷◌, List, some, get_elem?, set, arith, All,
  subst, sym,
}
use fitz_py.Errors.{connection_error}
use fitz_py.Runtime.Gate.{
  pending, granted, dropped, Waiter, World, raised, release_loop, release_slot, acquire, find,
  remove, resume, release, Event, acquires, closes, resumes, cancels, releases, step, run, close,
}
use fitz_py.Runtime.Gate.Capacity.{held, held-append, held-set}

abbrev IsDropped : Waiter → Type 0
IsDropped f = f.state ≡ dropped

release_loop-first :
    (gone : List Waiter) (i : ℕ) (rest : List Waiter) (w : World)
    → All IsDropped gone
    → ((release_loop (gone ++ (record { id = i; state = pending } ∷ rest)) w).waiters ≡ rest)
      × (find i (release_loop (gone ++ (record { id = i; state = pending } ∷ rest)) w).popped
          ≡ some granted)
      × ((release_loop (gone ++ (record { id = i; state = pending } ∷ rest)) w).active ≡ w.active)
unfolding release_loop find
release_loop-first [] i rest w h = ground arith
release_loop-first (f ∷ gone) i rest w h = ground (
  arith,
  release_loop-first gone i rest (record w { popped = f ∷ w.popped; strays = w.strays + 1 }) h.1,
)

-- Callers are served in the order of their arrival: a slot that is let go passes over callers that
-- were cancelled, and goes to the first that still waits. The callers behind it stay queued, and
-- the counter stays.
pub release_slot-first :
    (gone : List Waiter) (i : ℕ) (rest : List Waiter) (w : World)
    → All IsDropped gone
    → w.waiters ≡ gone ++ (record { id = i; state = pending } ∷ rest)
    → ((release_slot w).waiters ≡ rest)
      × (find i (release_slot w).popped ≡ some granted)
      × ((release_slot w).active ≡ w.active)
unfolding release_slot
release_slot-first gone i rest w h e =
    subst
      (λ ws.
        ((release_loop ws w).waiters ≡ rest)
        × (find i (release_loop ws w).popped ≡ some granted)
        × ((release_loop ws w).active ≡ w.active))
      (sym e) (release_loop-first gone i rest w h)

-- A gate with room and nobody queued.
abbrev HasRoom : World → ℕ → ℕ → ℕ → Type 0
HasRoom w maximum active n =
    (w.closed ≡ false)
    × (w.waiters ≡ [])
    × (w.maximum ≡ maximum)
    × (w.active ≡ active)
    × (held w.tokens ≡ n)

admit :
    (w : World) (maximum active n : ℕ)
    → HasRoom w maximum active n
    → active < maximum
    → HasRoom (acquire w).1 maximum (active + 1) (n + 1)
unfolding acquire
admit w maximum active n h room = ground (arith, held-append w.tokens)

-- Releasing a token while the one queued caller is cancelled.
stray_release :
    (w : World) (t i : ℕ)
    → w.closed ≡ false
    → w.waiters ≡ record { id = i; state = dropped } ∷ []
    → get_elem? w.tokens t ≡ some false
    → HasRoom (release t w) w.maximum (w.active - 1) (held w.tokens - 1)
      × (find i (release t w).popped ≡ some dropped)
unfolding release release_loop find
stray_release w t i o queue mine = rw mine (ground (arith, held-set t w.tokens mine))

stray_resume :
    (w : World) (i maximum active n : ℕ)
    → HasRoom w maximum active n
    → find i w.popped ≡ some dropped
    → HasRoom (resume i w).1 maximum (active - 1) n
unfolding resume release_loop find
stray_resume w i maximum active n h stray = ground arith

-- An open gate of at least two slots, all of them held, whose one queued caller has been cancelled but
-- has not run yet: releasing one slot lets two callers in, so that more slots are held than the gate
-- has.
pub overcommit :
    (w : World) (t i : ℕ)
    → w.closed ≡ false
    → 2 ≤ w.maximum
    → w.active ≡ w.maximum
    → held w.tokens ≡ w.maximum
    → w.waiters ≡ record { id = i; state = dropped } ∷ []
    → get_elem? w.tokens t ≡ some false
    → w.maximum < held (run (releases t ∷ resumes i ∷ acquires ∷ acquires ∷ []) w).tokens
unfolding run
overcommit w t i o two full all queue mine =
    let (room, stray) = stray_release w t i o queue mine in
    let resumed = stray_resume (release t w) i _ _ _ room stray in
    let first = admit (resume i (release t w)).1 _ _ _ resumed (omega arith) in
    let second = admit (acquire (resume i (release t w)).1).1 _ _ _ first (omega arith) in
    omega arith

release_loop-same :
    (ws : List Waiter) (w : World)
    → ((release_loop ws w).closed ≡ w.closed) × ((release_loop ws w).tokens ≡ w.tokens)
unfolding release_loop
release_loop-same [] w = ground arith
release_loop-same (f ∷ ws) w =
    ground (arith, release_loop-same ws (record w { popped = f ∷ w.popped; strays = w.strays + 1 }))

-- A closed gate stays closed: every call of `acquire` raises, and no event gives a slot to anybody.
pub closed_stays :
    (e : Event) (w : World)
    → w.closed ≡ true
    → (acquire w ≡ (raised connection_error, w))
      × ((step e w).closed ≡ true)
      × (held (step e w).tokens ≤ held w.tokens)
unfolding step release resume acquire close
closed_stays acquires w h = ground arith
closed_stays closes w h = ground arith
closed_stays (cancels i) w h = ground arith
closed_stays (releases t) w h = ground (
  arith,
  held-set t w.tokens,
  release_loop-same w.waiters (record w { tokens = set w.tokens t true }),
)
closed_stays (resumes i) w h =
    ground (arith, release_loop-same w.waiters (record w { popped = remove i w.popped }))
