-- ===== src/Runtime/Gate/Capacity.antt =====
-- The gate's counter, its queue and the slots that are really held, after any events.
use fitz_py.Prelude.{
  ℕ, zero, suc, ◌+◌, ◌-◌, ◌≤◌, ◌≡◌, ◌⊎◌, refl, Bool, true, false, ◌++◌, [], ◌∷◌, List,
  if◌then◌else◌, Option, none, some, length, length-append, get_elem?, set, arith, bit, not,
}
use fitz_py.Runtime.Gate.{
  Outcome, FutureState, pending, granted, revoked, failed, dropped, Waiter, World, new_world,
  release_loop, release_slot, acquire, find, remove, resume_popped, resume_out, resume_queued,
  resume_at, resume, cancel_future, cancel_in, cancel, release_flag, release, fail_all, close,
  Event, acquires, closes, resumes, cancels, releases, step, run,
}

-- The tokens that have not been released.
abbrev pub held : List Bool → ℕ
held [] = 0
held (b ∷ bs) = bit (not b) + held bs

abbrev pub owns : FutureState → ℕ
owns granted = 1
owns revoked = 1
owns _ = 0

-- The futures whose task owns a slot and has not run yet.
abbrev pub owners : List Waiter → ℕ
owners [] = 0
owners (f ∷ fs) = owns f.state + owners fs

-- The counter is at most the maximum and the queue at most its size; nobody queues while the counter
-- shows a free slot; the counter never shows a slot that nobody has, and it misses at most as many
-- slots as futures have left the deque without one.
pub record Sound (w : World) : Type 0 where
  pub bounded : w.active ≤ w.maximum
  pub clean : owners w.waiters ≡ 0
  pub queued : length w.waiters ≤ w.queue_size
  pub busy : (w.waiters ≡ []) ⊎ (w.active ≡ w.maximum)
  pub counted : w.active ≤ held w.tokens + owners w.popped
  pub covered : held w.tokens + length w.popped ≤ w.active + w.strays

-- What `_release_slot` does to the parts of the world.
pub record Released (w v : World) : Type 0 where
  pub same_maximum : v.maximum ≡ w.maximum
  pub same_size : v.queue_size ≡ w.queue_size
  pub same_tokens : v.tokens ≡ w.tokens
  pub same_closed : v.closed ≡ w.closed
  pub moved :
      ((v.active ≡ w.active)
        × (owners v.popped ≡ suc (owners w.popped))
        × (length v.popped + w.strays ≡ suc (length w.popped + v.strays)))
      ⊎ ((v.active ≡ w.active - 1)
          × (v.waiters ≡ [])
          × (owners v.popped ≡ owners w.popped)
          × (length v.popped + w.strays ≡ length w.popped + v.strays))

abbrev Shrinks : List Waiter → World → Type 0
Shrinks ws v = (length v.waiters ≤ length ws) × (owners v.waiters ≡ 0)

release_loop-Released :
    (ws : List Waiter) (w : World)
    → owners ws ≡ 0
    → Released w (release_loop ws w) × Shrinks ws (release_loop ws w)
unfolding release_loop
release_loop-Released [] w h = ground arith
release_loop-Released (f ∷ ws) w h = ground (
  arith,
  release_loop-Released ws (record w { popped = f ∷ w.popped; strays = w.strays + 1 })
      (omega arith),
)

-- A world in which somebody has just let a slot go: the counter is one above what is held.
pub record Letting (w : World) : Type 0 where
  pub bounded : w.active ≤ w.maximum
  pub clean : owners w.waiters ≡ 0
  pub queued : length w.waiters ≤ w.queue_size
  pub busy : (w.waiters ≡ []) ⊎ (w.active ≡ w.maximum)
  pub counted : w.active ≤ suc (held w.tokens + owners w.popped)
  pub covered : suc (held w.tokens + length w.popped) ≤ w.active + w.strays

nil_of_length : (fs : List Waiter) → length fs ≤ 0 → fs ≡ []
nil_of_length [] h = refl
nil_of_length (f ∷ fs) h = absurd (omega arith)

release_slot-Sound : (w : World) → Letting w → Sound (release_slot w)
unfolding release_slot
release_slot-Sound w h = ground (
  arith,
  release_loop-Released w.waiters w h.clean,
  nil_of_length (release_loop w.waiters w).waiters,
)

pub held-append : (bs : List Bool) → held (bs ++ (false ∷ [])) ≡ suc (held bs)
held-append [] = refl
held-append (b ∷ bs) = omega (arith, held-append bs)

pub held-set :
    (t : ℕ) (bs : List Bool) → get_elem? bs t ≡ some false → suc (held (set bs t true)) ≡ held bs
held-set t [] e = cc
held-set zero (b ∷ bs) e = ground arith
held-set (suc t) (b ∷ bs) e = omega (arith, held-set t bs e)

owners-append : (fs gs : List Waiter) → owners (fs ++ gs) ≡ owners fs + owners gs
owners-append [] gs = omega arith
owners-append (f ∷ fs) gs = omega (arith, owners-append fs gs)

-- Taking out a future that is there.
remove_lem :
    (i : ℕ) (fs : List Waiter) (s : FutureState)
    → find i fs ≡ some s
    → (suc (length (remove i fs)) ≡ length fs) × (owns s + owners (remove i fs) ≡ owners fs)
unfolding find remove
remove_lem i [] s e = cc
remove_lem i (f ∷ fs) s e = ground (arith, remove_lem i fs s)

owns-cancel_future : (s : FutureState) → owns (cancel_future s) ≡ owns s
unfolding cancel_future
owns-cancel_future pending = refl
owns-cancel_future granted = refl
owns-cancel_future revoked = refl
owns-cancel_future failed = refl
owns-cancel_future dropped = refl

cancel_in_lem :
    (i : ℕ) (fs : List Waiter)
    → (length (cancel_in i fs) ≡ length fs) × (owners (cancel_in i fs) ≡ owners fs)
unfolding cancel_in
cancel_in_lem i [] = omega arith
cancel_in_lem i (f ∷ fs) = ground (arith, cancel_in_lem i fs, owns-cancel_future f.state)

acquire-Sound : (w : World) → Sound w → Sound (acquire w).1
unfolding acquire
acquire-Sound w h =
    ground
      (arith, held-append w.tokens, owners-append w.waiters fresh, length-append w.waiters fresh)
  where
    fresh : List Waiter
    fresh = record { id = w.next_id; state = pending } ∷ []

cancel-Sound : (i : ℕ) (w : World) → Sound w → Sound (cancel i w)
unfolding cancel
cancel-Sound i w h = ground (arith, cancel_in_lem i w.waiters, cancel_in_lem i w.popped)

release_flag-Sound :
    (t : ℕ) (o : Option Bool) (w : World)
    → get_elem? w.tokens t ≡ o
    → Sound w
    → Sound (release_flag t o w)
unfolding release_flag
release_flag-Sound t (some false) w e h =
    release_slot-Sound (record w { tokens = set w.tokens t true })
      (ground (arith, held-set t w.tokens e))
release_flag-Sound t (some true) w e h = h
release_flag-Sound t none w e h = h

both-Sound :
    (b : Bool) (p q : Outcome × World) → Sound p.1 → Sound q.1 → Sound (if b then p else q).1
both-Sound true p q hp hq = hp
both-Sound false p q hp hq = hq

resume_popped-Sound :
    (i : ℕ) (s : FutureState) (w : World)
    → find i w.popped ≡ some s
    → Sound w
    → Sound (resume_out i (some s) w).1
unfolding resume_out resume_popped
resume_popped-Sound i pending w e h = h
resume_popped-Sound i granted w e h =
    both-Sound w.closed _ _
      (release_slot-Sound (record w { popped = remove i w.popped })
        (ground (arith, remove_lem i w.popped granted e)))
      (ground (arith, remove_lem i w.popped granted e, held-append w.tokens))
resume_popped-Sound i revoked w e h =
    release_slot-Sound (record w { popped = remove i w.popped })
      (ground (arith, remove_lem i w.popped revoked e))
resume_popped-Sound i failed w e h =
    release_slot-Sound (record w { popped = remove i w.popped })
      (ground (arith, remove_lem i w.popped failed e))
resume_popped-Sound i dropped w e h =
    release_slot-Sound (record w { popped = remove i w.popped })
      (ground (arith, remove_lem i w.popped dropped e))

resume_out-Sound :
    (i : ℕ) (o : Option FutureState) (w : World)
    → find i w.popped ≡ o
    → Sound w
    → Sound (resume_out i o w).1
unfolding resume_out
resume_out-Sound i none w e h = h
resume_out-Sound i (some s) w e h = resume_popped-Sound i s w e h

resume_queued-Sound :
    (i : ℕ) (s : FutureState) (w : World)
    → find i w.waiters ≡ some s
    → Sound w
    → Sound (resume_queued i s w).1
unfolding resume_queued
resume_queued-Sound i dropped w e h =
    ground (arith, remove_lem i w.waiters dropped e, nil_of_length (remove i w.waiters))
resume_queued-Sound i _ w e h = h

resume_at-Sound :
    (i : ℕ) (o : Option FutureState) (w : World)
    → find i w.waiters ≡ o
    → Sound w
    → Sound (resume_at i o w).1
unfolding resume_at
resume_at-Sound i none w e h = resume_out-Sound i (find i w.popped) w refl h
resume_at-Sound i (some s) w e h = resume_queued-Sound i s w e h

fail_all_lem :
    (fs popped : List Waiter)
    → owners fs ≡ 0
    → (length (fail_all fs popped) ≡ length fs + length popped)
      × (owners (fail_all fs popped) ≡ owners popped)
unfolding fail_all
fail_all_lem [] popped h = omega arith
fail_all_lem (f ∷ fs) popped h = ground (arith, fail_all_lem fs popped)

close-Sound : (w : World) → Sound w → Sound (close w)
unfolding close
close-Sound w h = ground (arith, fail_all_lem w.waiters w.popped)

pub step-Sound : (e : Event) (w : World) → Sound w → Sound (step e w)
unfolding step resume release
step-Sound acquires w h = acquire-Sound w h
step-Sound closes w h = close-Sound w h
step-Sound (resumes i) w h = resume_at-Sound i (find i w.waiters) w refl h
step-Sound (cancels i) w h = cancel-Sound i w h
step-Sound (releases t) w h = release_flag-Sound t (get_elem? w.tokens t) w refl h

run-Sound : (es : List Event) (w : World) → Sound w → Sound (run es w)
unfolding run
run-Sound [] w h = h
run-Sound (e ∷ es) w h = run-Sound es (step e w) (step-Sound e w h)

-- From a new gate, whatever its callers do and in whatever order: the counter is at most the
-- maximum and the queue at most its size; nobody queues while the counter shows a free slot; the
-- counter is at most the slots held or handed over, and falls short of the slots held by at most the
-- number of futures that left the deque without a slot.
pub gate-Sound :
    (maximum queue_size : ℕ) (es : List Event) → Sound (run es (new_world maximum queue_size))
unfolding new_world
gate-Sound maximum queue_size es = run-Sound es _ (ground arith)
