-- ===== src/Domains/Lease/Observer/Kept.antt =====
-- What holds of an observer and its history, and what the events from outside do to it.
use fitz_py.Prelude.{
  ℕ, suc, ◌≤◌, ◌<◌, ◌≡◌, ◌⊎◌, refl, sym, subst, Bool, true, false, not, ◌&&◌, [], ◌∷◌, List, ltb,
  ltb→lt, if◌then◌else◌, length, length-append, arith, Bool-cases, inl, inr,
}
use fitz_py.Text.{Str}
use fitz_py.Domains.Lease.Observer.{
  Loop, idle, woken, raced_pause, failed_pause, stopped, listing, Change, Observer, enqueue_change,
  note_notification, consume, replace_subscription,
}
use fitz_py.Domains.Lease.Observer.History.{History, disturbed}

-- The generations of a LIST under way are not ahead of those of the observer; and if something has
-- disturbed it, one of them is behind or the subscription is down, so that it counts as raced.
abbrev pub IsTracked : Loop → History → Observer → Type 0
IsTracked (listing s n) h o =
    (s ≤ o.subscription_generation)
    × (n ≤ o.notification_generation)
    × ((h.list_clean ≡ true)
        ⊎ ((s < o.subscription_generation)
            ⊎ ((n < o.notification_generation) ⊎ (o.subscription_ready ≡ false))))
IsTracked l h o = Unit {0}

-- An observer that is ready and in its steady mode has a live subscription, and its view is what the
-- LIST gave that ended last; and nothing has disturbed the view since that LIST began. The queue of
-- changes is within its bound.
pub record IsCurrent (h : History) (o : Observer) : Type 0 where
  pub live : (o.ready && o.steady) && not o.subscription_ready ≡ false
  pub fresh : (o.ready && o.steady) && not h.clean ≡ false
  pub latest : (o.ready && o.steady ≡ false) ⊎ (o.view ≡ h.latest)
  pub has_room : 1 ≤ o.changes_maxsize
  pub bounded : length o.changes ≤ o.changes_maxsize

-- From the beginning of a bootstrap until a LIST of it is not raced the mode is not steady.
abbrev pub IsPassive : Loop → Observer → Type 0
IsPassive (listing s n) o = o.steady ≡ false
IsPassive raced_pause o = o.steady ≡ false
IsPassive l o = Unit {0}

-- With the LIST under way.
pub record IsKept (h : History) (o : Observer) : Type 0 where
  pub current : IsCurrent h o
  pub tracked : IsTracked o.loop h o
  pub passive : IsPassive o.loop o

pub still-IsPassive :
    (l : Loop) (o p : Observer)
    → IsPassive l o
    → (o.steady ≡ false → p.steady ≡ false)
    → IsPassive l p
still-IsPassive (listing s n) o p t k = k t
still-IsPassive raced_pause o p t k = k t
still-IsPassive idle o p t k = tt
still-IsPassive woken o p t k = tt
still-IsPassive failed_pause o p t k = tt
still-IsPassive stopped o p t k = tt

pub length-enqueue_change :
    (size : ℕ) (change : Change) (cs : List Change)
    → 1 ≤ size
    → length (enqueue_change size change cs) ≤ size
unfolding enqueue_change
length-enqueue_change size change [] h = omega arith
length-enqueue_change size change (c ∷ cs) h = elim (Bool-cases (ltb (length (c ∷ cs)) size)) [
  | inl e ↦ rw e (omega (arith, ltb→lt _ _ e, length-append (c ∷ cs) (change ∷ [])))
  | inr e ↦ rw e (length-enqueue_change size change cs h)
]

-- Whatever clears readiness, or leaves the steady mode, keeps the rest.
pub unready-IsCurrent :
    (h k : History) (o p : Observer)
    → IsCurrent h o
    → (p.ready && p.steady) ≡ false
    → p.changes ≡ o.changes
    → p.changes_maxsize ≡ o.changes_maxsize
    → IsCurrent k p
unready-IsCurrent h k o p i r c m = record {
  live = rw r refl;
  fresh = rw r refl;
  latest = inl r;
  has_room = rw m i.has_room;
  bounded = rw (c, m) i.bounded;
}

-- A LIST under way that is disturbed by a newer generation, or by a subscription that is down.
disturbed-IsTracked :
    (l : Loop) (h k : History) (o p : Observer)
    → IsTracked l h o
    → o.subscription_generation ≤ p.subscription_generation
    → o.notification_generation ≤ p.notification_generation
    → (o.subscription_generation < p.subscription_generation)
      ⊎ ((o.notification_generation < p.notification_generation) ⊎ (p.subscription_ready ≡ false))
    → IsTracked l k p
disturbed-IsTracked (listing s n) h k o p (a, b, c) x y d =
    (omega (arith, a, x), omega (arith, b, y), inr (later d))
  where
    later :
        (o.subscription_generation < p.subscription_generation)
          ⊎ ((o.notification_generation < p.notification_generation)
              ⊎ (p.subscription_ready ≡ false))
        → (s < p.subscription_generation)
          ⊎ ((n < p.notification_generation) ⊎ (p.subscription_ready ≡ false))
    later (inl q) = inl (omega (arith, a, q))
    later (inr (inl q)) = inr (inl (omega (arith, b, q)))
    later (inr (inr q)) = inr (inr q)
disturbed-IsTracked idle h k o p t x y d = tt
disturbed-IsTracked woken h k o p t x y d = tt
disturbed-IsTracked raced_pause h k o p t x y d = tt
disturbed-IsTracked failed_pause h k o p t x y d = tt
disturbed-IsTracked stopped h k o p t x y d = tt

pub never_both : (b : Bool) → (b && false) ≡ false
never_both true = refl
never_both false = refl

-- Only the generations, the readiness of the subscription and the cleanness of the LIST matter.
pub same-IsTracked :
    (l : Loop) (h k : History) (o p : Observer)
    → IsTracked l h o
    → k.list_clean ≡ h.list_clean
    → p.subscription_generation ≡ o.subscription_generation
    → p.notification_generation ≡ o.notification_generation
    → p.subscription_ready ≡ o.subscription_ready
    → IsTracked l k p
same-IsTracked (listing s n) h k o p t a b c d = rw (a, b, c, d) t
same-IsTracked idle h k o p t a b c d = tt
same-IsTracked woken h k o p t a b c d = tt
same-IsTracked raced_pause h k o p t a b c d = tt
same-IsTracked failed_pause h k o p t a b c d = tt
same-IsTracked stopped h k o p t a b c d = tt

-- An event that disturbs the view, and clears readiness or meets an unsteady mode.
pub disturbed-IsKept :
    (h : History) (o p : Observer)
    → IsKept h o
    → p.loop ≡ o.loop
    → (p.ready && p.steady) ≡ false
    → (o.steady ≡ false → p.steady ≡ false)
    → p.changes ≡ o.changes
    → p.changes_maxsize ≡ o.changes_maxsize
    → o.subscription_generation ≤ p.subscription_generation
    → o.notification_generation ≤ p.notification_generation
    → (o.subscription_generation < p.subscription_generation)
      ⊎ ((o.notification_generation < p.notification_generation) ⊎ (p.subscription_ready ≡ false))
    → IsKept (disturbed h) p
disturbed-IsKept h o p i l r q c m x y d = record {
  current = unready-IsCurrent h (disturbed h) o p i.current r c m;
  tracked =
      subst (λ a. IsTracked a (disturbed h) p) (sym l)
        (disturbed-IsTracked o.loop h (disturbed h) o p i.tracked x y d);
  passive = subst (λ a. IsPassive a p) (sym l) (still-IsPassive o.loop o p i.passive q);
}

-- An event that clears readiness, and disturbs nothing.
pub unready-IsKept :
    (h : History) (o : Observer) (b : Bool)
    → IsKept h o
    → IsKept h (record o { ready = false; invalidate = b })
unready-IsKept h o b i = record {
  current = unready-IsCurrent h h o _ i.current refl refl refl;
  tracked = same-IsTracked o.loop h h o _ i.tracked refl refl refl refl;
  passive = still-IsPassive o.loop o _ i.passive (λ k. k);
}

-- A change of the buffer, the flag, the loop or the queue alone.
pub IsCurrent-same :
    (h k : History) (o p : Observer)
    → IsCurrent h o
    → (p.ready ≡ o.ready)
      × (p.steady ≡ o.steady)
      × (p.subscription_ready ≡ o.subscription_ready)
      × (p.view ≡ o.view)
      × (k.clean ≡ h.clean)
      × (k.latest ≡ h.latest)
    → p.changes_maxsize ≡ o.changes_maxsize
    → length p.changes ≤ p.changes_maxsize
    → IsCurrent k p
IsCurrent-same h k o p i (r, s, u, v, c, l) m b = record {
  live = rw (r, s, u) i.live;
  fresh = rw (r, s, c) i.fresh;
  latest = rw (r, s, v, l) i.latest;
  has_room = rw m i.has_room;
  bounded = b;
}

pub notified-IsKept :
    (h : History) (o : Observer) → IsKept h o → IsKept (disturbed h) (note_notification o)
unfolding note_notification
notified-IsKept h o i = elim (Bool-cases o.steady) [
  | inl e ↦ rw e (
      disturbed-IsKept h o
        (record o {
          steady = true;
          notification_generation = suc o.notification_generation;
          ready = false;
          invalidate = true;
        })
        i refl refl (λ k. absurd (cc)) refl refl (omega arith) (omega arith)
        (inr (inl (omega arith))))
  | inr e ↦ rw e (
      disturbed-IsKept h o
        (record o { steady = false; notification_generation = suc o.notification_generation }) i
        refl (never_both o.ready) (λ k. refl) refl refl (omega arith) (omega arith)
        (inr (inl (omega arith))))
]

pub if-IsKept :
    (h : History) (b : Bool) (x y : Observer)
    → (b ≡ true → IsKept h x)
    → (b ≡ false → IsKept h y)
    → IsKept h (if b then x else y)
if-IsKept h true x y hx hy = hx refl
if-IsKept h false x y hx hy = hy refl

pub consumed-IsKept :
    (route : Str) (h : History) (o : Observer) → IsKept h o → IsKept h (consume route o)
unfolding consume
consumed-IsKept route h o i =
    if-IsKept h o.steady _ _ (λ e. unready-IsKept h o true i)
      (λ e. record {
        current =
            IsCurrent-same h h o _ i.current (refl, refl, refl, refl, refl, refl) refl
              i.current.bounded;
        tracked = same-IsTracked o.loop h h o _ i.tracked refl refl refl refl;
        passive = still-IsPassive o.loop o _ i.passive (λ k. k);
      })

not_live : (b c : Bool) → c ≡ false → b && not c ≡ false → b ≡ false
not_live true true e k = cc
not_live true false e k = k
not_live false c e k = refl

pub replaced-IsKept :
    (h : History) (o : Observer)
    → IsKept h o
    → IsKept (if o.subscription_ready then h else disturbed h) (replace_subscription o)
unfolding replace_subscription
replaced-IsKept h o i = by_flag o.subscription_ready refl
  where
    replaced : Observer
    replaced = record o {
      subscription_generation = suc o.subscription_generation;
      subscription_ready = true;
      invalidate = true;
    }

    by_flag :
        (b : Bool)
        → o.subscription_ready ≡ b
        → IsKept (if b then h else disturbed h) (if b then o else replaced)
    by_flag true e = i
    by_flag false e =
        disturbed-IsKept h o replaced i refl
          (not_live (o.ready && o.steady) o.subscription_ready e i.current.live) (λ k. k) refl refl
          (omega arith) (omega arith) (inl (omega arith))
