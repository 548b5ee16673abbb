-- ===== src/Domains/Lease/Observer/Passes.antt =====
-- What the loop of an observer does to what holds of it: waking, the beginning and the end of a LIST,
-- and the pauses.
use fitz_py.Prelude.{
  ℕ, ◌≡◌, refl, Bool, true, false, ◌&&◌, [], List, if◌then◌else◌, arith, inl, inr,
}
use fitz_py.Text.{Str}
use fitz_py.Errors.{Result, ok, err}
use fitz_py.Domains.Lease.{LeaseListItem}
use fitz_py.Domains.Lease.Client.{Yielded}
use fitz_py.Domains.Lease.Observer.{
  Loop, idle, woken, raced_pause, failed_pause, stopped, listing, whole_view, Observer, wake, begin,
  is_raced, installed, end_list, end_pause, view_of,
}
use fitz_py.Domains.Lease.Observer.History.{History, with_list, can_list, is_listing}
use fitz_py.Domains.Lease.Observer.Kept.{
  IsTracked, IsPassive, IsKept, IsCurrent-same, if-IsKept, unready-IsCurrent, length-enqueue_change,
  never_both,
}

-- The loop moves on, with no LIST under way and no pass that was raced.
pub loop-IsKept :
    (h : History) (o : Observer) (b : Bool) (l : Loop)
    → IsKept h o
    → ((k : History) (p : Observer) → IsTracked l k p × IsPassive l p)
    → IsKept h (record o { invalidate = b; loop = l })
loop-IsKept h o b l i free = record {
  current =
      IsCurrent-same h h o _ i.current (refl, refl, refl, refl, refl, refl) refl i.current.bounded;
  tracked = (free h _).0;
  passive = (free h (record o { invalidate = b; loop = l })).1;
}

pub wake-IsKept : (l : Loop) (h : History) (o : Observer) → IsKept h o → IsKept h (wake l o)
unfolding wake
wake-IsKept idle h o i =
    if-IsKept h o.invalidate _ _
      (λ k.
        if-IsKept h o.closed _ _ (λ m. loop-IsKept h o o.invalidate stopped i (λ k p. (tt, tt)))
          (λ m. loop-IsKept h o false woken i (λ k p. (tt, tt))))
      (λ k. i)
wake-IsKept woken h o i = i
wake-IsKept raced_pause h o i = i
wake-IsKept failed_pause h o i = i
wake-IsKept stopped h o i = i
wake-IsKept (listing s n) h o i = i

abbrev pub listed_from : History → History
listed_from h = record h { list_clean = true }

-- A LIST begins.
begun-IsKept :
    (h : History) (o : Observer) (b : Bool) (q : List Str)
    → IsKept h o
    → IsKept (listed_from h) (record o {
      invalidate = b;
      steady = false;
      buffer = q;
      loop = listing o.subscription_generation o.notification_generation;
    })
begun-IsKept h o b q i = record {
  current = unready-IsCurrent h (listed_from h) o _ i.current (never_both o.ready) refl refl;
  tracked = (omega arith, omega arith, inl refl);
  passive = refl;
}

raced-IsKept :
    (h : History) (o : Observer)
    → o.steady ≡ false
    → IsKept h o
    → IsKept
        (listed_from h)
        (record o { loop = listing o.subscription_generation o.notification_generation })
raced-IsKept h o e i = record {
  current =
      IsCurrent-same h (listed_from h) o _ i.current (refl, refl, refl, refl, refl, refl) refl
        i.current.bounded;
  tracked = (omega arith, omega arith, inl refl);
  passive = e;
}

pub begin-IsKept :
    (l : Loop) (h : History) (o : Observer)
    → IsPassive l o
    → IsKept h o
    → IsKept (if can_list l && o.subscription_ready then listed_from h else h) (begin l o)
unfolding begin
begin-IsKept woken h o e i = by_flag o.subscription_ready
  where
    by_flag :
        (b : Bool)
        → IsKept (if b then listed_from h else h) (
            if b
            then (record o {
              invalidate = false;
              steady = false;
              buffer = [];
              loop = listing o.subscription_generation o.notification_generation;
            })
            else o)
    by_flag true = begun-IsKept h o false [] i
    by_flag false = i
begin-IsKept raced_pause h o e i = by_flag o.subscription_ready
  where
    by_flag :
        (b : Bool)
        → IsKept (if b then listed_from h else h) (
            if b
            then (record o { loop = listing o.subscription_generation o.notification_generation })
            else o)
    by_flag true = raced-IsKept h o e i
    by_flag false = i
begin-IsKept idle h o e i = i
begin-IsKept failed_pause h o e i = i
begin-IsKept stopped h o e i = i
begin-IsKept (listing s n) h o e i = i

unraced :
    (s n : ℕ) (h : History) (o : Observer)
    → is_raced s n o ≡ false
    → IsTracked (listing s n) h o
    → (o.subscription_ready ≡ true) × (h.list_clean ≡ true)
unfolding is_raced
unraced s n h o e t = ground (arith, e, t)

-- What a LIST leaves that ended without an error.
abbrev pub listed_with : List LeaseListItem → History → History
listed_with items h = record h { clean = h.list_clean; latest = view_of [] items }

installed-IsKept :
    (s n : ℕ) (items : List LeaseListItem) (h : History) (o : Observer)
    → o.steady ≡ false
    → IsTracked (listing s n) h o
    → IsKept h o
    → IsKept (listed_with items h) (installed s n items o)
unfolding installed
installed-IsKept s n items h o e t i =
    if-IsKept (listed_with items h) (is_raced s n o) _ _
      (λ k. record {
        current =
            unready-IsCurrent h (listed_with items h) o _ i.current (unsteady o.ready) refl refl;
        tracked = tt;
        passive = e;
      })
      (λ k.
        let (live, clean) = unraced s n h o k t in
        record {
          current = record {
            live = rw live refl;
            fresh = rw clean refl;
            latest = inr refl;
            has_room = i.current.has_room;
            bounded =
                length-enqueue_change o.changes_maxsize whole_view o.changes i.current.has_room;
          };
          tracked = tt;
          passive = tt;
        })
  where
    unsteady : (b : Bool) → (b && o.steady) ≡ false
    unsteady true = e
    unsteady false = refl

ended-IsKept :
    (y : Yielded) (s n : ℕ) (h : History) (o : Observer)
    → o.steady ≡ false
    → IsTracked (listing s n) h o
    → IsKept h o
    → (r : Result (Unit {0}))
    → IsKept
        (with_list (record y { stop = r }) h)
        (end_list (record y { stop = r }) (listing s n) o)
unfolding end_list
ended-IsKept y s n h o e t i (ok u) = installed-IsKept s n y.items h o e t i
ended-IsKept y s n h o e t i (err x) = record {
  current = unready-IsCurrent h h o _ i.current refl refl refl;
  tracked = tt;
  passive = tt;
}

pub end_list-IsKept :
    (y : Yielded) (l : Loop) (h : History) (o : Observer)
    → IsPassive l o
    → IsTracked l h o
    → IsKept h o
    → IsKept (if is_listing l then with_list y h else h) (end_list y l o)
unfolding end_list
end_list-IsKept y (listing s n) h o e t i = unfold end_list in ended-IsKept y s n h o e t i y.stop
end_list-IsKept y idle h o e t i = i
end_list-IsKept y woken h o e t i = i
end_list-IsKept y raced_pause h o e t i = i
end_list-IsKept y failed_pause h o e t i = i
end_list-IsKept y stopped h o e t i = i

pub end_pause-IsKept :
    (l : Loop) (h : History) (o : Observer) → IsKept h o → IsKept h (end_pause l o)
unfolding end_pause
end_pause-IsKept failed_pause h o i = loop-IsKept h o true idle i (λ k p. (tt, tt))
end_pause-IsKept idle h o i = i
end_pause-IsKept woken h o i = i
end_pause-IsKept raced_pause h o i = i
end_pause-IsKept stopped h o i = i
end_pause-IsKept (listing s n) h o i = i
