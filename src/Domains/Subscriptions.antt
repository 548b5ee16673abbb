-- ===== src/Domains/Subscriptions.antt =====
-- domains/_subscriptions.py: one registration with the broker for many local consumers. A consumer
-- is an object on a heap, named by its place there; a set of consumers is a list of places. The
-- registry's lock makes `subscribe`, `restore` and the closing of a consumer exclude each other; the
-- parts of them between two `await`s are operations here, and what an `await` comes back with is an
-- argument. The set of cleanup tasks only keeps them alive, and is left out.
pub mod Early
pub mod Restored
use fitz_py.Prelude.{
  ℕ, zero, suc, String, Bool, true, false, not, ◌++◌, [], ◌∷◌, List, ltb, ◌==◌, if◌then◌else◌,
  Option, none, some, length, drop, map, is_empty,
}
use fitz_py.Prelude.Dict.{Dict, get, put, pop, nat_key}
use fitz_py.Errors.{Error, Result, ok, err, cancelled, reconnect_restore}
use fitz_py.Text.{Str, str_key}
use fitz_py.Runtime.Subscription.{AsyncSubscription, new_subscription, push, fail, finish}

pub record WireSubscription : Type 0 where
  pub sub_id : ℕ
  pub consumers : List ℕ

pub record SubscriptionRegistry (T : Type 0) : Type 0 where
  pub capacity : ℕ
  pub by_registration : Dict Str WireSubscription
  pub by_id : Dict ℕ Str
  pub pending : List (ℕ × T)
  pub heap : List (AsyncSubscription T)

-- `set.discard` on places.
unfoldable pub discard : ℕ → List ℕ → List ℕ
discard i [] = []
discard i (j ∷ js) = if j == i then js else j ∷ discard i js

-- `deque(maxlen=capacity).append`
unfoldable pub append_bounded : {T : Type 0} → ℕ → T → List T → List T
append_bounded capacity x xs =
    if ltb (length xs) capacity then xs ++ (x ∷ []) else drop 1 (xs ++ (x ∷ []))

module _ {T : Type 0} where
  unfoldable pub new_registry : ℕ → SubscriptionRegistry T
  new_registry capacity = record {
    capacity = capacity;
    by_registration = [];
    by_id = [];
    pending = [];
    heap = [];
  }

  -- One consumer on the heap is changed.
  unfoldable pub update :
      ℕ
      → (AsyncSubscription T → AsyncSubscription T)
      → List (AsyncSubscription T)
      → List (AsyncSubscription T)
  update i f [] = []
  update zero f (s ∷ ss) = f s ∷ ss
  update (suc i) f (s ∷ ss) = s ∷ update i f ss

  accepted : ℕ → T → List (AsyncSubscription T) → Bool
  accepted i x [] = false
  accepted zero x (s ∷ ss) = (push x s).0
  accepted (suc i) x (s ∷ ss) = accepted i x ss

  abbrev push_at : ℕ → T → List (AsyncSubscription T) → List (AsyncSubscription T)
  push_at i x heap = update i (λ s. (push x s).1) heap

  -- `push` to each of the consumers.
  unfoldable pub push_all : List ℕ → T → List (AsyncSubscription T) → List (AsyncSubscription T)
  push_all [] x heap = heap
  push_all (i ∷ is) x heap = push_all is x (push_at i x heap)

  -- The consumers whose `push` was accepted.
  unfoldable pub live : List ℕ → T → List (AsyncSubscription T) → List ℕ
  unfolding accepted
  live [] x heap = []
  live (i ∷ is) x heap =
      let rest = live is x (push_at i x heap) in if accepted i x heap then i ∷ rest else rest

  unfoldable pub all_of :
      List ℕ
      → (AsyncSubscription T → AsyncSubscription T)
      → List (AsyncSubscription T)
      → List (AsyncSubscription T)
  all_of [] f heap = heap
  all_of (i ∷ is) f heap = all_of is f (update i f heap)

  -- The notifications of one id, and the others, in order.
  unfoldable pub of_id : ℕ → List (ℕ × T) → List T
  of_id id [] = []
  of_id id ((n, x) ∷ ps) = let rest = of_id id ps in if n == id then x ∷ rest else rest

  unfoldable pub not_of_id : ℕ → List (ℕ × T) → List (ℕ × T)
  not_of_id id [] = []
  not_of_id id ((n, x) ∷ ps) = let rest = not_of_id id ps in if n == id then rest else (n, x) ∷ rest

  unfoldable pub push_each :
      List ℕ → List T → List (AsyncSubscription T) → List (AsyncSubscription T)
  push_each consumers [] heap = heap
  push_each consumers (x ∷ xs) heap = push_each consumers xs (push_all consumers x heap)

  -- `_flush_pending`
  unfoldable pub flush_pending : WireSubscription → SubscriptionRegistry T → SubscriptionRegistry T
  flush_pending w r = record r {
    pending = not_of_id w.sub_id r.pending;
    heap = push_each w.consumers (of_id w.sub_id r.pending) r.heap;
  }

  -- The last lines of `subscribe`: a new consumer joins the registration's state.
  unfoldable pub join : Str → WireSubscription → SubscriptionRegistry T → ℕ × SubscriptionRegistry T
  join registration w r =
      let place = length r.heap in
      let joined = record w { consumers = w.consumers ++ (place ∷ []) } in
      (
        place,
        flush_pending joined (record r {
          by_registration = put registration joined r.by_registration;
          heap = r.heap ++ (new_subscription r.capacity ∷ []);
        }),
      )

  -- The state that `subscribe` enters under a new id.
  unfoldable pub enter : Str → ℕ → SubscriptionRegistry T → SubscriptionRegistry T
  enter registration sub_id r = record r {
    by_registration =
        put registration (record { sub_id = sub_id; consumers = [] }) r.by_registration;
    by_id = put sub_id registration r.by_id;
  }

  unfoldable entered : Str → Result ℕ → SubscriptionRegistry T → Result ℕ × SubscriptionRegistry T
  entered registration (err e) r = (err e, r)
  entered registration (ok sub_id) r =
      let (place, s) =
        join registration (record { sub_id = sub_id; consumers = [] })
          (enter registration sub_id r) in
      (ok place, s)

  unfoldable joined_or_entered :
      Str
      → Option WireSubscription
      → Result ℕ
      → SubscriptionRegistry T
      → Result ℕ × SubscriptionRegistry T
  unfolding entered
  joined_or_entered registration none answer r = entered registration answer r
  joined_or_entered registration (some w) answer r =
      let (place, s) = join registration w r in (ok place, s)

  -- `subscribe`, when `_subscribe_wire` comes back with `answer` if it is called.
  unfoldable pub subscribe :
      Str → Result ℕ → SubscriptionRegistry T → Result ℕ × SubscriptionRegistry T
  unfolding joined_or_entered
  subscribe registration answer r =
      joined_or_entered registration (get registration r.by_registration) answer r

  -- A new `subscribe` is cancelled while it waits: the broker's registration is undone, or, when that
  -- fails, kept with no consumer. The cancellation is raised in any case.
  unfoldable pub subscribe_cancelled :
      Str → Result ℕ → Result (Unit {0}) → SubscriptionRegistry T → SubscriptionRegistry T
  subscribe_cancelled registration (err e) undone r = r
  subscribe_cancelled registration (ok sub_id) (ok u) r = r
  subscribe_cancelled registration (ok sub_id) (err e) r = enter registration sub_id r

  left : Str → ℕ → Option WireSubscription → SubscriptionRegistry T → Bool × SubscriptionRegistry T
  left registration place none r = (false, r)
  left registration place (some w) r =
      let rest = discard place w.consumers in
      (
        is_empty rest,
        record r {
          by_registration = put registration (record w { consumers = rest }) r.by_registration;
        },
      )

  -- `close`, up to the call of `_unsubscribe_wire`; it is called when no consumer is left.
  unfoldable pub leave : Str → ℕ → SubscriptionRegistry T → Bool × SubscriptionRegistry T
  unfolding left
  leave registration place r = left registration place (get registration r.by_registration) r

  -- `close`, after `_unsubscribe_wire`, with the id that the registration had: what is kept when it
  -- failed is left for another try.
  unfoldable pub left_wire :
      Str → ℕ → Result (Unit {0}) → SubscriptionRegistry T → SubscriptionRegistry T
  left_wire registration sub_id (err e) r = r
  left_wire registration sub_id (ok u) r = record r {
    by_registration = pop registration r.by_registration;
    by_id = pop sub_id r.by_id;
  }

  unfoldable pub published :
      Str → T → Option WireSubscription → SubscriptionRegistry T → SubscriptionRegistry T
  published registration x none r = r
  published registration x (some w) r = record r {
    by_registration =
        put registration (record w { consumers = live w.consumers x r.heap }) r.by_registration;
    heap = push_all w.consumers x r.heap;
  }

  unfoldable pub routed : ℕ → T → Option Str → SubscriptionRegistry T → SubscriptionRegistry T
  unfolding published
  routed sub_id x none r = record r { pending = append_bounded r.capacity (sub_id, x) r.pending }
  routed sub_id x (some registration) r =
      published registration x (get registration r.by_registration) r

  -- `publish`; the consumers that refused the item are closed by tasks of their own.
  unfoldable pub publish : ℕ → T → SubscriptionRegistry T → SubscriptionRegistry T
  unfolding routed
  publish sub_id x r = routed sub_id x (get sub_id r.by_id) r

  failed : Str → Error → Option WireSubscription → SubscriptionRegistry T → SubscriptionRegistry T
  failed registration e none r = r
  failed registration e (some w) r = record r {
    by_registration = pop registration r.by_registration;
    by_id = pop w.sub_id r.by_id;
    heap = all_of w.consumers (fail e) r.heap;
  }

  unfoldable pub fail_registration : Str → Error → SubscriptionRegistry T → SubscriptionRegistry T
  unfolding failed
  fail_registration registration e r = failed registration e (get registration r.by_registration) r

  abbrev ended : Option Error → AsyncSubscription T → AsyncSubscription T
  ended none = finish
  ended (some e) = fail e

  end_all :
      Option Error
      → Dict Str WireSubscription
      → List (AsyncSubscription T)
      → List (AsyncSubscription T)
  end_all e [] heap = heap
  end_all e ((registration, w) ∷ d) heap = end_all e d (all_of w.consumers (ended e) heap)

  unfoldable pub terminate : Option Error → SubscriptionRegistry T → SubscriptionRegistry T
  unfolding end_all
  terminate e r = record r {
    by_registration = [];
    by_id = [];
    pending = [];
    heap = end_all e r.by_registration r.heap;
  }

  -- A registration that was terminated meanwhile has only consumers that take nothing.
  unfoldable moved :
      Str → ℕ → Option WireSubscription → SubscriptionRegistry T → SubscriptionRegistry T
  moved registration new_id none r = flush_pending (record { sub_id = new_id; consumers = [] }) r
  moved registration new_id (some w) r =
      let held = record w { sub_id = new_id } in
      flush_pending held (record r { by_registration = put registration held r.by_registration })

  -- `restore`, for one registration: the body of the loop after `_subscribe_wire`.
  unfoldable pub restore_one :
      String → Str → ℕ → Result ℕ → SubscriptionRegistry T → SubscriptionRegistry T
  unfolding moved
  restore_one domain registration old_id (err e) r =
      fail_registration registration (reconnect_restore domain registration e) r
  restore_one domain registration old_id (ok new_id) r =
      moved registration new_id (get registration r.by_registration)
        (record r { by_id = put new_id registration (pop old_id r.by_id) })

  -- The loop of `restore`, with the answers of `_subscribe_wire` in order. A cancellation ends it.
  unfoldable pub restore_loop :
      String
      → Dict Str WireSubscription
      → List (Result ℕ)
      → SubscriptionRegistry T
      → SubscriptionRegistry T
  restore_loop domain [] answers r = r
  restore_loop domain (w ∷ ws) [] r = r
  restore_loop domain (w ∷ ws) (err cancelled ∷ answers) r = r
  restore_loop domain ((registration, w) ∷ ws) (answer ∷ answers) r =
      restore_loop domain ws answers (restore_one domain registration w.sub_id answer r)

  unfoldable pub restore :
      String → List (Result ℕ) → SubscriptionRegistry T → SubscriptionRegistry T
  restore domain answers r = restore_loop domain r.by_registration answers r
