-- ===== src/Domains/Lease/Observer/History.antt =====
-- What has happened to an observer, told from the events and not from the observer's counters.
use fitz_py.Prelude.{Bool, true, false, ◌&&◌, [], ◌∷◌, List, if◌then◌else◌}
use fitz_py.Prelude.Dict.{Dict}
use fitz_py.Errors.{ok, err}
use fitz_py.Text.{Str}
use fitz_py.Domains.Lease.{LeaseListItem}
use fitz_py.Domains.Lease.Client.{Yielded}
use fitz_py.Domains.Lease.Observer

-- `list_clean`: since the LIST under way began, nothing has disturbed it. `clean`: nothing has
-- disturbed the view since the LIST that ended last began. `latest`: what that LIST gave.
pub record History : Type 0 where
  pub list_clean : Bool
  pub clean : Bool
  pub latest : Dict Str LeaseListItem

abbrev pub no_history : History
no_history = record { list_clean = false; clean = false; latest = [] }

abbrev pub disturbed : History → History
disturbed h = record h { list_clean = false; clean = false }

-- A LIST can begin.
abbrev pub can_list : Observer.Loop → Bool
can_list Observer.woken = true
can_list Observer.raced_pause = true
can_list l = false

abbrev pub is_listing : Observer.Loop → Bool
is_listing (Observer.listing s n) = true
is_listing l = false

-- A LIST that ended without an error.
abbrev pub with_list : Yielded → History → History
with_list y h = elim y.stop as (λ _. History) [
  | ok u ↦ record h { clean = h.list_clean; latest = Observer.view_of [] y.items }
  | err e ↦ h
]

-- The history after an event that meets the observer `o`: a notification, a subscription that fails,
-- ends or is replaced, and a reconnection disturb the view.
abbrev pub noted : Observer.Event → Observer.Observer → History → History
noted Observer.notified o h = disturbed h
noted Observer.subscription_failed o h = disturbed h
noted Observer.subscription_ended o h = disturbed h
noted Observer.subscription_replaced o h = if o.subscription_ready then h else disturbed h
noted Observer.reconnected o h = disturbed h
noted Observer.began o h =
    if can_list o.loop && o.subscription_ready then record h { list_clean = true } else h
noted (Observer.listed y) o h = if is_listing o.loop then with_list y h else h
noted e o h = h

-- The history of an observer through a list of events.
unfoldable pub history : List Observer.Event → Observer.Observer → History → History
history [] o h = h
history (e ∷ es) o h = history es (Observer.step e o) (noted e o h)
