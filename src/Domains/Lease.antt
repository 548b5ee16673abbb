-- ===== src/Domains/Lease.antt =====
-- domains/lease.py: the data of the lease client and its checks of arguments. Durations, limits and
-- cursors are natural numbers, and the time `expires_at` that a handle computes from the clock is
-- left out.
pub mod Client
pub mod Acquire
pub mod Pages
pub mod Handle
pub mod Observer
pub mod Listing
use fitz_py.Prelude.{
  ℕ, String, ◌-◌, ◌^◌, Bool, true, not, ◌||◌, List, ltb, leb, ◌==◌, Option, none, some,
}
use fitz_py.Errors.{lease, Error, domain_error, stale_handle, value_error}
use fitz_py.Exec.{Exec, pure, raise, gets, lift, guard, ◌>>=◌}
use fitz_py.Text.{Str, codes}
use fitz_py.Domains.Routes.{is_exact_route_shape, is_selector_route_shape}
use fitz_py.Domains.Link.{Link}

pub record LeaseInfo : Type 0 where
  pub is_held : Bool
  pub owner : Option Str
  pub ttl_remaining : Option ℕ
  pub pending_waiters : ℕ

pub record LeaseListCursor : Type 0 where
  pub snapshot_id : ℕ
  pub start : ℕ

pub record LeaseListItem : Type 0 where
  pub route : Str
  pub owner_id : Str
  pub holder_incarnation : ℕ
  pub acquired_at : Str
  pub expires_in_secs : ℕ
  pub renewals : ℕ

pub record LeaseListPage : Type 0 where
  pub items : List LeaseListItem
  pub cursor : Option LeaseListCursor

-- A handle, with its connection.
pub record Lease : Type 0 where
  pub route : Str
  pub owner_id : Str
  pub token : ℕ
  pub generation : ℕ
  pub released : Bool
  pub connection : Link

-- `LeaseError(message, reason)`
abbrev pub lease_error : String → Error
lease_error reason = domain_error lease reason none none none

-- `_route`
unfoldable pub check_route : {S : Type 0} → Str → Exec S Unit
check_route route =
    guard (is_exact_route_shape route (codes "lease") 3) (lease_error "INVALID_ROUTE")

-- `_pattern`
unfoldable pub check_pattern : {S : Type 0} → Str → Exec S Unit
check_pattern pattern =
    guard (is_selector_route_shape pattern (codes "lease") 3 true true)
      (lease_error "INVALID_ROUTE")

-- `_duration` with `positive=True`; a natural number needs no other check.
unfoldable pub positive_duration : {S : Type 0} → ℕ → Exec S Unit
positive_duration value = guard (not (value == 0)) value_error

abbrev fits_u32 : Option ℕ → Bool
fits_u32 none = true
fits_u32 (some value) = leb value (2 ^ 32 - 1)

-- `_u32`
unfoldable pub check_u32 : {S : Type 0} → Option ℕ → Exec S Unit
check_u32 value = guard (fits_u32 value) value_error
