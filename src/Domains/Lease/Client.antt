-- ===== src/Domains/Lease/Client.antt =====
-- domains/lease.py: what the lease client sends, how it reads the answers, and the handle of a lease
-- that it holds.
use fitz_py.Prelude.{
  ℕ, zero, suc, ◌-◌, ◌^◌, Bool, true, false, not, ◌&&◌, ◌||◌, ◌++◌, [], ◌∷◌, List, length, ltb, leb,
  ◌==◌, Option, none, some, is_empty,
}
use fitz_py.Prelude.Bytes.{Bytes}
use fitz_py.Errors.{lease, Result, ok, err, stale_handle, value_error, diverged}
use fitz_py.Exec.{Exec, pure, gets, guard, ◌>>=◌, ◌>>◌}
use fitz_py.Text.{Str}
use fitz_py.Protocol.Buffer.{
  Writer, write_u8, write_u32_be, write_u64_be, write_route, Reader, read_u8, read_u32_be,
  read_u64_be, read_bytes, read_string, read_route, is_eof,
}
use fitz_py.Protocol.Messages.{
  msg_lease_extend, msg_lease_list, msg_lease_query, msg_lease_release, msg_lease_subscribe,
  msg_lease_unsubscribe,
}
use fitz_py.Domains.Link.{Link, call, succeeded, no_data, reading}
use fitz_py.Domains.Lease.{
  LeaseInfo, LeaseListCursor, LeaseListItem, LeaseListPage, Lease, lease_error, check_route,
  check_pattern, positive_duration, check_u32,
}

-- `if not reader.is_eof(): raise ...`, and the result.
unfoldable pub at_end : {A : Type 0} → A → Reader A
at_end a = do eof ← is_eof; guard eof (lease_error "INVALID_RESPONSE"); pure a

-- The checks of `acquire` before it waits for its turn.
unfoldable pub check_acquire : {S : Type 0} → Str → Str → ℕ → ℕ → Exec S Unit
check_acquire route owner_id ttl wait = do
  check_route route
  positive_duration ttl
  guard (leb wait (2 ^ 32 - 1)) value_error
  guard (not (is_empty owner_id)) value_error

unfoldable pub acquire_payload : Str → Str → ℕ → ℕ → Writer Unit
acquire_payload route owner_id ttl wait = do
  write_route route
  write_route owner_id
  write_u64_be ttl
  write_u32_be wait

-- The type of an answer and the token.
unfoldable pub read_acquired : Reader (ℕ × ℕ)
read_acquired = do
  response_type ← read_u8
  token ← read_u64_be
  eof ← is_eof
  guard (leb response_type 3 && eof) (lease_error "INVALID_RESPONSE")
  pure (response_type, token)

unfoldable pub read_held : Bool → Reader LeaseInfo
read_held false = do
  waiters ← read_u32_be
  at_end (record { is_held = false; owner = none; ttl_remaining = none; pending_waiters = waiters })
read_held true = do
  owner ← read_route
  ttl ← read_u64_be
  waiters ← read_u32_be
  at_end (record {
    is_held = true;
    owner = some owner;
    ttl_remaining = some ttl;
    pending_waiters = waiters;
  })

unfoldable pub read_info : Reader LeaseInfo
read_info = do
  held_flag ← read_u8
  guard (not (ltb 1 held_flag)) (lease_error "INVALID_RESPONSE")
  read_held (held_flag == 1)

unfoldable pub query : Str → Exec Link LeaseInfo
query route = do
  check_route route
  response ← call msg_lease_query (write_route route)
  succeeded lease "QUERY" response
  reading read_info response.content

unfoldable pub write_cursor : Option LeaseListCursor → Writer Unit
write_cursor none = write_u8 0
write_cursor (some cursor) = do
  write_u8 1
  write_u64_be cursor.snapshot_id
  write_u32_be cursor.start

-- `0 if limit is None else limit`
abbrev pub limit_or_zero : Option ℕ → ℕ
limit_or_zero none = 0
limit_or_zero (some limit) = limit

unfoldable pub list_payload : Str → Option LeaseListCursor → Option ℕ → Writer Unit
list_payload pattern cursor limit = do
  write_route pattern
  write_cursor cursor
  write_u32_be (limit_or_zero limit)

unfoldable pub read_item : Reader LeaseListItem
read_item = do
  route ← read_route
  owner_id ← read_string
  holder_incarnation ← read_u64_be
  acquired_at ← read_string
  expires_in_secs ← read_u64_be
  renewals ← read_u32_be
  pure (record {
    route = route;
    owner_id = owner_id;
    holder_incarnation = holder_incarnation;
    acquired_at = acquired_at;
    expires_in_secs = expires_in_secs;
    renewals = renewals;
  })

unfoldable pub read_items : ℕ → Reader (List LeaseListItem)
read_items zero = pure []
read_items (suc count) = do item ← read_item; items ← read_items count; pure (item ∷ items)

unfoldable pub read_cursor : Bool → Reader (Option LeaseListCursor)
read_cursor false = pure none
read_cursor true = do
  snapshot_id ← read_u64_be
  start ← read_u32_be
  pure (some (record { snapshot_id = snapshot_id; start = start }))

unfoldable pub read_page : Reader LeaseListPage
read_page = do
  count ← read_u32_be
  items ← read_items count
  has_next ← read_u8
  guard (not (ltb 1 has_next)) (lease_error "INVALID_RESPONSE")
  cursor ← read_cursor (has_next == 1)
  at_end (record { items = items; cursor = cursor })

unfoldable pub list_page : Str → Option LeaseListCursor → Option ℕ → Exec Link LeaseListPage
list_page pattern cursor limit = do
  check_pattern pattern
  check_u32 limit
  response ← call msg_lease_list (list_payload pattern cursor limit)
  succeeded lease "LIST" response
  reading read_page response.content

-- What an iterator yields before it stops, and how it stops.
pub record Yielded : Type 0 where
  pub items : List LeaseListItem
  pub stop : Result (Unit {0})

abbrev pub Pages : Type 0
Pages = Option LeaseListCursor → Link → Yielded × Link

abbrev pub yield_page : List LeaseListItem → Yielded × Link → Yielded × Link
yield_page items (rest, s) = (record rest { items = items ++ rest.items }, s)

abbrev pub next_page : Pages → LeaseListPage → Link → Yielded × Link
next_page next page s = elim page.cursor as (λ _. Yielded × Link) [
  | none ↦ (record { items = page.items; stop = ok tt }, s)
  | some cursor ↦ yield_page page.items (next (some cursor) s)
]

abbrev pub after_page : Pages → Result LeaseListPage × Link → Yielded × Link
after_page next (ok page, s) = next_page next page s
after_page next (err e, s) = (record { items = []; stop = err e }, s)

-- The pages from a cursor on.
unfoldable pub list_from : ℕ → Str → Option ℕ → Pages
list_from zero pattern limit cursor s = (record { items = []; stop = err diverged }, s)
list_from (suc fuel) pattern limit cursor s =
    after_page (list_from fuel pattern limit) (list_page pattern cursor limit s)

-- Every page takes one of the answers.
unfoldable pub list_leases : Str → Option ℕ → Link → Yielded × Link
list_leases pattern limit s = list_from (suc (length s.replies)) pattern limit none s

unfoldable pub read_token : Bytes → Exec Link ℕ
read_token content = do
  guard (length content == 8) (lease_error "INVALID_RESPONSE")
  reading read_u64_be content

-- `_extend`
unfoldable pub extend_wire : Str → Str → ℕ → ℕ → Exec Link ℕ
extend_wire route owner_id token ttl = do
  positive_duration ttl
  response ←
      call msg_lease_extend
        (do write_route route; write_route owner_id; write_u64_be token; write_u64_be ttl)
  succeeded lease "EXTEND" response
  read_token response.content

-- `_release`
unfoldable pub release_wire : Str → Str → ℕ → Exec Link Unit
release_wire route owner_id token = do
  response ← call msg_lease_release (do write_route route; write_route owner_id; write_u64_be token)
  succeeded lease "RELEASE" response
  no_data lease response

-- `_subscribe_wire`
unfoldable pub subscribe_wire : Str → Exec Link ℕ
subscribe_wire route = do
  response ← call msg_lease_subscribe (write_route route)
  succeeded lease "SUBSCRIBE" response
  read_token response.content

-- `_unsubscribe_wire`
unfoldable pub unsubscribe_wire : Str → Exec Link Unit
unsubscribe_wire route = do
  response ← call msg_lease_unsubscribe (write_route route)
  succeeded lease "UNSUBSCRIBE" response
  no_data lease response

-- `_notify`: what is published, and under which subscription.
unfoldable pub notify : Reader (ℕ × Str)
notify = do
  sub_id ← read_u64_be
  route ← read_route
  size ← read_u32_be
  bs ← read_bytes size
  eof ← is_eof
  guard (is_empty bs && eof) (lease_error "INVALID_RESPONSE")
  pure (sub_id, route)

-- `Lease._valid`
unfoldable pub valid : Exec Lease Unit
valid = do
  stale ← gets (λ h. h.released || not (h.generation == h.connection.generation))
  guard (not stale) (stale_handle "Lease")

-- An operation on the connection of a handle.
abbrev pub through : {A : Type 0} → Lease → Result A × Link → Result A × Lease
through h (r, s) = (r, record h { connection = s })

abbrev pub on_link : {A : Type 0} → (Lease → Exec Link A) → Exec Lease A
on_link f h = through h (f h h.connection)

abbrev set_token : ℕ → Exec Lease Unit
set_token token h = (ok tt, record h { token = token })

abbrev set_released : Exec Lease Unit
set_released h = (ok tt, record h { released = true })

-- `Lease.extend`, where an answer always carries a token.
unfoldable pub extend : ℕ → Exec Lease Unit
extend ttl = do
  valid
  token ← on_link (λ h. extend_wire h.route h.owner_id h.token ttl)
  set_token token

-- `Lease.release`
unfoldable pub release : Exec Lease Unit
release = do valid; on_link (λ h. release_wire h.route h.owner_id h.token); set_released
