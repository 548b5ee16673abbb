-- ===== src/Domains/Schedule.antt =====
-- domains/schedule.py: the schedule client. A delivery mode is an argument of its own type, and a
-- limit a natural number. The subscription iterator that `subscribe` makes, and the registration of
-- the handlers on the connection, are left out.
pub mod Pages
pub mod Ends
use fitz_py.Prelude.{
  ℕ, zero, suc, Bool, true, false, not, [], ◌∷◌, List, ltb, leb, ◌==◌, if◌then◌else◌, Option, none,
  some, length, is_empty,
}
use fitz_py.Prelude.Bytes.{Bytes}
use fitz_py.Errors.{schedule, domain_error, value_error, diverged}
use fitz_py.Exec.{Exec, pure, raise, guard, ◌>>=◌, ◌>>◌}
use fitz_py.Text.{Str, codes}
use fitz_py.Protocol.Buffer.{
  Writer, write_u8, write_u32_be, write_bytes, write_string, write_route, write_optional_u64,
  Reader, read_u8, read_u32_be, read_u64_be, read_bytes, read_string, read_route, remaining_bytes,
  is_eof,
}
use fitz_py.Protocol.Response.{Response}
use fitz_py.Protocol.Messages.{
  msg_schedule_create, msg_schedule_cancel, msg_schedule_create_batch, msg_schedule_list_v2,
  msg_schedule_subscribe, msg_schedule_unsubscribe,
}
use fitz_py.Domains.Routes.{is_exact_route_shape, is_selector_route_shape}
use fitz_py.Domains.Link.{
  Link, call, succeeded, succeeded_coded, no_data, invalid_response, reading,
}

pub data DeliveryMode : Type 0 where
  broadcast single : DeliveryMode

pub record ScheduleEntry : Type 0 where
  pub route : Str
  pub cron : Str
  pub delivery_mode : DeliveryMode
  pub payload : Bytes

-- `total_count` is always `None`, and is left out.
pub record SchedulePage : Type 0 where
  pub entries : List ScheduleEntry
  pub has_more : Bool
  pub continuation : Option Str

pub record ScheduleCursorPage : Type 0 where
  pub entries : List ScheduleEntry
  pub has_more : Bool
  pub continuation : Option Str

pub record ScheduleNotification : Type 0 where
  pub route : Str
  pub payload : Bytes

-- `_route`
unfoldable pub check_route : {S : Type 0} → Str → Exec S Unit
check_route route =
    guard (is_exact_route_shape route (codes "schedule") 4)
      (domain_error schedule "INVALID_ROUTE" none none none)

-- `_pattern`
unfoldable pub check_pattern : {S : Type 0} → Str → Exec S Unit
check_pattern route =
    guard (is_selector_route_shape route (codes "schedule") 4 true false)
      (domain_error schedule "INVALID_ROUTE" none none none)

abbrev pub mode_byte : DeliveryMode → ℕ
mode_byte broadcast = 0
mode_byte single = 1

-- One entry of `create` or `create_batch`, with its checks.
unfoldable pub write_entry : ScheduleEntry → Writer Unit
write_entry entry = do
  check_route entry.route
  guard (not (is_empty entry.cron)) value_error
  write_route entry.route
  write_string entry.cron
  write_u8 (mode_byte entry.delivery_mode)
  write_u32_be (length entry.payload)
  write_bytes entry.payload

unfoldable pub create : ScheduleEntry → Exec Link Str
create entry = do
  response ← call msg_schedule_create (write_entry entry)
  succeeded_coded schedule "CREATE" response
  no_data schedule response
  pure entry.route

unfoldable pub cancel : Str → Exec Link Unit
cancel route = do
  check_route route
  response ← call msg_schedule_cancel (write_route route)
  succeeded_coded schedule "CANCEL" response
  no_data schedule response

unfoldable pub write_entries : List ScheduleEntry → Writer Unit
write_entries [] = pure tt
write_entries (entry ∷ entries) = do write_entry entry; write_entries entries

unfoldable pub create_batch : List ScheduleEntry → Exec Link Unit
create_batch entries = do
  response ←
      call msg_schedule_create_batch (do write_u32_be (length entries); write_entries entries)
  succeeded schedule "CREATE_BATCH" response
  no_data schedule response

unfoldable pub write_cursor : Option Str → Writer Unit
write_cursor none = write_u8 0
write_cursor (some cursor) = do write_u8 1; write_string cursor

-- A byte that must be 0 or 1.
unfoldable pub read_flag : Reader Bool
read_flag = do
  flag ← read_u8
  if ltb 1 flag then raise (invalid_response schedule) else pure (flag == 1)

unfoldable pub read_mode : Reader DeliveryMode
read_mode = do single_mode ← read_flag; pure (if single_mode then single else broadcast)

unfoldable pub read_entry : Reader ScheduleEntry
read_entry = do
  route ← read_string
  cron ← read_string
  mode ← read_mode
  size ← read_u32_be
  payload ← read_bytes size
  pure (record { route = route; cron = cron; delivery_mode = mode; payload = payload })

-- The loop over the entries, each behind a marker.
unfoldable pub read_entries : ℕ → Reader (List ScheduleEntry)
read_entries zero = raise diverged
read_entries (suc fuel) = do
  more ← read_flag
  if more
      then (do entry ← read_entry; entries ← read_entries fuel; pure (entry ∷ entries))
      else pure []

unfoldable pub read_continuation : Bool → Reader (Option Str)
read_continuation marker = if marker then (do text ← read_string; pure (some text)) else pure none

unfoldable pub read_page_entries : Bool → Option Str → Reader ScheduleCursorPage
read_page_entries has_more continuation = do
  left ← remaining_bytes
  entries ← read_entries (suc left)
  eof ← is_eof
  if eof
      then pure (record { entries = entries; has_more = has_more; continuation = continuation })
      else raise (invalid_response schedule)

unfoldable pub read_page_flags : Reader ScheduleCursorPage
read_page_flags = do
  has_more ← read_flag
  marker ← read_flag
  continuation ← read_continuation marker
  read_page_entries has_more continuation

unfoldable pub read_page : Reader ScheduleCursorPage
read_page = do
  version ← read_u8
  if version == 1 then read_page_flags else raise (invalid_response schedule)

unfoldable pub valid_limit : Option ℕ → Bool
valid_limit none = true
valid_limit (some limit) = leb limit 1000

unfoldable pub list_v2 : Option Str → Option ℕ → Exec Link ScheduleCursorPage
list_v2 cursor limit = do
  guard (valid_limit limit) value_error
  response ← call msg_schedule_list_v2 (do write_cursor cursor; write_optional_u64 limit)
  succeeded schedule "LIST_V2" response
  reading read_page response.content

unfoldable pub no_offset : Option ℕ → Bool
no_offset none = true
no_offset (some offset) = offset == 0

unfoldable pub list_schedules : Option ℕ → Option ℕ → Exec Link SchedulePage
list_schedules offset limit = do
  guard (no_offset offset) value_error
  guard (valid_limit limit) value_error
  page ← list_v2 none limit
  pure (record {
    entries = page.entries;
    has_more = page.has_more;
    continuation = page.continuation;
  })

unfoldable pub read_subscription : Reader ℕ
read_subscription = do
  flag ← read_u8
  guard (flag == 1) (invalid_response schedule)
  id ← read_u64_be
  eof ← is_eof
  guard eof (invalid_response schedule)
  pure id

-- `_subscribe_wire`
unfoldable pub subscribe_wire : Str → Exec Link ℕ
subscribe_wire route = do
  response ← call msg_schedule_subscribe (write_route route)
  succeeded_coded schedule "SUBSCRIBE" response
  reading read_subscription response.content

-- `_unsubscribe_wire`
unfoldable pub unsubscribe_wire : Str → Exec Link Unit
unsubscribe_wire route = do
  response ← call msg_schedule_unsubscribe (write_route route)
  succeeded_coded schedule "UNSUBSCRIBE" response
  no_data schedule response

-- `_notify`: what is published, and under which subscription.
unfoldable pub notify : Reader (ℕ × ScheduleNotification)
notify = do
  sub_id ← read_u64_be
  route ← read_route
  size ← read_u32_be
  payload ← read_bytes size
  eof ← is_eof
  guard eof (invalid_response schedule)
  pure (sub_id, record { route = route; payload = payload })
