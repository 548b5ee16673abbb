-- ===== src/Domains/Kv.antt =====
-- domains/kv.py: transactions of the key-value service. The lock of a transaction makes its
-- operations follow each other. `scan_all`, the async context manager and iterator, and the
-- registration of the handlers on the connection are left out. A limit is a natural number.
pub mod Settled
pub mod Pages
use fitz_py.Prelude.{
  ℕ, zero, suc, ◌-◌, ◌/◌, ◌*◌, ◌+◌, String, Bool, true, false, not, ◌&&◌, ◌||◌, [], ◌∷◌, List, ltb,
  leb, ◌==◌, bit, if◌then◌else◌, Option, none, some, length,
}
use fitz_py.Prelude.Bytes.{Bytes}
use fitz_py.Errors.{Error, kv, domain_error, stale_handle, Result, ok, err}
use fitz_py.Errors.Retry.{response_error}
use fitz_py.Exec.{Exec, pure, raise, gets, lift, guard, ◌>>=◌, ◌>>◌}
use fitz_py.Text.{Str, codes}
use fitz_py.Protocol.Buffer.{
  Writer, written, write_u8, write_u32_be, write_u64_be, write_bytes, write_route, Reader, reader,
  read_u8, read_u16_be, read_u32_be, read_u64_be, read_bytes, read_string, read_route,
  remaining_bytes, is_eof,
}
use fitz_py.Protocol.Messages.{
  msg_kv_delete, msg_kv_delete_range, msg_kv_scan, msg_kv_subscribe, msg_kv_unsubscribe, msg_kv_get,
  msg_kv_put, msg_kv_insert, msg_kv_commit, msg_kv_rollback, msg_kv_begin,
}
use fitz_py.Domains.Routes.{is_exact_route_shape}
use fitz_py.Domains.Link.{Link, request_frame, invalid_response, reading, run_with_retry}

pub record KvPair : Type 0 where
  pub key : Bytes
  pub value : Bytes

pub record KvScanPage : Type 0 where
  pub entries : List KvPair
  pub has_more : Bool

pub record KvNotification : Type 0 where
  pub route : Str
  pub mutation_count : ℕ

-- `KVTransaction`, with the connection it works on.
pub record KvTransaction : Type 0 where
  pub connection : Link
  pub route : Str
  pub tx_id : ℕ
  pub generation : ℕ
  pub closed : Bool

-- What follows the status byte of an error.
unfoldable pub read_failure : {A : Type 0} → String → Reader A
read_failure operation = do
  code ← read_u16_be
  error_class ← read_u8
  effect ← read_u8
  message ← read_string
  eof ← is_eof
  if eof
      then raise (response_error kv operation code (some error_class) (some effect))
      else raise (invalid_response kv)

-- `_status`, and what is read when it does not raise.
unfoldable pub read_status : {A : Type 0} → String → Reader A → Reader A
read_status operation next = do
  status ← read_u8
  if status == 0
      then next
      else if status == 1
      then read_failure operation
      else raise (invalid_response kv)

-- `_ensure_open`
unfoldable pub ensure_open : Exec KvTransaction Unit
ensure_open t =
    if not (t.generation == t.connection.generation)
    then (err (stale_handle "KV transaction"), t)
    else if t.closed
    then (err (domain_error kv "TX_CLOSED" none none none), t)
    else (ok tt, t)

-- A request of the transaction. `_invalidate` closes it when the transport is lost meanwhile.
unfoldable pub request : ℕ → Bytes → Exec KvTransaction Bytes
request message_type payload t =
    let (answer, link) = request_frame message_type payload t.connection in
    (answer, record t { connection = link; closed = t.closed || link.lost })

-- `_prefix`, and what is written behind it.
unfoldable pub prefixed : KvTransaction → Writer Unit → Writer Unit
prefixed t rest = do write_u64_be t.tx_id; write_route t.route; rest

unfoldable pub write_sized : Bytes → Writer Unit
write_sized bs = do write_u32_be (length bs); write_bytes bs

-- The payload is built, sent, and its answer read.
unfoldable pub exchange : {A : Type 0} → ℕ → Writer Unit → Reader A → Exec KvTransaction A
exchange message_type rest read = do
  t ← gets (λ t. t)
  payload ← lift (written (prefixed t rest))
  raw ← request message_type payload
  lift ((read (reader raw)).0)

unfoldable pub at_end : {A : Type 0} → A → Reader A
at_end a = do eof ← is_eof; if eof then pure a else raise (invalid_response kv)

unfoldable pub read_value : Reader (Option Bytes)
read_value = do size ← read_u32_be; value ← read_bytes size; at_end (some value)

unfoldable pub read_found : Reader (Option Bytes)
read_found = do
  flag ← read_u8
  if flag == 0 then at_end none else if flag == 1 then read_value else raise (invalid_response kv)

unfoldable pub get : Bytes → Exec KvTransaction (Option Bytes)
get key = do
  ensure_open
  n ← gets (λ t. t.connection.attempts - 1)
  run_with_retry n
      (do ensure_open; exchange msg_kv_get (write_sized key) (read_status "GET" read_found))

-- `_write`
unfoldable pub write : ℕ → String → Bytes → Bytes → Exec KvTransaction Unit
write message_type operation key value = do
  ensure_open
  exchange message_type (do write_sized key; write_sized value) (read_status operation (pure tt))

unfoldable pub put : Bytes → Bytes → Exec KvTransaction Unit
put = write msg_kv_put "PUT"

unfoldable pub insert : Bytes → Bytes → Exec KvTransaction Unit
insert = write msg_kv_insert "INSERT"

unfoldable pub delete : Bytes → Exec KvTransaction Unit
delete key = do
  ensure_open
  exchange msg_kv_delete (write_sized key) (read_status "DELETE" (pure tt))

-- `a < b` on byte strings.
unfoldable pub bytes_lt : Bytes → Bytes → Bool
bytes_lt xs [] = false
bytes_lt [] (y ∷ ys) = true
bytes_lt (x ∷ xs) (y ∷ ys) = ltb x y || (x == y && bytes_lt xs ys)

unfoldable pub delete_range : Bytes → Bytes → Exec KvTransaction Unit
delete_range start_key end_key = do
  guard (bytes_lt start_key end_key) (domain_error kv "INVALID_RANGE" none none none)
  ensure_open
  exchange msg_kv_delete_range (do write_sized start_key; write_sized end_key)
      (read_status "DELETE_RANGE" (pure tt))

unfoldable pub valid_limit : Option ℕ → Bool
valid_limit none = true
valid_limit (some limit) = leb limit 0xFFFF_FFFF

-- The bounds are in the wrong order for the direction.
unfoldable pub inverted : Option Bytes → Option Bytes → Bool → Bool
inverted none end_key reverse = false
inverted (some start_key) none reverse = false
inverted (some start_key) (some end_key) reverse =
    if reverse then bytes_lt start_key end_key else bytes_lt end_key start_key

unfoldable pub write_bound : Option Bytes → Writer Unit
write_bound none = write_u8 0
write_bound (some bs) = do write_u8 1; write_sized bs

unfoldable pub write_limit : Option ℕ → Writer Unit
write_limit none = write_u8 0
write_limit (some limit) = do write_u8 1; write_u32_be limit

unfoldable pub scan_payload : Option Bytes → Option Bytes → Option ℕ → Bool → Bool → Writer Unit
scan_payload start_key end_key limit reverse start_exclusive = do
  write_bound start_key
  write_bound end_key
  write_limit limit
  write_u8 (bit reverse + 2 * bit start_exclusive)

unfoldable pub read_pairs : ℕ → Reader (List KvPair)
read_pairs zero = pure []
read_pairs (suc count) = do
  key_size ← read_u32_be
  key ← read_bytes key_size
  value_size ← read_u32_be
  value ← read_bytes value_size
  pairs ← read_pairs count
  pure (record { key = key; value = value } ∷ pairs)

unfoldable pub read_page_end : List KvPair → Reader KvScanPage
read_page_end entries = do
  flag ← read_u8
  eof ← is_eof
  if ltb 1 flag || not eof
      then raise (invalid_response kv)
      else pure (record { entries = entries; has_more = flag == 1 })

unfoldable pub read_page : Reader KvScanPage
read_page = do
  count ← read_u32_be
  left ← remaining_bytes
  if ltb ((left - 1) / 8) count
      then raise (invalid_response kv)
      else (do entries ← read_pairs count; read_page_end entries)

unfoldable pub scan_wire :
    Option Bytes → Option Bytes → Option ℕ → Bool → Bool → Exec KvTransaction KvScanPage
scan_wire start_key end_key limit reverse start_exclusive = do
  n ← gets (λ t. t.connection.attempts - 1)
  run_with_retry n (do
    ensure_open
    exchange msg_kv_scan (scan_payload start_key end_key limit reverse start_exclusive)
        (read_status "SCAN" read_page))

unfoldable pub scan_page :
    Option Bytes → Option Bytes → Option ℕ → Bool → Bool → Exec KvTransaction KvScanPage
scan_page start_key end_key limit reverse start_exclusive = do
  guard (valid_limit limit) (domain_error kv "INVALID_LIMIT" none none none)
  ensure_open
  if inverted start_key end_key reverse
      then pure (record { entries = []; has_more = false })
      else scan_wire start_key end_key limit reverse start_exclusive

-- `scan`, with the entries that it yields.
unfoldable pub scan :
    Option Bytes → Option Bytes → Option ℕ → Bool → Exec KvTransaction (List KvPair)
scan start_key end_key limit reverse = do
  page ← scan_page start_key end_key limit reverse false
  if page.has_more
      then raise (domain_error kv "SCAN_TRUNCATED" none none none)
      else pure page.entries

-- `_finish`: the transaction is closed before the request is sent.
unfoldable pub finish : ℕ → String → Writer Unit → Exec KvTransaction Unit
finish message_type operation persistence = do
  ensure_open
  λ t. (ok tt, record t { closed = true })
  exchange message_type persistence (read_status operation (pure tt))

unfoldable pub commit : Bool → Exec KvTransaction Unit
commit sync = finish msg_kv_commit "COMMIT" (write_u8 (bit sync))

unfoldable pub rollback : Exec KvTransaction Unit
rollback t = if t.closed then (ok tt, t) else finish msg_kv_rollback "ROLLBACK" (pure tt) t

unfoldable pub read_id : Reader ℕ
read_id = do left ← remaining_bytes; if left == 8 then read_u64_be else raise (invalid_response kv)

abbrev opened : Link → Str → ℕ → KvTransaction
opened link route tx_id = record {
  connection = link;
  route = route;
  tx_id = tx_id;
  generation = link.generation;
  closed = false;
}

-- `KVClient.begin`; `read_write` is the mode.
unfoldable pub begin : Str → Bool → Exec Link KvTransaction
begin route read_write = do
  guard (is_exact_route_shape route (codes "kv") 3) (domain_error kv "INVALID_ROUTE" none none none)
  payload ← lift (written (do write_route route; write_u8 (bit read_write)))
  raw ← request_frame msg_kv_begin payload
  tx_id ← reading (read_status "BEGIN" read_id) raw
  gets (λ link. opened link route tx_id)

-- `_subscribe_wire`
unfoldable pub subscribe_wire : Str → Exec Link ℕ
subscribe_wire pattern = do
  payload ← lift (written (write_route pattern))
  raw ← request_frame msg_kv_subscribe payload
  reading (read_status "SUBSCRIBE" read_id) raw

-- `_unsubscribe_wire`
unfoldable pub unsubscribe_wire : Str → Exec Link Unit
unsubscribe_wire pattern = do
  payload ← lift (written (write_route pattern))
  raw ← request_frame msg_kv_unsubscribe payload
  reading (read_status "UNSUBSCRIBE" (pure tt)) raw

-- `_notify`: what is published, and under which subscription.
unfoldable pub notify : Reader (ℕ × KvNotification)
notify = do
  sub_id ← read_u64_be
  route ← read_route
  count ← read_u64_be
  at_end (sub_id, record { route = route; mutation_count = count })
