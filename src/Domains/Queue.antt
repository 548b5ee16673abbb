-- ===== src/Domains/Queue.antt =====
-- domains/queue.py: the queue client. A duration is a natural number, so of the tests of `_duration`
-- the one for a positive number is left. The subscription iterator that `subscribe` makes, and the
-- registration of the handlers on the connection, are left out.
pub mod Handles
pub mod Batch
use fitz_py.Prelude.{
  ℕ, zero, suc, String, Bool, true, false, not, ◌&&◌, ◌||◌, [], ◌∷◌, List, ltb, leb, ◌==◌, bit,
  if◌then◌else◌, Option, none, some, length, any, is_empty,
}
use fitz_py.Prelude.Bytes.{Bytes, to_bytes}
use fitz_py.Errors.{Error, queue, domain_error, stale_handle, value_error, Result}
use fitz_py.Exec.{Exec, pure, raise, gets, lift, guard, ◌>>=◌, ◌>>◌}
use fitz_py.Text.{Str, codes, contains}
use fitz_py.Protocol.Buffer.{
  Writer, written, write_u8, write_u32_be, write_u64_be, write_bytes, write_route, Reader, read_u8,
  read_u32_be, read_u64_be, read_bytes, read_route, remaining_bytes, is_eof,
}
use fitz_py.Protocol.Response.{Response, parse_response}
use fitz_py.Protocol.Extensions.{encode_payload}
use fitz_py.Protocol.Messages.{
  msg_queue_enqueue, msg_queue_reserve, msg_queue_complete, msg_queue_nack, msg_queue_extend,
  msg_queue_subscribe, msg_queue_unsubscribe,
}
use fitz_py.Domains.Routes.{is_exact_route_shape, is_selector_route_shape}
use fitz_py.Domains.Link.{
  Link, request_frame, request_frame_with_flags, succeeded, succeeded_coded, invalid_response,
  reading,
}

pub record Availability : Type 0 where
  pub route : Str
  pub ready : ℕ
  pub delayed : ℕ
  pub inflight : ℕ

pub record QueueItem : Type 0 where
  pub route : Str
  pub body : Bytes
  pub id : ℕ
  pub token : ℕ
  pub generation : ℕ
  pub closed : Bool

unfoldable pub exact : Str → Exec Link Unit
exact route =
    guard (is_exact_route_shape route (codes "queue") 3)
      (domain_error queue "INVALID_ROUTE" none none none)

unfoldable pub selector : Str → Exec Link Unit
selector route =
    guard (is_selector_route_shape route (codes "queue") 3 true false)
      (domain_error queue "INVALID_ROUTE" none none none)

-- `_duration(value, name, positive=True)`
unfoldable pub positive : ℕ → Exec Link Unit
positive value = guard (ltb 0 value) value_error

unfoldable pub ttl : Option ℕ → Exec Link Unit
ttl none = pure tt
ttl (some hours) = guard (leb 1 hours && leb hours 0xFFFF_FFFF) value_error

-- `_require_capability`
unfoldable pub require_capability : ℕ → Exec Link Unit
require_capability capability_id = do
  ids ← gets (λ s. s.capability_ids)
  guard (any (λ id. id == capability_id) ids)
      (domain_error queue "UNSUPPORTED_CAPABILITY" none none none)

abbrev require_ttl : Option ℕ → Exec Link Unit
require_ttl none = pure tt
require_ttl (some hours) = do ttl (some hours); require_capability 1

-- `delay or 0`
abbrev pub seconds : Option ℕ → ℕ
seconds none = 0
seconds (some delay) = delay

abbrev pub write_delay : ℕ → Writer Unit
write_delay delay = if delay == 0 then pure tt else write_u64_be delay

unfoldable pub enqueue_payload : Str → Bytes → ℕ → Writer Unit
enqueue_payload route body delay = do
  write_route route
  write_u32_be (length body)
  write_bytes body
  write_u8 (bit (ltb 0 delay))
  write_delay delay

abbrev send_enqueue : Bytes → Option ℕ → Exec Link Bytes
send_enqueue payload none = request_frame msg_queue_enqueue payload
send_enqueue payload (some hours) = do
  extended ← lift (encode_payload payload ((1, to_bytes 4 hours) ∷ []))
  request_frame_with_flags msg_queue_enqueue extended 4

-- The item id of a response.
unfoldable pub read_id : Reader ℕ
read_id = do n ← remaining_bytes; if n == 8 then read_u64_be else raise (invalid_response queue)

unfoldable pub enqueue : Str → Bytes → Option ℕ → Option ℕ → Exec Link ℕ
enqueue route body delay ttl_hours = do
  exact route
  require_ttl ttl_hours
  payload ← lift (written (enqueue_payload route body (seconds delay)))
  raw ← send_enqueue payload ttl_hours
  response ← lift (parse_response raw)
  succeeded queue "ENQUEUE" response
  reading read_id response.content

abbrev valid_batch : Option ℕ → Bool
valid_batch none = true
valid_batch (some n) = leb 1 n && leb n 1024

-- `batch_size or 1`
abbrev batch : Option ℕ → ℕ
batch none = 1
batch (some n) = if n == 0 then 1 else n

unfoldable pub reserve_payload : Str → ℕ → ℕ → ℕ → Writer Unit
reserve_payload route lease size wait = do
  write_route route
  write_u64_be lease
  write_u8 1
  write_u32_be size
  write_u8 (bit (ltb 0 wait))
  write_delay wait

abbrev pub item_route : Bool → Str → Reader Str
item_route wildcard route = if wildcard then read_route else pure route

unfoldable pub read_found : Str → ℕ → Reader QueueItem
read_found found generation = do
  id ← read_u64_be
  token ← read_u64_be
  size ← read_u32_be
  body ← read_bytes size
  pure (record {
    route = found;
    body = body;
    id = id;
    token = token;
    generation = generation;
    closed = false;
  })

unfoldable pub read_item : Bool → Str → ℕ → Reader QueueItem
read_item wildcard route generation = do
  found ← item_route wildcard route
  if is_exact_route_shape found (codes "queue") 3
      then read_found found generation
      else raise (invalid_response queue)

unfoldable pub read_items : ℕ → Bool → Str → ℕ → Reader (List QueueItem)
read_items zero wildcard route generation = pure []
read_items (suc count) wildcard route generation = do
  item ← read_item wildcard route generation
  items ← read_items count wildcard route generation
  pure (item ∷ items)

abbrev pub counted_items : Bool → Str → ℕ → Reader (List QueueItem)
counted_items wildcard route generation = do
  count ← read_u32_be
  items ← read_items count wildcard route generation
  eof ← is_eof
  if eof then pure items else raise (invalid_response queue)

unfoldable pub read_batch : Bool → Str → ℕ → Reader (List QueueItem)
read_batch wildcard route generation = do
  eof ← is_eof
  if eof then pure [] else counted_items wildcard route generation

unfoldable pub reserve : Str → ℕ → Option ℕ → Option ℕ → Exec Link (List QueueItem)
reserve route lease batch_size wait = do
  selector route
  positive lease
  guard (valid_batch batch_size) value_error
  payload ← lift (written (reserve_payload route lease (batch batch_size) (seconds wait)))
  raw ← request_frame msg_queue_reserve payload
  response ← lift (parse_response raw)
  succeeded queue "RESERVE" response
  generation ← gets (λ s. s.generation)
  reading (read_batch (contains 42 route) route generation) response.content

-- The parts that `_complete`, `_nack`, `_extend` and `_unsubscribe_wire` share.
unfoldable pub acknowledged : String → ℕ → Writer Unit → Exec Link Unit
acknowledged operation message_type payload = do
  bs ← lift (written payload)
  raw ← request_frame message_type bs
  response ← lift (parse_response raw)
  succeeded_coded queue operation response
  guard (is_empty response.content) (invalid_response queue)

unfoldable pub handle_payload : Str → ℕ → ℕ → Writer Unit
handle_payload route id token = do write_route route; write_u64_be id; write_u64_be token

-- `_complete`
unfoldable pub complete_wire : Str → ℕ → ℕ → Exec Link Unit
complete_wire route id token =
    acknowledged "COMPLETE" msg_queue_complete (handle_payload route id token)

-- `_nack`
unfoldable pub nack_wire : Str → ℕ → ℕ → ℕ → Exec Link Unit
nack_wire route id token visibility = do
  require_capability 2
  acknowledged "NACK" msg_queue_nack (do handle_payload route id token; write_u64_be visibility)

-- `_extend`
unfoldable pub extend_wire : Str → ℕ → ℕ → ℕ → Exec Link Unit
extend_wire route id token lease = do
  positive lease
  acknowledged "EXTEND" msg_queue_extend (do handle_payload route id token; write_u64_be lease)

-- `_ensure_valid`
unfoldable pub ensure_valid : QueueItem → Exec Link Unit
ensure_valid item = do
  generation ← gets (λ s. s.generation)
  guard (not (item.closed || not (item.generation == generation))) (stale_handle "Queue item")

-- The methods of a handle return the handle as they leave it; one that raises leaves it unchanged.
unfoldable pub extend : QueueItem → ℕ → Exec Link QueueItem
extend item lease = do ensure_valid item; extend_wire item.route item.id item.token lease; pure item

unfoldable pub complete : QueueItem → Exec Link QueueItem
complete item = do
  ensure_valid item
  complete_wire item.route item.id item.token
  pure (record item { closed = true })

unfoldable pub nack : QueueItem → ℕ → Exec Link QueueItem
nack item visibility = do
  ensure_valid item
  nack_wire item.route item.id item.token visibility
  pure (record item { closed = true })

abbrev read_subscription : Reader ℕ
read_subscription = do
  flag ← read_u8
  guard (flag == 1) (invalid_response queue)
  id ← read_u64_be
  eof ← is_eof
  guard eof (invalid_response queue)
  pure id

-- `_subscribe_wire`
unfoldable pub subscribe_wire : Str → Exec Link ℕ
subscribe_wire route = do
  bs ← lift (written (write_route route))
  raw ← request_frame msg_queue_subscribe bs
  response ← lift (parse_response raw)
  succeeded_coded queue "SUBSCRIBE" response
  reading read_subscription response.content

-- `_unsubscribe_wire`
unfoldable pub unsubscribe_wire : Str → Exec Link Unit
unsubscribe_wire route = acknowledged "UNSUBSCRIBE" msg_queue_unsubscribe (write_route route)

-- `_notify`: what is published, and under which subscription.
unfoldable pub notify : Reader (ℕ × Availability)
notify = do
  sub_id ← read_u64_be
  route ← read_route
  ready ← read_u64_be
  delayed ← read_u64_be
  inflight ← read_u64_be
  eof ← is_eof
  guard eof (invalid_response queue)
  pure (sub_id, record { route = route; ready = ready; delayed = delayed; inflight = inflight })
