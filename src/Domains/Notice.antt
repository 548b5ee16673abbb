-- ===== src/Domains/Notice.antt =====
-- domains/notice.py: the notice client. Its subscriptions are kept as the registry of
-- domains/_subscriptions.py keeps them, a pattern in place of a registration, and the state of
-- that model serves here; where the code of the two is the same, so is the operation. The iterator
-- that `subscribe` makes, the cleanup tasks, and the registration of the handlers on the connection
-- are left out.
use fitz_py.Prelude.{
  ℕ, Bool, true, false, [], ◌∷◌, List, ◌==◌, if◌then◌else◌, Option, none, some, length,
}
use fitz_py.Prelude.Bytes.{Bytes}
use fitz_py.Prelude.Dict.{Dict, get, put, nat_key}
use fitz_py.Errors.{Error, Result, ok, err, notice, domain_error, cancelled}
use fitz_py.Exec.{Exec, pure, lift, guard, ◌>>=◌, ◌>>◌}
use fitz_py.Text.{Str, codes, str_key}
use fitz_py.Protocol.Buffer.{
  Writer, written, write_u32_be, write_u64_be, write_bytes, write_route, Reader, read_u8,
  read_u32_be, read_u64_be, read_bytes, read_route, is_eof,
}
use fitz_py.Protocol.Response.{parse_response}
use fitz_py.Protocol.Messages.{
  msg_notice_publish, msg_notice_subscribe, msg_notice_unsubscribe, msg_notice_unsubscribe_all,
}
use fitz_py.Domains.Routes.{is_exact_route_shape, is_selector_route_shape}
use fitz_py.Domains.Link.{
  Link, call, request_frame, request_frame_with_flags, succeeded, no_data, invalid_response,
  reading,
}
use fitz_py.Domains.Subscriptions.{
  WireSubscription, SubscriptionRegistry, push_all, live, append_bounded, subscribe,
  fail_registration, restore_one, terminate,
}

pub record Notice : Type 0 where
  pub route : Str
  pub body : Bytes

abbrev pub invalid_route : Error
invalid_route = domain_error notice "INVALID_ROUTE" none none none

-- What both forms of `publish` write.
unfoldable pub notice_payload : Str → Bytes → Writer Unit
notice_payload route body = do write_route route; write_u32_be (length body); write_bytes body

unfoldable pub check_route : {S : Type 0} → Str → Exec S Unit
check_route route = guard (is_exact_route_shape route (codes "notice") 3) invalid_route

-- `publish`, up to `Connection.send`: the payload that it is called with.
unfoldable pub publish : Str → Bytes → Result Bytes
publish route body = written (do check_route route; notice_payload route body)

unfoldable pub publish_with_ack : Str → Bytes → Exec Link Unit
publish_with_ack route body = do
  check_route route
  payload ← lift (written (notice_payload route body))
  raw ← request_frame_with_flags msg_notice_publish payload 1
  response ← lift (parse_response raw)
  succeeded notice "PUBLISH" response
  no_data notice response

unfoldable pub read_subscription : Reader ℕ
read_subscription = do
  flag ← read_u8
  guard (flag == 1) (invalid_response notice)
  sub_id ← read_u64_be
  eof ← is_eof
  guard eof (invalid_response notice)
  pure sub_id

-- `_subscribe_wire`
unfoldable pub subscribe_wire : Str → Exec Link ℕ
subscribe_wire pattern = do
  response ← call msg_notice_subscribe (write_route pattern)
  succeeded notice "SUBSCRIBE" response
  reading read_subscription response.content

-- `unsubscribe`, inside the `close` of a consumer; the rest of `close` is `leave` and `left_wire`.
unfoldable pub unsubscribe_wire : ℕ → Exec Link Unit
unsubscribe_wire sub_id = do
  response ← call msg_notice_unsubscribe (write_u64_be sub_id)
  succeeded notice "UNSUBSCRIBE" response
  no_data notice response

-- The request of `unsubscribe_all`.
unfoldable pub unsubscribe_all_wire : Exec Link Unit
unsubscribe_all_wire = do
  raw ← request_frame msg_notice_unsubscribe_all []
  response ← lift (parse_response raw)
  succeeded notice "UNSUBSCRIBE_ALL" response
  no_data notice response

-- What `_notify` reads.
unfoldable pub read_notice : Reader (ℕ × Notice)
read_notice = do
  sub_id ← read_u64_be
  route ← read_route
  size ← read_u32_be
  body ← read_bytes size
  eof ← is_eof
  guard eof (invalid_response notice)
  pure (sub_id, record { route = route; body = body })

abbrev pub is_selector : Str → Bool
is_selector pattern = is_selector_route_shape pattern (codes "notice") 3 true false

module _ {T : Type 0} where
  -- `open_subscription`, when `_subscribe_wire` comes back with `answer` if it is called.
  unfoldable pub open_subscription :
      Str → Result ℕ → SubscriptionRegistry T → Result ℕ × SubscriptionRegistry T
  open_subscription pattern answer r =
      if is_selector pattern then subscribe pattern answer r else (err invalid_route, r)

  -- `unsubscribe_all`, after its request returned. What waits for an unknown id stays.
  unfoldable pub unsubscribed_all : SubscriptionRegistry T → SubscriptionRegistry T
  unsubscribed_all r = record (terminate none r) { pending = r.pending }

  -- `self._by_pattern.get(pattern) if pattern is not None else None`
  abbrev pub state_of : Option Str → SubscriptionRegistry T → Option WireSubscription
  state_of none r = none
  state_of (some pattern) r = get pattern r.by_registration

  unfoldable pub delivered :
      Option Str → Option WireSubscription → ℕ → T → SubscriptionRegistry T → SubscriptionRegistry T
  delivered (some pattern) (some w) sub_id x r = record r {
    by_registration =
        put pattern (record w { consumers = live w.consumers x r.heap }) r.by_registration;
    heap = push_all w.consumers x r.heap;
  }
  delivered pattern state sub_id x r = record r {
    pending = append_bounded r.capacity (sub_id, x) r.pending;
  }

  -- `_notify`, from the looking up of the id.
  unfoldable pub notify : ℕ → T → SubscriptionRegistry T → SubscriptionRegistry T
  notify sub_id x r =
      let pattern = get sub_id r.by_id in delivered pattern (state_of pattern r) sub_id x r

  -- `_restore`, for one pattern: the body of the loop after `_subscribe_wire`. The consumers get the
  -- error itself.
  unfoldable pub restore_pattern :
      Str → ℕ → Result ℕ → SubscriptionRegistry T → SubscriptionRegistry T
  restore_pattern pattern old_id (err e) r = fail_registration pattern e r
  restore_pattern pattern old_id (ok new_id) r = restore_one "notice" pattern old_id (ok new_id) r

  -- The loop of `_restore`, with the answers in order; a cancellation ends it.
  unfoldable pub restore_loop :
      Dict Str WireSubscription → List (Result ℕ) → SubscriptionRegistry T → SubscriptionRegistry T
  restore_loop [] answers r = r
  restore_loop (w ∷ ws) [] r = r
  restore_loop (w ∷ ws) (err cancelled ∷ answers) r = r
  restore_loop ((pattern, w) ∷ ws) (answer ∷ answers) r =
      restore_loop ws answers (restore_pattern pattern w.sub_id answer r)
