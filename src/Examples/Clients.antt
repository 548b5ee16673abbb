-- ===== src/Examples/Clients.antt =====
-- The clients of the services at concrete inputs.
use fitz_py.Prelude.{ℕ, ◌≡◌, refl, inl, [], ◌∷◌, List, true, false, some, arith}
use fitz_py.Prelude.Bytes.{to_bytes, from_bytes}
use fitz_py.Prelude.Dict.{get, nat_key}
use fitz_py.Errors.{ok}
use fitz_py.Text.{codes, str_key}
use fitz_py.Text.Utf8.{encode_utf8, encode_point}
use fitz_py.Protocol.Buffer.{
  write_route, write_string, write_u32_be, write_u64_be, write_uint, write_bytes, reserve, splice,
  pack_into, grow, build, new_writer, read_u8, read_uint, read, remaining, is_eof,
}
use fitz_py.Runtime.Subscription.{item}
use fitz_py.Domains.Link.{Link, request_frame, request_frame_with_flags, succeeded_coded}
use fitz_py.Protocol.Response.{parse_response}
use fitz_py.Domains.Queue.{
  QueueItem, complete, ensure_valid, complete_wire, acknowledged, handle_payload,
}
use fitz_py.Domains.Queue.Handles.{IsStale, settled_once}
use fitz_py.Domains.Subscriptions.{SubscriptionRegistry, subscribe, restore_one, of_id}
use fitz_py.Domains.Subscriptions.Early.{AreUnknown, publish_each, subscribe-early}
use fitz_py.Domains.Subscriptions.Restored.{get-restore_one}
use fitz_py.Domains.Kv.{KvTransaction, commit, rollback}
use fitz_py.Domains.Kv.Settled.{IsRefused, commit-IsRefused}

abbrev link : Link
link = record {
  generation = 4;
  capability_ids = 1 ∷ 2 ∷ [];
  replies = record { answer = ok (0 ∷ []); generation = 4; lost = false } ∷ [];
  sent = [];
  lost = false;
  attempts = 1;
}

abbrev job : QueueItem
job = record {
  route = codes "queue://a/b/c";
  body = 5 ∷ [];
  id = 8;
  token = 9;
  generation = 4;
  closed = false;
}

job_completes : (complete job link).0 ≡ ok (record job { closed = true })
unfolding complete ensure_valid complete_wire acknowledged handle_payload request_frame
    request_frame_with_flags write_route write_string write_u32_be write_u64_be write_uint
    write_bytes reserve splice pack_into grow build new_writer to_bytes encode_utf8 encode_point
    parse_response succeeded_coded read_u8 read_uint read remaining is_eof from_bytes
job_completes = refl

settled_once_example : IsStale (record job { closed = true }) link
settled_once_example =
    settled_once job (record job { closed = true }) 0 link (inl job_completes) link

abbrev registry : SubscriptionRegistry ℕ
registry = record { capacity = 2; by_registration = []; by_id = []; pending = []; heap = [] }

abbrev early : List (ℕ × ℕ)
early = (7, 30) ∷ (7, 31) ∷ (6, 32) ∷ []

early-AreUnknown : AreUnknown early registry
unfolding get
early-AreUnknown = (refl, (refl, (refl, tt)))

subscribe-early_example :
    (subscribe (codes "queue://a/*") (ok 7) (publish_each early registry)).1.heap
    ≡ record { capacity = 2; queue = item 31 ∷ []; closed = false; wire_closed = false } ∷ []
unfolding get of_id
subscribe-early_example =
    subscribe-early (codes "queue://a/*") 7 early registry refl (omega arith) (omega arith)
      early-AreUnknown

get-restore_one_example :
    get 9 (restore_one "queue" (codes "queue://a/*") 7 (ok 9) registry).by_id
    ≡ some (codes "queue://a/*")
get-restore_one_example = get-restore_one "queue" (codes "queue://a/*") 7 9 9 registry

abbrev transaction : KvTransaction
transaction = record {
  connection = link;
  route = codes "kv://a/b/c";
  tx_id = 6;
  generation = 4;
  closed = false;
}

commit-IsRefused_example :
    IsRefused (commit true transaction).1 × IsRefused (rollback transaction).1
commit-IsRefused_example = commit-IsRefused true transaction
