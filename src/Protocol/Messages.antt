-- ===== src/Protocol/Messages.antt =====
-- protocol/messages.py: the numbers of the message types, and the reserved capability bits.
use fitz_py.Prelude.{ℕ}

abbrev pub msg_connect : ℕ
msg_connect = 1

abbrev pub msg_hello : ℕ
msg_hello = 2

abbrev pub msg_connect_rejected : ℕ
msg_connect_rejected = 3

abbrev pub msg_goaway : ℕ
msg_goaway = 4

abbrev pub msg_correlate : ℕ
msg_correlate = 0

abbrev pub msg_correlated : ℕ
msg_correlated = 0

abbrev pub msg_server_hello : ℕ
msg_server_hello = msg_hello

abbrev pub msg_session_metadata : ℕ
msg_session_metadata = 0

abbrev pub cap_session_metadata : ℕ
cap_session_metadata = 0

abbrev pub cap_correlation : ℕ
cap_correlation = 0

abbrev pub cap_rpc_cancellation : ℕ
cap_rpc_cancellation = 0

abbrev pub msg_kv_begin : ℕ
msg_kv_begin = 100

abbrev pub msg_kv_commit : ℕ
msg_kv_commit = 101

abbrev pub msg_kv_rollback : ℕ
msg_kv_rollback = 102

abbrev pub msg_kv_get : ℕ
msg_kv_get = 103

abbrev pub msg_kv_put : ℕ
msg_kv_put = 104

abbrev pub msg_kv_insert : ℕ
msg_kv_insert = 105

abbrev pub msg_kv_delete : ℕ
msg_kv_delete = 106

abbrev pub msg_kv_delete_range : ℕ
msg_kv_delete_range = 107

abbrev pub msg_kv_scan : ℕ
msg_kv_scan = 108

abbrev pub msg_kv_subscribe : ℕ
msg_kv_subscribe = 109

abbrev pub msg_kv_unsubscribe : ℕ
msg_kv_unsubscribe = 110

abbrev pub msg_kv_notify : ℕ
msg_kv_notify = 111

abbrev pub msg_queue_enqueue : ℕ
msg_queue_enqueue = 200

abbrev pub msg_queue_reserve : ℕ
msg_queue_reserve = 202

abbrev pub msg_queue_extend : ℕ
msg_queue_extend = 203

abbrev pub msg_queue_complete : ℕ
msg_queue_complete = 204

abbrev pub msg_queue_subscribe : ℕ
msg_queue_subscribe = 207

abbrev pub msg_queue_unsubscribe : ℕ
msg_queue_unsubscribe = 208

abbrev pub msg_queue_notify : ℕ
msg_queue_notify = 209

abbrev pub msg_queue_nack : ℕ
msg_queue_nack = 210

abbrev pub msg_queue_availability_notify : ℕ
msg_queue_availability_notify = msg_queue_notify

abbrev pub msg_rpc_subscribe_worker : ℕ
msg_rpc_subscribe_worker = 300

abbrev pub msg_rpc_unsubscribe_worker : ℕ
msg_rpc_unsubscribe_worker = 301

abbrev pub msg_rpc_request : ℕ
msg_rpc_request = 302

abbrev pub msg_rpc_response : ℕ
msg_rpc_response = 303

abbrev pub msg_rpc_cancellation : ℕ
msg_rpc_cancellation = 304

abbrev pub msg_rpc_lifecycle : ℕ
msg_rpc_lifecycle = 305

abbrev pub msg_lease_acquire : ℕ
msg_lease_acquire = 400

abbrev pub msg_lease_renew : ℕ
msg_lease_renew = 401

abbrev pub msg_lease_extend : ℕ
msg_lease_extend = msg_lease_renew

abbrev pub msg_lease_release : ℕ
msg_lease_release = 402

abbrev pub msg_lease_query : ℕ
msg_lease_query = 403

abbrev pub msg_lease_subscribe : ℕ
msg_lease_subscribe = 407

abbrev pub msg_lease_unsubscribe : ℕ
msg_lease_unsubscribe = 408

abbrev pub msg_lease_notify : ℕ
msg_lease_notify = 409

abbrev pub msg_lease_list : ℕ
msg_lease_list = 410

abbrev pub msg_notice_publish : ℕ
msg_notice_publish = 500

abbrev pub msg_notice_subscribe : ℕ
msg_notice_subscribe = 501

abbrev pub msg_notice_unsubscribe : ℕ
msg_notice_unsubscribe = 502

abbrev pub msg_notice_unsubscribe_all : ℕ
msg_notice_unsubscribe_all = 503

abbrev pub msg_notice_notify : ℕ
msg_notice_notify = 504

abbrev pub msg_stream_begin : ℕ
msg_stream_begin = 600

abbrev pub msg_stream_append : ℕ
msg_stream_append = 601

abbrev pub msg_stream_commit : ℕ
msg_stream_commit = 602

abbrev pub msg_stream_rollback : ℕ
msg_stream_rollback = 603

abbrev pub msg_stream_read : ℕ
msg_stream_read = 604

abbrev pub msg_stream_last : ℕ
msg_stream_last = 605

abbrev pub msg_stream_get_metadata : ℕ
msg_stream_get_metadata = 606

abbrev pub msg_stream_subscribe : ℕ
msg_stream_subscribe = 607

abbrev pub msg_stream_unsubscribe : ℕ
msg_stream_unsubscribe = 608

abbrev pub msg_stream_notify : ℕ
msg_stream_notify = 609

abbrev pub msg_schedule_create : ℕ
msg_schedule_create = 700

abbrev pub msg_schedule_cancel : ℕ
msg_schedule_cancel = 701

abbrev pub msg_schedule_list : ℕ
msg_schedule_list = 702

abbrev pub msg_schedule_subscribe : ℕ
msg_schedule_subscribe = 703

abbrev pub msg_schedule_unsubscribe : ℕ
msg_schedule_unsubscribe = 704

abbrev pub msg_schedule_notify : ℕ
msg_schedule_notify = 705

abbrev pub msg_schedule_create_batch : ℕ
msg_schedule_create_batch = 706

abbrev pub msg_schedule_list_v2 : ℕ
msg_schedule_list_v2 = msg_schedule_list
