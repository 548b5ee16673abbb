-- ===== src/Lib.antt =====
-- A model of fitz-py, the Python client of the Fitz broker, and proofs about it.
--
-- The program. A client (client.py) owns a connection (connection.py), which frames requests, sends
-- them over a transport and hands what comes back to a multiplexer (multiplexer.py). The multiplexer
-- gives every request a correlation id and resolves its future when the answer comes. A gate
-- (_runtime.py) bounds the requests in flight and those that wait. The clients of the services
-- (domains/) build payloads with a writer, read answers with a reader (protocol/), and share one
-- registration with the broker among many local consumers (domains/_subscriptions.py).
--
-- The files. Paths are those of src/fitz_py/ in the repository.
--   Prelude           Boolean tests, lists and dictionaries over the native numbers, bytes
--   Errors, Exec      errors.py: exceptions as values; methods as functions of a state that return
--                     or raise; Errors.Retry is `is_retryable`
--   Text              Python's str as code points, and its UTF-8 encoding
--   Protocol.Buffer   protocol/buffer.py: `BufferWriter` and `BufferReader`, method by method
--   Protocol.Frame    protocol/frame.py: `encode_frame`, `decode_frame`, `parse_frames`
--   Protocol.Response protocol/response.py: `parse_response`
--   Protocol.Messages protocol/messages.py: the message numbers
--   Protocol.Extensions  protocol/extensions.py: capability lists and extension fields
--   Runtime.Gate      _runtime.py, `RequestGate`: a world of the gate, the futures of the waiting
--                     callers and the tokens handed out; its events are calls, tasks that run on,
--                     cancellations, releases and the closing
--   Runtime.Dispatcher, Runtime.Subscription, Runtime.Lazy
--                     _runtime.py: `AsyncDispatcher`, `AsyncSubscription`, and the two lazy wrappers
--   Multiplexer       multiplexer.py: requests are objects on a heap, shared by the dictionary and
--                     the coroutine of the request
--   Connection        connection.py: the state of a connection, with a transport named by its number;
--                     Inbound is `_dispatch_transport_frame`, Outbound a request up to the transport,
--                     Lifecycle opening, losing and closing as events, with what `_reconnect_loop`
--                     writes (Retry); Lifecycle.Reconnect is the loop itself
--   Domains.Routes    domains/_routes.py: the shapes of routes and selectors
--   Domains.Link      domains/base.py and `run_with_retry` of connection.py
--   Domains.Queue, Domains.Kv  domains/queue.py and domains/kv.py
--   Domains.Schedule           domains/schedule.py
--   Domains.Stream             domains/stream.py: Records are its readers, Session the append session,
--                              Client the operations of the client
--   Domains.Notice             domains/notice.py, over the state of the subscription registry
--   Domains.Lease              domains/lease.py: Client has the requests and the handle `Lease`, Acquire
--                              the calls of `acquire`, their lock and the deque `_queued` as events,
--                              Observer `LeaseInventoryObserver` as events
--   Domains.Rpc                domains/rpc.py: Frames are the payloads, Sender is `ResponseWriter`, Calls
--                              `RPCCall` with what `RPCClient` keeps of it, as events, and
--                              Invocations the run of a handler
--   Domains.Subscriptions      domains/_subscriptions.py
--   Examples          the theorems at concrete inputs
-- A file with children keeps the definitions, and most children prove.
--
-- How they meet. A request of a client goes through `Connection.request`: the gate admits it, the
-- multiplexer gives it an id, and the frame goes to the transport; what the transport gets goes
-- through Connection.Inbound back to the multiplexer, and Outbound.Answered follows a request all the
-- way. In the clients the connection is a script of replies, any script: what a request comes back
-- with, and whether the transport was lost meanwhile.
--
-- Conventions. Bytes, durations, ids and limits are native natural numbers, and a field of `n` bytes
-- takes a value below `256 ^ n`; a negative number or a value of a wrong type has no counterpart. The
-- text of a message is not modelled. A coroutine is cut at its `await`s: each part is one operation,
-- what the `await` comes back with is an argument or an event, and an interleaving is a list of
-- events.
--
-- Fuel. The loop over extension fields has as fuel the number of bytes and one more, and every
-- round takes six bytes at least. The loop over the entries of a schedule page has the number of
-- bytes left and one more, and every round takes one. The loop over the pages of the lease list has
-- the number of answers in the script and one more, and every page takes one; past the last answer
-- of the script a request raises, while the source goes on as long as the broker gives cursors: that
-- a listing ends is not claimed. The loop of reconnect
-- attempts has any fuel; one more than the limit on the attempts is enough, and without a limit it
-- need not end.
--
-- Not modelled: the transports, the heartbeat, listeners, logs and metrics; the configuration (its
-- times are floating-point numbers) beyond the limits that the connection decides by; the JSON body
-- of a stream notification; `scan_all` of a key-value transaction; of the lease client the renewal
-- on a clock (`ManagedLease`); of the rpc client the registration of workers. In the lease and rpc
-- clients a deadline or a timer is an event that may come at any time, and the correlation ids of
-- calls, 16 random bytes, are taken as distinct.
mod Prelude
pub mod Errors
pub mod Exec
pub mod Text
pub mod Protocol
pub mod Runtime
pub mod Multiplexer
pub mod Connection
pub mod Domains
mod Examples
