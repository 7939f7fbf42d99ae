-- ===== src/Lib.antt =====
-- Models of the Wazeko client library, a TypeScript client for a chat service, and the theorems
-- about them.
--
-- The parts and how they interact. A client (`Wazeko`) holds credentials, a connection state, an
-- event queue and a binary encoder. The groups and the messaging build protocol nodes and hand
-- them to the client, which encodes them and emits messages as events. The command registry finds
-- the command of a message and runs it behind a pipeline of middlewares. The message queue takes
-- messages with a priority and a number of retries, has the rate limiter delay them, and hands them
-- to a sender. JIDs name users and groups and are written and parsed as texts. Below them the core
-- has the Noise handshake, whose keys cipher the frames of a connection, the Signal sessions that
-- cipher messages, and the encryption of media. The credentials of a client are kept by an auth
-- store, of which there are four, and backed up from it. A logger writes lines of JSON, a monitor
-- answers requests from the state of the client, the queue and the registry, and a cleanup removes
-- old temporary files. The constructor of the client puts the parts together.
--
-- Which file models what:
--   Prelude, Text, Map            shared lists, tests, code points, UTF-8, decimal numbers, maps
--   Protocol/Tokens               packages/wazeko-protocol/src/tokens.ts
--   Protocol/Node, Attributes     packages/wazeko-protocol/src/node.ts; attributes are the entries
--                                 of an object in the order of `Object.entries`
--   Protocol/Encoder              packages/wazeko-protocol/src/encoder.ts; a writer takes the buffer
--                                 and returns it, or the error with what was written
--   Protocol/Decoder              packages/wazeko-protocol/src/decoder.ts; a read takes the offset
--                                 and returns a value with the next one, or an error
--   Protocol/Transfer, Validity   what is written and read of each kind, and which nodes fit
--   Types/Jid, Message, Group, Events
--                                 packages/wazeko-types/src
--   Queue/RateLimiter             packages/wazeko/src/queue/rate-limiter.ts
--   Queue/Job                     packages/wazeko/src/queue/types.ts
--   Queue/MessageQueue, Machine   packages/wazeko/src/queue/message-queue.ts; `processJob` is cut at
--                                 each `await`, and `Machine.step` is the event that resumes it
--   Transport/Reconnect           packages/wazeko-transport/src/reconnect.ts
--   Events                        packages/wazeko/src/events.ts
--   Client, Client/Lifecycle      packages/wazeko/src/client.ts
--   Client/Wiring                 the constructor of packages/wazeko/src/client.ts and the methods
--                                 that hand a call on: commands act on the client and its
--                                 queue; Wiring/Shutdown is about the monitor, and
--                                 Wiring/Quiet about a send that no command notices
--   Client/Groups                 packages/wazeko/src/groups.ts; Participants and Delivery are
--                                 about the bytes of its requests
--   Client/Messaging              packages/wazeko/src/messaging.ts
--   Plugins/Middleware            packages/wazeko/src/plugins/middleware.ts; a middleware is the
--                                 program of its steps, Cooldown has two of the guards, and Served
--                                 and Spacing are about what passes one of them
--   Core/Errors, Bytes, Rows      packages/wazeko-core/src/errors.ts, and what `Uint8Array` does
--   Core/Crypto                   packages/wazeko-core/src/crypto.ts, over node's module `crypto`
--   Core/Noise                    packages/wazeko-core/src/noise.ts; Handshake and Frames are its proofs
--   Core/Signal                   packages/wazeko-core/src/signal.ts; Sessions, PreKeys and Store are
--                                 its proofs
--   Core/Media                    packages/wazeko-core/src/media.ts
--   Core/Session                  packages/wazeko-core/src/session.ts and device.ts
--   Auth/Store                    packages/wazeko-auth/src/store.ts: the contract of a store, and the
--                                 one in memory
--   Auth/Disk                     node's `fs/promises` and `path`, as the stores use them
--   Auth/FileStore                packages/wazeko-auth/src/store.ts, `FileAuthStore`
--   Auth/AtomicFile               packages/wazeko-auth/src/atomic-file-store.ts; Course follows a save
--                                 call by call, Crash ends it between two, and Unchecked is about
--                                 the store without checksums
--   Auth/KeyValue                 packages/wazeko-auth/src/db-store.ts
--   Auth/Backup                   packages/wazeko-auth/src/session-backup.ts
--   Auth/Pairing                  packages/wazeko-auth/src/pairing.ts and qr.ts
--   Plugins/CommandRegistry       packages/wazeko/src/plugins/command-loader.ts; Dispatch has the loading
--                                 of files and the handling of messages
--   Media/Stream                  packages/wazeko/src/media/stream-handler.ts
--   Transport/WebSocket           packages/wazeko-transport/src/websocket.ts; `step` is the listener of
--                                 an event, or a call
--   Client/Builder                packages/wazeko/src/builder.ts and config.ts
--   Observability/Logger          packages/wazeko/src/observability/logger.ts
--   Observability/Reports, Monitoring
--                                 packages/wazeko/src/observability/monitoring-server.ts
--   Media/Cleanup                 packages/wazeko/src/media/ttl-cleanup.ts
--
-- Bounds and fuel. The decoder recurses on fuel for the depth of nodes, and the depth of the node
-- is enough. The loop of `triggerProcessing` has as many rounds as jobs wait, which is enough since
-- each round takes one. All other functions recurse on their data.
--
-- Given from outside. The clock, random draws, generated keys and ids are arguments. The numbers of
-- the reconnect manager are of an abstract type. The sender of the queue is the events by which its
-- promises settle. Listeners of an `EventEmitter` are a log of what they were called with, and are
-- taken neither to throw nor to call back, but for the one that runs commands, in Client/Wiring, and
-- for errors that no one listens for, in Transport/WebSocket. The agents and devices of JIDs are safe
-- integers. The system picks the port of a monitor whose port is 0. The primitives of node's `crypto`, `JSON`, the file system, the paths, a
-- database, a backup provider and node's streams are records of functions, with their laws as
-- hypotheses: digests and derived keys have their lengths, a cipher undoes what it did, a disk that
-- works reads what was written. Core/Plain, Auth/Disk/Memory and the examples show that the laws can
-- hold.
--
-- Not modelled: the shapes of protobuf messages, which nothing uses, and the demonstration programs;
-- what a command does behind an `await` that takes time, and to the registry, the logger and the
-- monitor.
pub mod Prelude
pub mod Text
pub mod Map
pub mod Protocol
pub mod Types
pub mod Queue
pub mod Transport
pub mod Events
pub mod Auth
pub mod Client
pub mod Plugins
pub mod Media
pub mod Observability
pub mod Core
