-- ===== src/Lib.antt =====
-- Stunner's core (core/pkg): end-to-end encrypted messaging and file transfer between peers.
--
-- The program: an identity (an Ed25519 and an X25519 key) publishes prekeys; X3DH makes a shared
-- secret with a peer that has a bundle of them; a Double Ratchet session encrypts every message
-- under a key of its own; files travel as chunks sealed under a transfer key that the session
-- carries. The files here model these parts:
--
--   Base and its children: lists and bytes over the native numbers, association lists for Go maps,
--     `Result` for (value, error), and `Method` for methods on a pointer: a method that fails keeps
--     what it has written to the receiver until then.
--   Crypto/Primitives: what the code takes from Go's standard library (HMAC-SHA256, SHA-256, X25519,
--     Ed25519, AES-GCM, encoding/json) as parameters with the documented facts that are relied on.
--     Nothing is assumed of secrecy or of unforgeability.
--   Crypto/Kdf: core/pkg/crypto/kdf.go.
--   Crypto/Ratchet: core/pkg/crypto/ratchet.go and wire.go. The record `Ratchet` is the struct
--     `ratchet`; `encrypt`, `decrypt`, `try_skipped`, `skip`, `dh_ratchet` are its methods; the map of
--     skipped keys is an association list under the text keys of the source, which Ratchet/Text writes.
--   Crypto/X3dh: core/pkg/crypto/x3dh.go.
--   Crypto/Session: core/pkg/crypto/session.go. A session is a place in the heap of its store, so
--     the store's map and the holder of a session see the same ratchet.
--   Identity: core/pkg/identity.
--   FileTransfer: core/pkg/filetransfer, SealFile and OpenFile of core/pkg/crypto/crypto.go, and the
--     chunk count of core/pkg/node/file.go.
--   Contact: core/pkg/contact/contact.go, its book and, in Contact/Uri, its URIs.
--   Mailbox: core/pkg/mailbox/mailbox.go.
--   Vault: core/pkg/vault/vault.go. Account: core/pkg/account/account.go, over the identity file.
--   Settings: core/pkg/settings/settings.go. SafetyNumber: core/pkg/safetynumber/safetynumber.go.
--   Storage: core/pkg/storage/filestore.go, with the file on disk as a field of the state.
--   Signaling: core/pkg/signaling/memory.go, where a call that would wait on a channel fails and
--     changes nothing.
--   Dht: core/pkg/signaling/libp2p.go, the frames on its streams and the routing of answers.
--   Emoji: core/pkg/emoji, with text as its UTF-8 bytes.
--   Messaging: core/pkg/messaging. JSON is a parameter: `Codec` for types of byte strings and
--     numbers, `Json` where strings and times make its round trip conditional.
--   Transport: the interface of core/pkg/transport/transport.go and the pipe of inproc.go;
--     Transport/Pion: the WebRTC connections of pion.go. A call that would wait fails with
--     `would_block`; which case a `select` takes is an argument.
--   Node: core/pkg/node. Node, its children Connect (live.go), Mail (SendOffline, FetchOffline) and
--     File (SendFile, file.go); a method runs on the state of the node and of the connection, so that
--     two nodes on a pipe hand its state to each other. What the peer does while handshakeResponder
--     waits is an argument.
--   Runtime: core/pkg/runtime/runtime.go. The record `Engine` is the struct `Runtime`; each handler
--     is one turn of one goroutine, and Runtime/Reach has them as steps in any order. The outbox and
--     the loops that start links are in Runtime/Turns; SaveState, LoadState and the settings, over
--     Storage, in Runtime/State.
--
-- Randomness: a key or an id that the code draws is an argument of the operation that draws it. A
-- call of GenerateKey is a `Result Bytes`, so that its failure is a case too.
--
-- Bounds and fuel: the ratchet's counters wrap at 2^32 as the source's uint32 do. The loop of
-- `hkdf` runs on the length that is asked for, the loop of `itoa` on the ten bytes of its buffer
-- and the loop of `split` on the length of the file, the loop of `dial` on the twelve attempts,
-- the loop of `replace` on the length of the text; each round makes progress, so this is enough,
-- which the theorems on their results show. The loop of `skip` runs once for every counter that is
-- left.
--
-- Concurrency: the mutex of a session makes each of its methods one step, and so does the mutex of
-- the engine; of what other goroutines do between the steps of `deliver` only Stop is an argument
-- of it.
--
-- Not modelled: the networking (the libp2p host and its DHT, netcheck), the start of the runtime,
-- the libsignal bridge, and the bindings (ffi, mobile, cmd), which are mostly input and output or
-- calls of libraries.
pub mod Base
pub mod Crypto
pub mod Identity
pub mod FileTransfer
pub mod Contact
pub mod Mailbox
pub mod Vault
pub mod Account
pub mod Runtime
pub mod Settings
pub mod Storage
pub mod SafetyNumber
pub mod Signaling
pub mod Messaging
pub mod Transport
pub mod Node
pub mod Emoji
pub mod Dht
mod Examples
