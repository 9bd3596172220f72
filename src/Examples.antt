-- ===== src/Examples.antt =====
-- Tests, and the theorems at concrete inputs.
mod Formats
mod Toy
mod Ratchets
mod Sessions
mod Identities
mod Files
mod Books
mod Engines
mod Stores
mod Fabrics
mod Nodes
mod Transfers
mod Emojis
mod Documents
mod Contacts
mod Restarts
mod Replies
mod Channels
