-- ===== src/Io.antt =====
-- src/commands/io/: the connection to the server, from framed messages to the retry loop.
pub mod Bytes
pub mod Stream
pub mod Frame
pub mod Response
pub mod Handshake
pub mod Submit
pub mod Options
pub mod Cluster
pub mod Calls
pub mod Maintain
pub mod Threads
