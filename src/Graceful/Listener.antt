-- ===== src/Graceful/Listener.antt =====
-- graceful/listener: the shards of the listener with their connections.
pub mod Shard
pub mod Conn
pub mod CloseConns
pub mod Counting
pub mod Invariant
pub mod Calls
pub mod Accepting
pub mod History
pub mod After
pub mod Drain
pub mod Closing
pub mod Faults
pub mod Shards
mod Tests
