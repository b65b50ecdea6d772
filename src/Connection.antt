-- ===== src/Connection.antt =====
-- connection_reactor.go, connection_onevent.go and connection_lock.go: the life of a connection.
pub mod Protocol
pub mod Waiting
pub mod Until
pub mod Flushing
pub mod Count
pub mod Closing
pub mod Disconnect
pub mod Input
pub mod Output
mod Tests
