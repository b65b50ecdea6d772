-- ===== src/Fifo.antt =====
-- Named pipes: fifo_lock.go, fifo_reactor.go, fifo_event.go, fifo_read_impl.go, fifo_write_impl.go.
pub mod Reading
pub mod ReadClosing
pub mod Writing
pub mod WriteClosing
pub mod Output
mod Tests
