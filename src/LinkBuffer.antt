-- ===== src/LinkBuffer.antt =====
-- nocopy_linkbuffer.go: the chain of nodes behind every reader and writer.
pub mod Node
pub mod State
pub mod Reader
pub mod Search
pub mod Writer
pub mod Book
pub mod Output
pub mod Direct
pub mod Roundtrip
mod Tests
