-- ===== src/Lib.antt =====
-- netpoll: a network library whose connections read and write without copying.
--
-- Parts and how they interact. A connection owns two LinkBuffers (nocopy_linkbuffer.go): chains of
-- nodes over byte arrays with pointers `head`, `read`, `flush` and `write` into the chain. The user
-- reads from the input buffer and writes to the output buffer, zero-copy where the bytes lie in one
-- node. The poller fills the input buffer (`book`, `bookAck`) and drains the output buffer, through
-- the operator of the connection, which it takes from its operator cache. The named pipes have a
-- reader and a writer each, with locks of their own; they go through the same pollers. The shard
-- queue of mux lets many goroutines write to one connection.
--
-- Files.
--   Base: shared names, Boolean tests on the native numbers, integers, lemmas on lists.
--   LinkBuffer/Node: `linkBufferNode` and its `Len`, `Next`, `Peek`, `Malloc`.
--   LinkBuffer/State: `UnsafeLinkBuffer`, `recalLen`, the invariant of the read side.
--   LinkBuffer/Reader: `Next`, `Peek`, `Skip`, `Release`, `ReadString`, `ReadBinary`, `ReadByte`;
--     its children hold their theorems.
--   LinkBuffer/Search: `indexByte` and `Until`.
--   LinkBuffer/Writer: `NewLinkBuffer`, `Malloc`, `MallocAck`, `Flush`, `WriteString`,
--     `WriteBinary`; its children hold the invariant of the write side and the theorems.
--   LinkBuffer/Book: `book`, `bookAck`, `calcMaxSize`, `resetTail`.
--   LinkBuffer/Output: `Bytes`, `GetBytes`, `WriteByte`.
--   LinkBuffer/Direct: `WriteDirect`; Direct/Nodes and Direct/Insert have the theorem.
--   LinkBuffer/Roundtrip: what has been written and flushed, read back slice by slice.
--   LinkBuffer/Tests: a buffer of two nodes on which the methods are run.
--
--   Connection/Protocol: the goroutines that open, serve and close a connection, as moves over the
--     locks `closing`, `connecting`, `processing` and the state: `onHup`, `onDisconnect`, `onClose`,
--     `closeCallback`, `onConnect`, `onRequest`, the task of `onProcess`.
--   Connection/Count, Closing, Disconnect: its invariants and theorems. Connection/Tests: a trace.
--   Connection/Input: `inputs`, `inputAck` and the poller's read event; Connection/Input/Round has
--     the theorem.
--   Connection/Output: `flush`, `outputs`, `outputAck`, `rw2r`, and the poller's write event; the
--     kernel's `sendmsg` is given by its outcome. Connection/Output/Conserve has the theorems.
--   Connection/Waiting: `waitRead` and `waitReadWithTimeout` beside the poller and a closing, as steps;
--     Waiting/Known and Waiting/Wakeup have the theorems.
--   Connection/Flushing: `waitFlush` beside the poller's write event and a closing, as steps;
--     Flushing/Invariant and Flushing/Sent have the theorems.
--   Connection/Until: `Until` over the calls of `waitRead`; Until/Found has the theorem.
--   ReadWriter: `zcWriter.Flush`, `ioReader.Read`, `ioWriter.Write`; ReadWriter/ZcReader: `zcReader`,
--     whose Stream has the theorem.
--   Operator: `FDOperator` and the operator cache `alloc`, `freeable`, `free`; Operator/Ownership says
--     who owns an operator, Operator/Cycle has the theorems, Operator/Tests a cache of two.
--   PollManager: the manager of pollers and its load balance; PollManager/Run and PollManager/Pick
--     have the theorems, PollManager/Tests a manager of two polls.
--   Poller: `handler` over one batch of events with `appendHup` and `onhups`, and the sizes of `Wait`;
--     Poller/Control: `Control` of the operator and of the poll, over epoll; Poller/Handled and
--     Poller/Sizes have the theorems.
--   Fifo: the locks of the named pipes. Fifo/Reading and Fifo/Writing: the goroutines of a
--     `readFifo` and a `writeFifo` as steps; Fifo/ReadClosing and Fifo/WriteClosing have the theorems.
--     Fifo/Output: `flush`, `outputs`, `outputAck` and `detachWrite` of a `writeFifo`.
--   ShardQueue: the operations of mux/shard_queue.go; ShardQueue/System: the goroutines that add, the
--     task that runs, and `Close`, as steps. ShardQueue/Invariant and Kept have the invariant, Ring,
--     Shards and Order what it says of the ring of triggers and of each shard's order.
--
-- Correspondence. A pointer to a node is its position in the chain, and nil is the position past the
-- end; `b.read` moving on is a sum. The backing array of a node is a list of numbers, one for each
-- byte, and its length is the slice's capacity. Memory that mcache or make gives is the result of a
-- parameter `alloc`, of which only the length is assumed where it matters. A slice of a node's array
-- that a method returns is given by its bytes; a slice that the caller is to write in is given by its
-- offset. Sizes are mathematical numbers: the source's `int` has 64 bits, and a buffer of that many
-- bytes does not fit in memory. A panic (nil dereference, slice out of range) is an outcome of its
-- own, and the theorems that say what a method returns exclude it.
--
-- Loops over the chain are structural recursions on the list of nodes, and need no fuel. `waitRead` of
-- the `zcReader` has as fuel one more than the `Read`s that are left, which is enough since each
-- `fill` that it calls takes at least one.
--
-- Where goroutines meet, the program is a relation between states: one atomic operation, one wait or
-- one call of a callback at a time, in any order. So are the life of a connection, its waits for
-- bytes and for a flush, the closing of a named pipe, and the shard queue. A timer is a step that may
-- be taken at any time once the timer runs. Elsewhere one goroutine acts, as the locks of the source
-- make sure. What the kernel does is data: how much a `sendmsg` takes, what has arrived, which events
-- `EpollWait` gives, whether `openPoll` succeeds.
--
-- Not modelled: `Slice`, `WriteBuffer`, `Append` and `Close` of the LinkBuffer and the reference counts
-- of nodes, since a chain owns its nodes in the model; a callback of a connection that panics;
-- `readall`, `Trigger` and `Close` of the poller, and the poller for BSD; the connection and the
-- manager of named pipes; the exceptions; the server. The sockets, the system calls, dialers and
-- listeners belong to the operating system, and sync.Pool and mcache are memory management. The
-- variant of the LinkBuffer for the race detector puts a mutex around the same methods.
pub mod Base
pub mod Connection
pub mod Fifo
pub mod LinkBuffer
pub mod Operator
pub mod PollManager
pub mod Poller
pub mod ReadWriter
pub mod ShardQueue
