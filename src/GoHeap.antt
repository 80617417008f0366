-- ===== src/GoHeap.antt =====
-- heapdump/goheap: the reader of the dumps that debug.WriteHeapDump writes.
pub mod Wire
pub mod Records
pub mod Pointers
pub mod Parser
pub mod Stream
pub mod Both
mod Examples
