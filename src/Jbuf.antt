-- ===== src/Jbuf.antt =====
-- src/jbuf.c, the adaptive jitter buffer.
pub mod State
pub mod Seq
pub mod Clock
pub mod Pool
pub mod Put
pub mod Get
pub mod Frame
pub mod Accept
pub mod Alloc
pub mod Splice
pub mod Invariant
pub mod Run
pub mod Ordered
pub mod PutCases
pub mod Ownership
pub mod Handover
pub mod Sorted
pub mod Playout
pub mod Nack
pub mod Contents
pub mod Late
mod Tests
