-- ===== src/Threads.antt =====
-- Threads that interleave: each step, one thread makes one move on the shared memory. A move is one
-- atomic operation of the code, or one access of memory that is not atomic. The order in which the
-- threads move is left open, and all memory is sequentially consistent.
mod Family
mod Steps
mod Project
unfoldable pub use Family.*
unfoldable pub use Steps.*
unfoldable pub use Project.*
