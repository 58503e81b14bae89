-- ===== src/Lib.antt =====
-- hope_threading is a header library of C++ for threads: locks, queues without locks, hash tables with
-- a lock for each part, and helpers to run work on threads. A client takes the headers it needs; below
-- them they share little: the locks use the pause of the back-off and the thread ids of `core`, and
-- the hash tables take a lock as a parameter.
--
-- What is modelled, by file, with paths below lib/hope_thread:
--
--   Threads          the common frame: `n` threads over one memory, each with a place in its program.
--                    A step lets any one thread make its next access of the shared memory; a state is
--                    reachable if steps lead to it. The memory is sequentially consistent.
--   Sync/Spinlock, Sync/RwSpinlock, Sync/RecursiveSpinlock, Sync/RecursiveRwSpinlock
--                    `spinlock`, `rw_spinlock`, `recursive_spinlock` and `recursive_rw_spinlock` of
--                    synchronization/spinlock.h. `move` is the code of a thread, an atomic access at a
--                    time: a constructor of `Place` for each access of `lock`, `try_lock`, `unlock` and
--                    their shared forms.
--   Sync/ContentionFree
--                    `contention_free_rw_lock` of synchronization/contention_free_rw_lock.h, likewise:
--                    `lock_shared`, `unlock_shared`, `lock_exclusive`, `unlock_exclusive`.
--   Sync/SeqLock     `seq_lock` of synchronization/seq_lock.h, likewise: `store` and `load`, with the
--                    value copied a unit at a time.
--   Sync/ObjectSafe  `object_safe_wrapper` of synchronization/object_safe_wrapper.h over Sync/Spinlock: a call
--                    through `operator->`, with the moves of the lock and the accesses of the object.
--   Sync/SharedObject
--                    The same wrapper over Sync/RwSpinlock: calls that change the object, and calls of a
--                    constant object, which share the lock.
--   Sync/Backoff     `exponential_backoff` of synchronization/backoff.h.
--   Core/ThreadId    `get_thread_id` of core/thread_id.h, as it is on Linux.
--   Queue/MpmcBounded
--                    `mpmc_bounded_queue` of containers/queue/mpmc_bounded_queue.h, an access at a time:
--                    `try_enqueue` and `try_dequeue`, with the accesses of the items as steps.
--   Queue/MpscOverlap
--                    `mpsc_bounded_queue` of containers/queue/mpsc_bounded_queue.h, an access at a time:
--                    `try_enqueue` of any number of producers and `try_dequeue` of one consumer.
--   Queue/SpmcOverlap
--                    `spmc_bounded_message_queue` of containers/queue/spmc_bounded_message_queue.h, an
--                    access at a time and a message a unit at a time: `try_enqueue` of one writer, and
--                    the constructor and `try_dequeue` of any number of consumers.
--   Queue/MpscBounded, Queue/SpscBounded, Queue/SpmcMessage, Queue/SpmcBytes
--                    `mpsc_bounded_queue`, `spsc_bounded_queue`, `spmc_bounded_message_queue` and
--                    `spmc_bounded_non_uniform_queue` of containers/queue, a call at a time.
--   Queue/MpscBuffered
--                    `mpsc_queue` of containers/queue/mpsc_queue.h with `buffered`, a call at a time:
--                    `enqueue`, with `alloc_node`, and `try_dequeue`.
--   Queue/MpscLinked, Queue/SpscLinked, Queue/Sutter
--                    `mpsc_queue` with `new_only`, `spsc_queue` and `sutter_queue` of containers/queue, an
--                    access at a time, over a heap of nodes that are allocated, linked, and deleted or used
--                    again: `enqueue` and `try_dequeue`, or `dequeue`, with `alloc_node` and
--                    `produce_impl`. Queue/Destroy is the loop of the destructors.
--   HashMap          `hash_storage` of containers/hashmap/hash_storage.h, a call at a time: `emplace`,
--                    `obtain`, `find`, `remove`, `resize` and `size`, over an interface `Traits` of the
--                    key, the hasher and the equality. Map and Set are `hash_map` and `hash_set` of the
--                    same folder, with the `Traits` that `map_traits` and `set_traits` are.
--   HashMap/Concurrent
--                    `hash_storage` under calls that overlap: the sections under a bucket's lock, and the
--                    accesses outside, among them those of `resize`, which copies a bucket beside other
--                    calls and gives its copy up if one of them has changed the bucket.
--   HashMap/ChunkedSet
--                    `stl_chunked_set` of containers/hashmap/stl_chunked_set.h under calls that overlap,
--                    over `std::unordered_set` as a parameter `StdSet`.
--   Runtime/Worker   `async_worker` and `async_worker_impl` of runtime/worker_thread.h, an access at a
--                    time: `add`, `stop` and `run`, with the moves of Queue/MpscLinked on the queue of
--                    the work.
--   Runtime/ThreadPool
--                    `thread_pool` of runtime/threadpool.h, an access at a time: `add_work`, `destroy` and
--                    `run`, with the POSIX `synchronization_event` of synchronization/event.h.
--   Platform/SharedMemory
--                    The POSIX functions of platform/shared_memory.h, over the system's calls as a
--                    parameter `Os`; Descriptors says what is assumed of them.
--   Platform/FileMapping
--                    The Windows functions of platform/shared_memory.h, likewise; Resources says what is
--                    assumed of the handles and views, Pages what of the sizes.
--   Prelude          what the other files share.
--
-- The modules below a component's prove: Invariant, and the modules beside it, what holds in each
-- reachable state; Safety and the modules with names of their own, what follows; Tests, runs.
--
-- Machine words are natural numbers with their wrap-around written out, and a mask of `size - 1` is a
-- remainder by `size`, a power of two. Bounds: the word of `rw_spinlock` has room for fewer than 2 ^
-- 12 threads, that of `recursive_rw_spinlock` for one less, each with at most 255 nested calls of a
-- kind; the positions of `mpmc_bounded_queue`, of Queue/MpscOverlap and Queue/SpmcOverlap and the
-- numbers of `seq_lock` are followed for fewer than 2 ^ 62 moves, the recursion of
-- `recursive_spinlock` for fewer than 2 ^ 64, so that no position comes round. The code of
-- Queue/MpscOverlap lets one item more in than there are cells, which overwrites one; what depends on
-- that not having happened says so, by a field `overfilled` that records it. The loop of
-- `create_or_open_shared_memory` runs for its two rounds, that of the destructors for one round more
-- than items have been entered, and a call in the constructor of `spsc_queue` for its five or three
-- moves, which is enough; nothing else runs on fuel, as each step and each call ends.
--
-- Not modelled: weaker memory orders than sequential consistency, so that the loads and stores of
-- synchronization/lcsr.h are plain accesses; calls of an `mpsc_queue` with `buffered` that overlap,
-- and its destructor; `lock`, `unlock`, their shared forms and `raw` of `object_safe_wrapper`; the
-- wrappers of the work in `thread_pool`, and their pool; the waiting with a
-- time in `synchronization_event`; the limit of macOS on a name, and the thread ids of Windows and
-- macOS; `hash_map::remove`, `linked_list` and `tagged_ptr`, which cannot be instantiated;
-- foundation.h and core/tls.h, which are macros; the tests and the samples. In `hash_storage`,
-- `lock_bucket` and `unlock_bucket`, whose bodies name members that do not exist, and what a client
-- does with the pointer that `find` gives after the lock is released.
pub mod Prelude
pub mod Threads
pub mod Sync
pub mod Core
pub mod Queue
pub mod HashMap
pub mod Runtime
pub mod Platform
