-- ===== src/HashMap.antt =====
-- lib/hope_thread/containers/hashmap
pub mod Traits
pub mod Lists
pub mod Storage
pub mod Concurrent
pub mod Map
pub mod Set
pub mod ChunkedSet
