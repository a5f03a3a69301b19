-- ===== src/Cache.antt =====
-- The cache of pages of fuse-3.0.2/example/cache_code: cacheStructs.h, cache.c, openFile.c and
-- filesystem.c, over one memory of structs.
pub mod Structs
pub mod Keys
pub mod Texts
pub mod Lengths
pub mod Table
pub mod Bins
pub mod Lookup
pub mod Link
pub mod Insert
pub mod Order
pub mod Apart
pub mod Remove
pub mod Queues
pub mod Lists
pub mod Files
pub mod Tree
pub mod Agree
pub mod PutPage
pub mod Written
pub mod Twice
pub mod Indexes
pub mod Levels
pub mod Reread
pub mod Emptied
pub mod Flushed
pub mod Evicted
pub mod Flush
