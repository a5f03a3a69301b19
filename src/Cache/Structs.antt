-- ===== src/Cache/Structs.antt =====
-- The structs of fuse-3.0.2/example/cache_code/{cacheStructs,fuseLogging,loggingDiskFormats}.h, with the
-- fields that cache.c, openFile.c and filesystem.c use. A pointer is a number, the null pointer 0.
use cycology.Base.{ℕ, List, ◌∷◌, store}

-- the key of a page
pub record PageKey : Type 0 where
  pub file : ℕ
  pub data_offset : ℕ
  pub levels_above : ℕ

-- an entry of the cache, with its places in three lists
pub record CacheEntry : Type 0 where
  pub key : ℕ
  pub wp : ℕ
  pub next : ℕ
  pub dirty : ℕ
  pub lru_data_next : ℕ
  pub lru_data_prev : ℕ
  pub file_data_next : ℕ
  pub file_data_prev : ℕ
  pub file_metadata_next : ℕ
  pub file_metadata_prev : ℕ

-- an open file; of its inode the height of the tree and the addresses of the first pages
pub record OpenFile : Type 0 where
  pub main_extent_log : ℕ
  pub tree_height : ℕ
  pub direct_page : ℕ → ℕ
  pub data_head : ℕ
  pub data_tail : ℕ
  pub metadata_head : ℕ
  pub metadata_tail : ℕ
  pub lru_file_next : ℕ
  pub lru_file_prev : ℕ
  pub address : ℕ

-- the table of entries and the list of data pages by their use
pub record AddressCache : Type 0 where
  pub max_size : ℕ
  pub size : ℕ
  pub table : ℕ → ℕ
  pub lru_data_head : ℕ
  pub lru_data_tail : ℕ

-- a page with its address; a byte is a number below 256
pub record WriteablePage : Type 0 where
  pub contents : ℕ → ℕ
  pub erase_count : ℕ
  pub next_log_block : ℕ
  pub next_block_erases : ℕ
  pub address : ℕ

-- the descriptor of a log; `prev` and `active` are fields of its header
pub record ActiveLog : Type 0 where
  pub next_page : ℕ
  pub last_erases : ℕ
  pub prev : ℕ
  pub active : ℕ

-- The memory with the global variables. `malloc` hands out `fresh`, with what is in it, and does not
-- fail; `freed` are the pointers that were freed, the last first. A freed struct keeps what it holds,
-- so that a use of it, which C leaves undefined, goes on with that.
pub record Heap : Type 0 where
  pub entries : ℕ → CacheEntry
  pub keys : ℕ → PageKey
  pub files : ℕ → OpenFile
  pub pages : ℕ → WriteablePage
  pub logs : ℕ → ActiveLog
  pub cache : AddressCache
  pub lru_file_head : ℕ
  pub lru_file_tail : ℕ
  pub fresh : ℕ
  pub freed : List ℕ

abbrev pub set_entry : Heap → ℕ → CacheEntry → Heap
set_entry h p e = record h { entries = store h.entries p e }

abbrev pub set_cache : Heap → AddressCache → Heap
set_cache h c = record h { cache = c }

-- frees a pointer
abbrev pub free : Heap → ℕ → Heap
free h p = record h { freed = p ∷ h.freed }
