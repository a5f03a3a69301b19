-- ===== src/Disk.antt =====
-- The formats on the virtual NAND (fuse-3.0.2/example/loggingDiskFormats.h, and the struct `block`
-- of vNANDlib.h): structs, and their images as memory holds them, in words of four bytes.
pub mod Images
use cycology.Base.{ℕ, ◌+◌, ◌*◌, ◌/◌, ◌%◌, List}

-- PAGEDATASIZE is 1024 bytes
abbrev pub contents_words : ℕ
contents_words = 256

-- BLOCKSIZE, in pages
abbrev pub block_size : ℕ
block_size = 16

-- `sizeof (struct fullPage)`, in bytes and in words
abbrev pub page_bytes : ℕ
page_bytes = 1048

abbrev pub page_words : ℕ
page_words = 262

-- `sizeof (struct block)`, in bytes and in words
abbrev pub block_bytes : ℕ
block_bytes = 16776

abbrev pub block_words : ℕ
block_words = 4194

-- `sizeof (struct nandFeatures)`, in bytes
abbrev pub features_bytes : ℕ
features_bytes = 8

abbrev pub ptype_super : ℕ
ptype_super = 1

abbrev pub ptype_inode : ℕ
ptype_inode = 3

abbrev pub ptype_addrmap : ℕ
ptype_addrmap = 4

abbrev pub ptype_nextlink : ℕ
ptype_nextlink = 5

-- LTYPE_FILES
abbrev pub ltype_files : ℕ
ltype_files = 1

-- `struct fullPage`: `contents i` is the `i`th word of the data area.
pub record FullPage : Type 0 where
  pub contents : ℕ → ℕ
  pub erase_count : ℕ
  pub next_log_block : ℕ
  pub next_block_erases : ℕ
  pub meta_inode : ℕ
  pub meta_offset : ℕ
  pub page_type : ℕ

-- `struct freeList`
pub record FreeList : Type 0 where
  pub partial_head : ℕ
  pub partial_head_erases : ℕ
  pub partial_tail : ℕ
  pub complete_head : ℕ
  pub complete_head_erases : ℕ
  pub complete_tail : ℕ

-- `struct superPage`
pub record SuperPage : Type 0 where
  pub free_lists : FreeList
  pub latest_journal : ℕ
  pub latest_vaddr_map : ℕ
  pub prev_vaddr_map : ℕ
  pub prev_journal : ℕ

-- `struct addrMap` of fuseLogging.h: `map i` is the entry of virtual address `i`.
pub record AddrMap : Type 0 where
  pub size : ℕ
  pub free_ptr : ℕ
  pub map : ℕ → ℕ

-- `struct timespec`, its two 64-bit fields
pub record Timespec : Type 0 where
  pub sec : ℕ
  pub nsec : ℕ

-- `struct inode`; `direct_page` lists its DIRECT_PAGES addresses.
pub record Inode : Type 0 where
  pub i_mode : ℕ
  pub i_uid : ℕ
  pub i_gid : ℕ
  pub i_flags : ℕ
  pub i_file_no : ℕ
  pub i_log_no : ℕ
  pub i_links_count : ℕ
  pub i_atime : Timespec
  pub i_mtime : Timespec
  pub i_ctime : Timespec
  pub i_pages : ℕ
  pub i_size : ℕ
  pub indirect : ℕ
  pub double_ind : ℕ
  pub triple_ind : ℕ
  pub direct_page : ℕ → ℕ

-- `struct logHeader` with the member `file` of its union, the one that LTYPE_FILES selects and the
-- only one that the code uses. `file_id` lists its MAX_FILES_IN_LOG entries.
pub record LogHeader : Type 0 where
  pub erases : ℕ
  pub log_id : ℕ
  pub prev : ℕ
  pub prev_erases : ℕ
  pub first : ℕ
  pub first_erases : ℕ
  pub active : ℕ
  pub total : ℕ
  pub log_type : ℕ
  pub file_count : ℕ
  pub file_id : ℕ → ℕ
  pub f_inode : Inode
