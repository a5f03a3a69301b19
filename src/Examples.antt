-- ===== src/Examples.antt =====
-- Runs on small stores of four blocks: the theorems at concrete inputs.
mod Driver
mod Mount
mod Lists
mod Logs
mod Files
mod Caches
mod Writes
mod Evictions
mod Pages
mod Dirs
use cycology.Base.{
  ◌≢◌, ℕ, ◌+◌, ◌-◌, ◌*◌, ◌/◌, ◌%◌, ◌^◌, ◌<◌, ◌≡◌, inl, inr, refl, true, false, some, [], ◌∷◌, ◌++◌,
  arith, ◌==◌, if◌then◌else◌, add32, minus_one,
}
use cycology.Disk.{page_bytes, block_bytes, FullPage, FreeList, AddrMap, Timespec, Inode, LogHeader}
use cycology.Disk.Images.{Image, header_of, inode_of, page_of, super_of}
use cycology.Nand.{Nand, Features, read_nand, write_nand, erase_nand}
use cycology.Nand.Layout.{IsFormatted}
use cycology.Nand.Pages.{page_at, next_page_at, erase_count_at, SamePage}
use cycology.Nand.Write.{
  working, Programmed, write_nand-Programmed, write_nand_out_of_order, read_nand-write_nand,
}
use cycology.Nand.Erase.{Erased, erased_page, count_read, erase_nand-Erased, erase_nand_counts}
use cycology.Nand.Chain.{Chain, next_link}
use cycology.Makefs.{make_virtual_nand, cleared_page, makefs}
use cycology.Makefs.Link.{IsFresh}
use cycology.Makefs.Format.{IsEmptyFs, makefs-IsEmptyFs}
use cycology.Addresses.{get_free_ptr, set_address}
use cycology.Addresses.Alloc.{IsFree, get_free_ptr-IsFree, allocate, allocate-take, count_from}
use cycology.Log.{ActiveLog, FreeBlock, Allocated, get_free_block, get_free_page}
use cycology.Log.Blocks.{
  BlockChain, get_free_block_empty, take_blocks, pages_after, take_blocks-pages_after,
}
use cycology.Log.Steps.{IsPlaced, Advanced, next_position}
use cycology.Log.Pages.{get_free_page-Advanced, get_free_page-IsPlaced}
use cycology.Log.Sequence.{take_pages, Begun, take_pages-block}
use cycology.Log.Recycle.{logs_recycle}
use cycology.Log.Recycle.Append.{logs_recycle-Chain, logs_recycle_stale_tail}
use cycology.Log.Recycle.Full.{logs_recycle_full}
use cycology.Mount.{CycState, init_cyc_state, xmp_destroy}
use cycology.Mount.Images.{SameMap}
use cycology.Mount.RoundTrip.{Unmounted, xmp_destroy-Unmounted, init_cyc_state-xmp_destroy}
use cycology.Mount.Fresh.{opened, make_virtual_nand-IsUnused}
use cycology.Mount.Empty.{IsUnused, makefs-IsUnused}
use cycology.Files.{Memory, Created, xmp_create, header_page, write_curr_log_header}
use cycology.Unlink.{Host, Unlinked, xmp_unlink}
use cycology.Unlink.Recycled.{xmp_unlink-get_free_block}
use cycology.Open.{Opened, xmp_open}
use cycology.Open.Count.{xmp_open_again, xmp_open_first}
use cycology.Files.Create.{counted}
use cycology.Files.Header.{write_curr_log_header-Programmed}
use cycology.Files.Creation.{IsCreated, xmp_create-IsCreated}

cleared_type : cleared_page.page_type < 256
unfolding cleared_page
cleared_type = omega arith

abbrev four_blocks : Features
four_blocks = record { num_blocks = 4; mem_size = 67112 }

four_blocks-IsFormatted : IsFormatted four_blocks
four_blocks-IsFormatted = record { size = refl; small = omega arith }

-- the store as makeVirtualNAND leaves it
abbrev fresh_store : Nand
fresh_store = record {
  file = λ i. if i == 0 then 4 else if i == 1 then 67112 else 0;
  features = four_blocks;
}

abbrev inode_page : FullPage
inode_page = record {
  contents = λ i. i;
  erase_count = 0;
  next_log_block = 0;
  next_block_erases = 0;
  meta_inode = 0;
  meta_offset = 0;
  page_type = 3;
}

write_48 :
    (n' : Nand) × (write_nand working fresh_store inode_page 48 false ≡ some (block_bytes, n'))
    × Programmed fresh_store inode_page 48 (add32 (next_page_at fresh_store (48 / 16)) 1) n'
write_48 =
    write_nand-Programmed fresh_store four_blocks-IsFormatted inode_page 48 (omega arith)
      (omega arith) refl

fresh_store-IsFresh : IsFresh fresh_store 0
unfolding page_of
fresh_store-IsFresh = record { next_page = λ j h. ground arith; unlinked = λ j h. ground arith }

-- three free addresses: 1, 2 and 3
abbrev small_map : AddrMap
small_map = record {
  size = 4;
  free_ptr = 1;
  map = λ i. if i == 1 then 2 ^ 32 - 2 else if i == 2 then 2 ^ 32 - 3 else 0;
}

small_map-IsFree : IsFree small_map (1 ∷ 2 ∷ 3 ∷ [])
small_map-IsFree = (
  refl,
  omega arith,
  (omega arith, (omega arith, tt)),
  (refl, omega arith, (omega arith, tt), (refl, omega arith, tt, refl)),
)

abbrev full_map : AddrMap
full_map = record { size = 4; free_ptr = 0; map = λ i. if i == 0 then 0 else 33 }

-- a store with pages 32 and 48 in the partially used free list, as makefs leaves it
abbrev linked_store : Nand
linked_store = record {
  file = λ i.
      if i == 8390 + 257
      then 48
      else if i == 8390 + 4192
      then 1
      else if i == 12584 + 4192
      then 1
      else fresh_store.file i;
  features = four_blocks;
}

linked_store-Chain : Chain linked_store 32 (32 ∷ 48 ∷ [])
unfolding page_of
linked_store-Chain = (refl, omega arith, omega arith, (refl, omega arith, omega arith, refl))

abbrev some_lists : FreeList
some_lists = record {
  partial_head = 32;
  partial_head_erases = 7;
  partial_tail = 48;
  complete_head = 0;
  complete_head_erases = 0;
  complete_tail = 0;
}

-- blocks 2 and 3 in the completely used free list
abbrev used_store : Nand
used_store = record {
  file = λ i. if i == 8390 + 15 * 262 + 257 then 48 else fresh_store.file i;
  features = four_blocks;
}

abbrev used_lists : FreeList
used_lists = record {
  partial_head = 0;
  partial_head_erases = 0;
  partial_tail = 0;
  complete_head = 32;
  complete_head_erases = 5;
  complete_tail = 48;
}

used_store-BlockChain : BlockChain used_store 32 (2 ∷ 3 ∷ [])
unfolding page_of
used_store-BlockChain =
    (refl, omega arith, omega arith, (omega arith, tt), (refl, omega arith, omega arith, tt, refl))

abbrev zero_time : Timespec
zero_time = record { sec = 0; nsec = 0 }

abbrev zero_inode : Inode
zero_inode = record {
  i_mode = 0;
  i_uid = 0;
  i_gid = 0;
  i_flags = 0;
  i_file_no = 0;
  i_log_no = 0;
  i_links_count = 0;
  i_atime = zero_time;
  i_mtime = zero_time;
  i_ctime = zero_time;
  i_pages = 0;
  i_size = 0;
  indirect = 0;
  double_ind = 0;
  triple_ind = 0;
  direct_page = λ _. 0;
}

-- the header of a log whose only block is block 2
abbrev some_header : LogHeader
some_header = record {
  erases = 0;
  log_id = 2;
  prev = minus_one;
  prev_erases = 0;
  first = 2;
  first_erases = 5;
  active = 1;
  total = 1;
  log_type = 1;
  file_count = 1;
  file_id = λ _. 1;
  f_inode = zero_inode;
}

-- that log at the page `k`
abbrev log_at : ℕ → ActiveLog
log_at k = record { next_page = k; last = 2; last_erases = 0; log = some_header; file_count = 1 }

log_at-IsPlaced : IsPlaced used_store (log_at 45)
log_at-IsPlaced = record { prev = refl; last = omega arith; next_page = inr (refl, omega arith) }

-- a log of one block, block 3, whose next free page is page 50
abbrev last_header : LogHeader
last_header = record some_header { first = 3 }

-- page 33 is the tail of the list, and the next free page of its block
abbrev tail_store : Nand
tail_store = record {
  file = λ i. if i == 8390 + 4192 then 1 else fresh_store.file i;
  features = four_blocks;
}

abbrev tail_lists : FreeList
tail_lists = record some_lists { partial_head = 33; partial_tail = 33 }

tail_store-Chain : Chain tail_store 33 (33 ∷ [])
unfolding page_of
tail_store-Chain = (refl, omega arith, omega arith, refl)

tail_store_unlinked : next_link tail_store 50 ≡ 0
unfolding page_of
tail_store_unlinked = refl

-- a store whose super block names page 16 as that of the map
abbrev super_store : Nand
super_store = record {
  file = λ i. if i == 2 + 7 then 16 else fresh_store.file i;
  features = four_blocks;
}

super_store_latest : (super_of (page_at super_store 0).contents).latest_vaddr_map ≡ 16
unfolding page_of super_of
super_store_latest = refl

abbrev some_state : CycState
some_state = record {
  n_features = four_blocks;
  vaddr_map = small_map;
  cache = record { size = 0; head_lru = 0; tail_lru = 0; open_file_table = λ _. 0 };
  lists = some_lists;
}

abbrev some_memory : Memory
some_memory = record {
  logs = λ _. log_at 0;
  files = λ _. record { current_opens = 0; main_extent_log = 0; inode = zero_inode; address = 0 };
  next = 100;
}

-- file 1 and log 2, both at page 33
abbrev mapped_state : ℕ → CycState
mapped_state file = record some_state {
  vaddr_map = record { size = 4; free_ptr = 3; map = λ _. 33 };
  cache = record some_state.cache { open_file_table = λ i. if i == 1 then file else 0 };
}

abbrev header_store : Nand
header_store = record {
  file = λ i. if i == 8652 + 25 then 2 else fresh_store.file i;
  features = four_blocks;
}

header_store_log : (header_of (page_at header_store 33).contents).f_inode.i_log_no ≡ 2
unfolding page_of header_of inode_of
header_store_log = refl

-- page 33 holds the header of log 2, of one file
abbrev one_file_store : Nand
one_file_store = record {
  file = λ i.
      if i == 8652 + 2
      then 2
      else if i == 8652 + 5
      then 2
      else if i == 8652 + 10
      then 1
      else fresh_store.file i;
  features = four_blocks;
}

one_file_store_log : (header_of (page_at one_file_store 33).contents).log_id ≡ 2
unfolding page_of header_of
one_file_store_log = refl

one_file_store_count : (header_of (page_at one_file_store 33).contents).file_count ≡ 1
unfolding page_of header_of
one_file_store_count = refl

one_file_store_first : (header_of (page_at one_file_store 33).contents).first ≡ 33 / 16
unfolding page_of header_of
one_file_store_first = refl

one_file_store_unlinked : next_link one_file_store 33 ≡ 0
unfolding page_of
one_file_store_unlinked = refl

abbrev closed_state : CycState
closed_state = record (mapped_state 0) { lists = used_lists }

abbrev some_host : Host
some_host = record { links = some 1; unlinked = true; errno = 0 }
