-- ===== src/Log.antt =====
-- Logs and the free lists of blocks: fuse-3.0.2/example/helper.c, over the structs of fuseLogging.h.
-- Two field names differ between the files: helper.c's `last` and `page` are the header's `lastBlock`
-- and `nandPage`.
pub mod Blocks
pub mod Steps
pub mod Pages
pub mod Recycle
pub mod Sequence
use cycology.Base.{
  ℕ, ◌+◌, ◌-◌, ◌%◌, ◌^◌, Bool, ◌&&◌, ◌||◌, Option, none, some, false, ◌==◌, if◌then◌else◌, ◌>>=◌,
  add32, mul32, div32, rem32, minus_one, not,
}
use cycology.Disk.{block_size, ltype_files, FullPage, FreeList, AddrMap, Inode, LogHeader}
use cycology.Nand.{Nand, Io, read_nand, erase_nand}

-- `struct activeLog`
pub record ActiveLog : Type 0 where
  pub next_page : ℕ
  pub last : ℕ
  pub last_erases : ℕ
  pub log : LogHeader
  pub file_count : ℕ

-- `struct writeablePage`
pub record WriteablePage : Type 0 where
  pub page : FullPage
  pub address : ℕ

-- what getFreeBlock returns, stores through `freePage` and changes
pub record FreeBlock : Type 0 where
  pub erases : ℕ
  pub free_page : ℕ
  pub lists : FreeList
  pub nand : Nand

-- The first page of the completely used free list. `buf` is what the uninitialised buffer holds.
unfoldable pub take_complete : Io → Nand → FreeList → FullPage → Option FreeBlock
take_complete io n lists buf = do
  let free_page = lists.complete_head
  (_, last) ←
      read_nand io n buf
        ((mul32 (div32 (add32 free_page block_size) block_size) block_size + minus_one) % 2 ^ 32)
  (_, n') ← erase_nand io n (div32 free_page block_size)
  some (record {
    erases = lists.complete_head_erases;
    free_page = free_page;
    lists = record lists {
      complete_head = last.next_log_block;
      complete_head_erases = last.next_block_erases;
    };
    nand = n';
  })

-- The page after the first of the partially used free list.
unfoldable pub take_partial : Io → Nand → FreeList → FullPage → Option FreeBlock
take_partial io n lists buf = do
  (_, page) ← read_nand io n buf lists.partial_head
  some (record {
    erases = lists.partial_head_erases;
    free_page = add32 lists.partial_head 1;
    lists = record lists {
      partial_head = page.next_log_block;
      partial_head_erases = page.next_block_erases;
    };
    nand = n;
  })

unfoldable pub get_free_block : Io → Nand → FreeList → FullPage → Bool → Option FreeBlock
get_free_block io n lists buf new_file =
    if not new_file || (lists.partial_head == 0)
    then take_complete io n lists buf
    else take_partial io n lists buf

-- what getFreePage returns and changes
pub record Allocated : Type 0 where
  pub buf : WriteablePage
  pub lists : FreeList
  pub log : ActiveLog
  pub nand : Nand

-- `log->log.active++`
abbrev count_active : ActiveLog → ActiveLog
count_active log = record log { log = record log.log { active = add32 log.log.active 1 } }

-- `fresh` is what the block returned by `malloc` holds, `buf` what the buffer of getFreeBlock holds.
unfoldable pub get_free_page :
    Io → Nand → FreeList → ActiveLog → FullPage → FullPage → Option Allocated
get_free_page io n lists log fresh buf =
    let address = log.next_page in
    let next = add32 address 1 in
    let done : FullPage → ActiveLog → Option Allocated = λ page log'. some (record {
      buf = record { page = page; address = address };
      lists = lists;
      log = count_active log';
      nand = n;
    }) in
    if rem32 address block_size == 0
    then done (record fresh { erase_count = log.last_erases }) (record log { next_page = next })
    else if rem32 (add32 address 3) block_size == 0
    then done fresh
        (record log { next_page = add32 (mul32 log.log.prev block_size) (block_size - 1) })
    else if rem32 (add32 address 2) block_size == 0
    then (do
      b ← get_free_block io n lists buf false
      some (record {
        buf = record {
          page = record fresh { next_log_block = b.free_page; next_block_erases = b.erases };
          address = address;
        };
        lists = b.lists;
        log = count_active (record log {
          last_erases = b.erases;
          next_page = b.free_page;
          last = div32 b.free_page block_size;
        });
        nand = b.nand;
      }))
    else if rem32 (add32 address 1) block_size == 0
    then done
        (record fresh {
          next_log_block = mul32 log.last block_size;
          next_block_erases = log.last_erases;
        })
        (record log { next_page = add32 (mul32 log.last block_size) (block_size - 2) })
    else done fresh (record log { next_page = next })

-- `ind` is what the struct holds before: the fields that initInode does not set stay.
unfoldable pub init_inode : Inode → ℕ → ℕ → ℕ → Inode
init_inode ind mode file_id log_id = record ind {
  i_mode = mode;
  i_file_no = file_id;
  i_log_no = log_id;
  i_links_count = 0;
  i_pages = 0;
  i_size = 0;
}

unfoldable pub init_log_header : LogHeader → ℕ → ℕ → LogHeader
init_log_header h log_id log_type = record h {
  erases = 0;
  log_id = log_id;
  prev = minus_one;
  active = 0;
  total = 1;
  log_type = log_type;
}

unfoldable pub init_active_log : ActiveLog → ℕ → ActiveLog
init_active_log log header_page =
    if rem32 (add32 header_page 3) block_size == 0
    then record log { next_page = add32 (mul32 log.log.prev block_size) (block_size - 1) }
    else if rem32 (add32 header_page 2) block_size == 0
    then record log { next_page = mul32 log.last block_size }
    else if rem32 (add32 header_page 1) block_size == 0
    then record log { next_page = add32 (mul32 log.last block_size) (block_size - 2) }
    else record log { next_page = add32 log.next_page 1 }
