-- ===== src/Log/Recycle.antt =====
-- fuse-3.0.2/example/logs.c: the blocks of a log go back to the free lists.
pub mod Append
pub mod Full
use cycology.Base.{
  ℕ, ◌-◌, Option, some, ◌==◌, not, true, false, if◌then◌else◌, ◌>>=◌, div32, rem32, slt,
}
use cycology.Disk.{block_size, FullPage, FreeList, LogHeader}
use cycology.Nand.{Nand, Io, write_nand}
use cycology.Makefs.{cleared_page}

-- the zeroed page with a link in it
unfoldable pub link_to : ℕ → ℕ → FullPage
link_to next erases = record cleared_page { next_log_block = next; next_block_erases = erases }

-- a last block that is not full goes to the partially used free list
unfoldable pub add_partial : Io → Nand → FreeList → ℕ → Option (Nand × FreeList)
add_partial io n lists next_page =
    if lists.partial_tail == 0
    then some (n, record lists { partial_head = next_page; partial_tail = next_page })
    else (write_nand io n (link_to next_page 0) lists.partial_tail false >>= λ r.
        some (r.1, record lists { partial_tail = next_page }))

-- the blocks from `first` to `last_full_block` go to the completely used free list
unfoldable pub add_complete : Io → Nand → FreeList → LogHeader → ℕ → Option (Nand × FreeList)
add_complete io n lists log last_full_block =
    if last_full_block == 0
    then some (n, lists)
    else if lists.complete_tail == 0
    then some (
      n,
      record lists {
        complete_head = log.first;
        complete_head_erases = log.first_erases;
        complete_tail = last_full_block;
      },
    )
    else (write_nand io n (link_to log.first log.first_erases) lists.complete_tail true >>= λ r.
        some (r.1, record lists { complete_tail = last_full_block }))

-- The argument `nextErases` is not used.
unfoldable pub logs_recycle : Io → Nand → FreeList → LogHeader → ℕ → Option (Nand × FreeList)
logs_recycle io n lists log next_page =
    if not (slt (block_size - 3) (rem32 next_page block_size))
    then (add_partial io n lists next_page >>= λ r.
        add_complete io r.0 r.1 log
          (if not (div32 next_page block_size == log.first) then log.prev else 0))
    else add_complete io n lists log (rem32 next_page block_size)
