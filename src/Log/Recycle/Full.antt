-- ===== src/Log/Recycle/Full.antt =====
-- What logs_recycle does with a log whose last block is full, and what getFreeBlock makes of it.
use cycology.Base.{
  ℕ, ◌*◌, ◌/◌, ◌%◌, ◌<◌, ◌≡◌, inl, refl, ◌∙◌, some, false, true, arith, slt, add32, eq→==, ne→==,
  rem32_nonneg,
}
use cycology.Disk.{FullPage, FreeList, LogHeader}
use cycology.Nand.{Nand}
use cycology.Nand.Layout.{IsFormatted}
use cycology.Nand.Write.{working}
use cycology.Nand.Erase.{Erased, count_read}
use cycology.Log.{FreeBlock, get_free_block}
use cycology.Log.Blocks.{take_complete_at, take_complete-eq}
use cycology.Log.Recycle.{add_complete, logs_recycle}

module _ (n : Nand) (v : IsFormatted n.features) (lists : FreeList) (log : LogHeader) (next : ℕ)
    (inside : next < n.features.num_blocks * 16) (index : 13 < next % 16) where
  full : slt 13 (next % 16) ≡ true
  full = ground arith

  full_lem :
      lists.complete_tail ≡ 0
      → logs_recycle working n lists log next
        ≡ some (
          n,
          record lists {
            complete_head = log.first;
            complete_head_erases = log.first_erases;
            complete_tail = next % 16;
          },
        )
  unfolding logs_recycle add_complete
  full_lem tail = rw (
    rem32_nonneg next 16 (omega (arith, v.size, v.small)),
    full,
    ne→== (next % 16) 0 (omega arith),
    eq→== lists.complete_tail 0 tail,
  )

  -- With an empty completely used free list, its tail 0, a log whose next page has an index of 14
  -- or 15 in its block is recycled with the number of its first block as the head of that list,
  -- and the index as the tail. getFreeBlock then takes the number, if the store has the block,
  -- for a page: it returns it, and erases the block that this page lies in.
  pub logs_recycle_full :
      (buf : FullPage)
      → lists.complete_tail ≡ 0
      → log.first < n.features.num_blocks
      → (lists' : FreeList) × (b : FreeBlock) × (logs_recycle working n lists log next
          ≡ some (n, lists'))
        × (lists'.complete_tail ≡ next % 16)
        × (get_free_block working n lists' buf false ≡ some b)
        × (b.free_page ≡ log.first)
        × Erased n (log.first / 16) (add32 (count_read n (log.first / 16)) 1) b.nand
  logs_recycle_full buf tail h =
      let lists' : FreeList = record lists {
        complete_head = log.first;
        complete_head_erases = log.first_erases;
        complete_tail = next % 16;
      } in
      let (b, run, page, erases, made, head, partial, last) =
        take_complete_at n v lists' buf log.first (omega arith) refl in
      (
        lists',
        b,
        full_lem tail,
        refl,
        take_complete-eq n v lists' buf false (inl refl) ∙ run,
        page,
        made,
      )
