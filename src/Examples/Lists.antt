-- ===== src/Examples/Lists.antt =====
-- Addresses, blocks and the free lists.
use cycology.Base.{◌/◌, ◌%◌, ◌≡◌, inl, refl, false, some, [], ◌∷◌, arith, add32}
use cycology.Disk.{FreeList}
use cycology.Nand.{Nand}
use cycology.Nand.Pages.{page_at, SamePage}
use cycology.Nand.Write.{working}
use cycology.Nand.Erase.{Erased, erased_page, count_read}
use cycology.Nand.Chain.{Chain}
use cycology.Makefs.{cleared_page}
use cycology.Addresses.Alloc.{IsFree, allocate, allocate-take}
use cycology.Log.{FreeBlock, get_free_block}
use cycology.Log.Blocks.{get_free_block_empty}
use cycology.Log.Recycle.{logs_recycle}
use cycology.Log.Recycle.Append.{logs_recycle-Chain}
use cycology.Log.Recycle.Full.{logs_recycle_full}
use cycology.Examples.{
  four_blocks-IsFormatted, small_map, small_map-IsFree, linked_store, some_lists, last_header,
  tail_store, tail_lists, tail_store-Chain, tail_store_unlinked,
}

allocate-take_example :
    let (ids, m) = allocate (33 ∷ 49 ∷ []) small_map in (ids ≡ (1 ∷ 2 ∷ [])) × IsFree m (3 ∷ [])
allocate-take_example =
    allocate-take (33 ∷ 49 ∷ []) (1 ∷ 2 ∷ []) (3 ∷ []) small_map refl small_map-IsFree

get_free_block_empty_example :
    (r : FreeBlock) × (get_free_block working linked_store some_lists cleared_page false ≡ some r)
    × (r.free_page ≡ 0)
    × SamePage (page_at r.nand 0) erased_page
get_free_block_empty_example =
    get_free_block_empty linked_store four_blocks-IsFormatted some_lists cleared_page false
      (omega arith) (inl refl) refl

logs_recycle-Chain_example :
    (n' : Nand) × (lists' : FreeList) × (logs_recycle working tail_store tail_lists last_header 50
      ≡ some (n', lists'))
    × Chain n' lists'.partial_head (33 ∷ 50 ∷ [])
    × (lists'.partial_tail ≡ 50)
    × (lists'.complete_head ≡ 0)
    × (lists'.complete_tail ≡ 0)
logs_recycle-Chain_example =
    logs_recycle-Chain tail_store four_blocks-IsFormatted tail_lists last_header 50 (omega arith)
      (omega arith) refl [] 33 tt (omega arith) (omega arith) tail_store_unlinked refl refl
      tail_store-Chain

logs_recycle_full_example :
    (lists' : FreeList) × (b : FreeBlock) × (logs_recycle working tail_store tail_lists last_header
        62
      ≡ some (tail_store, lists'))
    × (lists'.complete_tail ≡ 62 % 16)
    × (get_free_block working tail_store lists' cleared_page false ≡ some b)
    × (b.free_page ≡ 3)
    × Erased tail_store (3 / 16) (add32 (count_read tail_store (3 / 16)) 1) b.nand
logs_recycle_full_example =
    logs_recycle_full tail_store four_blocks-IsFormatted tail_lists last_header 62 (omega arith)
      (omega arith) cleared_page refl (omega arith)
