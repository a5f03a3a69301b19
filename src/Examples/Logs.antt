-- ===== src/Examples/Logs.antt =====
-- The pages of logs.
use cycology.Base.{◌+◌, ◌*◌, ◌≡◌, refl, some, [], ◌∷◌, ◌++◌, arith, minus_one}
use cycology.Disk.{FreeList}
use cycology.Nand.{Nand}
use cycology.Nand.Write.{working}
use cycology.Makefs.{cleared_page}
use cycology.Addresses.Alloc.{count_from}
use cycology.Log.{ActiveLog, Allocated, get_free_page}
use cycology.Log.Steps.{IsPlaced}
use cycology.Log.Pages.{get_free_page-IsPlaced}
use cycology.Log.Sequence.{take_pages, Begun, take_pages-block}
use cycology.Examples.{four_blocks-IsFormatted, used_store, used_lists, log_at, log_at-IsPlaced}

get_free_page-IsPlaced_example :
    (a : Allocated) × (get_free_page working used_store used_lists
        (log_at 45)
        cleared_page
        cleared_page
      ≡ some a)
    × (a.buf.address ≡ 45)
    × IsPlaced a.nand a.log
get_free_page-IsPlaced_example =
    get_free_page-IsPlaced used_store four_blocks-IsFormatted used_lists (log_at 45) cleared_page
      cleared_page 2 (omega arith) refl log_at-IsPlaced

take_pages-block_example :
    (n' : Nand) × (lists' : FreeList) × (log' : ActiveLog) × (take_pages
        (λ _. cleared_page)
        (λ _. cleared_page)
        16
        used_store
        (record used_lists { complete_head = 48 })
        (log_at 32)
      ≡ some (count_from (2 * 16) 14 ++ (minus_one ∷ (2 * 16 + 14) ∷ []), n', lists', log'))
    × Begun n' 3 log'
take_pages-block_example =
    take_pages-block (λ _. cleared_page) (λ _. cleared_page) used_store four_blocks-IsFormatted
      (record used_lists { complete_head = 48 }) 3 (omega arith) refl (log_at 32) refl (omega arith)
      refl
