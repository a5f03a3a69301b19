-- ===== src/Examples/Files.antt =====
-- Files created, opened and removed.
use cycology.Base.{◌≡◌, refl, true, some, [], ◌∷◌, arith}
use cycology.Nand.Write.{working}
use cycology.Nand.Chain.{Chain}
use cycology.Makefs.{cleared_page}
use cycology.Log.{FreeBlock, get_free_block}
use cycology.Files.{Created, xmp_create}
use cycology.Unlink.{Unlinked, xmp_unlink}
use cycology.Unlink.Recycled.{xmp_unlink-get_free_block}
use cycology.Open.{Opened, xmp_open}
use cycology.Open.Count.{xmp_open_first}
use cycology.Files.{Memory}
use cycology.Files.Creation.{IsCreated, xmp_create-IsCreated}
use cycology.Examples.{
  four_blocks-IsFormatted, small_map-IsFree, linked_store, linked_store-Chain, zero_inode,
  some_state, some_memory, mapped_state, header_store, header_store_log, one_file_store,
  one_file_store_log, one_file_store_count, one_file_store_first, one_file_store_unlinked,
  closed_state, some_host,
}

xmp_create-IsCreated_example :
    (c : Created) × (xmp_create working linked_store some_state some_memory true 2 33188 2
        cleared_page cleared_page
      ≡ some c)
    × IsCreated linked_store some_memory 1 2 33188 2 33 (3 ∷ []) (48 ∷ []) c
xmp_create-IsCreated_example =
    xmp_create-IsCreated linked_store four_blocks-IsFormatted some_state some_memory 2 33188 2
      cleared_page cleared_page 1 2 32 (3 ∷ []) (48 ∷ []) small_map-IsFree (omega arith)
      (omega arith) linked_store-Chain (omega arith, tt) (omega arith) refl

-- every file is open once
abbrev opened_memory : Memory
opened_memory = record some_memory {
  files = λ _. record { current_opens = 1; main_extent_log = 0; inode = zero_inode; address = 0 };
}

xmp_open_first_example :
    (o : Opened) × (xmp_open working header_store
        (mapped_state 0)
        some_memory
        cleared_page
        zero_inode
        1
        2
      ≡ some o)
    × (o.result ≡ 0)
    × (o.handle ≡ some (2, 101))
    × (o.state.cache.open_file_table 2 ≡ 100)
    × (o.state.cache.open_file_table 1 ≡ 101)
    × ((o.memory.files 101).main_extent_log ≡ 0)
    × ((o.memory.files 101).current_opens ≡ 2)
xmp_open_first_example =
    xmp_open_first header_store (mapped_state 0) some_memory cleared_page zero_inode 1 2
      (omega arith) 2 (omega arith) four_blocks-IsFormatted (omega arith) header_store_log
      (omega arith) (omega arith) (omega arith) refl refl

xmp_unlink-get_free_block_example :
    (u : Unlinked) × (b : FreeBlock) × (xmp_unlink working one_file_store closed_state some_host
        cleared_page cleared_page 1
      ≡ some u)
    × (u.result ≡ 0)
    × (u.nand ≡ one_file_store)
    × (u.state.vaddr_map ≡ closed_state.vaddr_map)
    × (get_free_block working u.nand u.state.lists cleared_page true ≡ some b)
    × (b.free_page ≡ 34)
    × Chain one_file_store b.lists.partial_head []
xmp_unlink-get_free_block_example =
    xmp_unlink-get_free_block one_file_store four_blocks-IsFormatted closed_state some_host
      cleared_page cleared_page 1 2 33 refl (omega arith) (omega arith) refl (omega arith)
      one_file_store_log (omega arith) refl (omega arith) one_file_store_count cleared_page refl
      one_file_store_first (omega arith) (omega arith) one_file_store_unlinked refl
