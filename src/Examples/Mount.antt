-- ===== src/Examples/Mount.antt =====
-- makeVirtualNAND, makefs, mount and unmount.
use cycology.Base.{◌≡◌, true, some, arith}
use cycology.Disk.Images.{Image}
use cycology.Nand.{Nand}
use cycology.Nand.Write.{working}
use cycology.Makefs.{make_virtual_nand, cleared_page, makefs}
use cycology.Makefs.Format.{IsEmptyFs, makefs-IsEmptyFs}
use cycology.Mount.{CycState, init_cyc_state, xmp_destroy}
use cycology.Mount.Images.{SameMap}
use cycology.Mount.RoundTrip.{init_cyc_state-xmp_destroy}
use cycology.Mount.Fresh.{opened, make_virtual_nand-IsUnused}
use cycology.Mount.Empty.{IsUnused}
use cycology.Examples.{
  four_blocks, four_blocks-IsFormatted, fresh_store, fresh_store-IsFresh, small_map, some_lists,
  super_store, super_store_latest, some_state,
}

makefs-IsEmptyFs_example :
    (n' : Nand) × (makefs (λ _. working) fresh_store ≡ some n') × IsEmptyFs n'
makefs-IsEmptyFs_example =
    makefs-IsEmptyFs fresh_store four_blocks-IsFormatted (omega arith) fresh_store-IsFresh

make_virtual_nand-IsUnused_example :
    (file : Image) × (n : Nand) × (state : CycState) × (make_virtual_nand true true (λ _. 0) 64
      ≡ some file)
    × ((opened file four_blocks).features.num_blocks ≡ 64)
    × (makefs (λ _. working) (opened file four_blocks) ≡ some n)
    × (init_cyc_state working n n.features cleared_page (λ i. i) (λ i. i) ≡ some state)
    × IsUnused n state
make_virtual_nand-IsUnused_example =
    make_virtual_nand-IsUnused 64 four_blocks cleared_page (λ i. i) (λ i. i) (omega arith)
      (omega arith)

init_cyc_state-xmp_destroy_example :
    (n' : Nand) × (state' : CycState) × (xmp_destroy working super_store some_state cleared_page
      ≡ some n')
    × (init_cyc_state working n' n'.features cleared_page (λ i. i) (λ i. i) ≡ some state')
    × (state'.lists ≡ some_lists)
    × SameMap state'.vaddr_map small_map
init_cyc_state-xmp_destroy_example =
    init_cyc_state-xmp_destroy super_store some_state cleared_page cleared_page (λ i. i) (λ i. i) 16
      four_blocks-IsFormatted (omega arith) (omega arith) super_store_latest (omega arith)
