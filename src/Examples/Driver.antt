-- ===== src/Examples/Driver.antt =====
-- Reads, writes and erasures.
use cycology.Base.{◌/◌, ◌≡◌, refl, false, some, arith, add32, minus_one}
use cycology.Disk.{page_bytes, block_bytes, FullPage}
use cycology.Nand.{Nand, read_nand, write_nand, erase_nand}
use cycology.Nand.Pages.{next_page_at, erase_count_at, SamePage}
use cycology.Nand.Write.{
  working, Programmed, write_nand-Programmed, write_nand_out_of_order, read_nand-write_nand,
}
use cycology.Nand.Erase.{Erased, count_read, erase_nand-Erased, erase_nand_counts}
use cycology.Makefs.{cleared_page}
use cycology.Examples.{four_blocks-IsFormatted, fresh_store, inode_page, write_48}

write_nand-Programmed_example :
    (n' : Nand) × (write_nand working fresh_store inode_page 48 false ≡ some (block_bytes, n'))
    × Programmed fresh_store inode_page 48 (add32 (next_page_at fresh_store (48 / 16)) 1) n'
write_nand-Programmed_example =
    write_nand-Programmed fresh_store four_blocks-IsFormatted inode_page 48 (omega arith)
      (omega arith) refl

write_nand_out_of_order_example :
    write_nand working fresh_store inode_page 53 false ≡ some (minus_one, fresh_store)
write_nand_out_of_order_example =
    write_nand_out_of_order fresh_store four_blocks-IsFormatted inode_page 53 (omega arith) working
      (omega arith)

read_nand-write_nand_example :
    (p : FullPage) × (read_nand working (write_48).0 cleared_page 48 ≡ some (page_bytes, p))
    × SamePage p inode_page
read_nand-write_nand_example =
    read_nand-write_nand fresh_store four_blocks-IsFormatted inode_page 48 (omega arith) false
      (write_48).0 cleared_page (omega arith) (write_48).1

erase_nand-Erased_example :
    (n' : Nand) × (erase_nand working fresh_store 3 ≡ some (add32 (count_read fresh_store 3) 1, n'))
    × Erased fresh_store 3 (add32 (count_read fresh_store 3) 1) n'
erase_nand-Erased_example = erase_nand-Erased fresh_store four_blocks-IsFormatted 3 (omega arith)

erase_nand_counts_example :
    (first second : Nand) × (erase_nand working fresh_store 0
      ≡ some (add32 (erase_count_at fresh_store 0) 1, first))
    × (erase_count_at first 0 ≡ add32 (erase_count_at fresh_store 0) 1)
    × (erase_nand working fresh_store 1 ≡ some (add32 (next_page_at fresh_store 1) 1, second))
    × (erase_count_at second 1 ≡ add32 (next_page_at fresh_store 1) 1)
erase_nand_counts_example = erase_nand_counts fresh_store four_blocks-IsFormatted (omega arith)
