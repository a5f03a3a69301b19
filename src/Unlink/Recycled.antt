-- ===== src/Unlink/Recycled.antt =====
-- The removal of the last link of a file that is not open.
use cycology.Base.{
  ℕ, ◌+◌, ◌*◌, ◌/◌, ◌%◌, ◌<◌, ◌≤◌, ◌≡◌, ◌≢◌, refl, some, true, [], arith, ◌==◌, lt→ltb,
}
use cycology.Disk.{FullPage, FreeList, LogHeader}
use cycology.Disk.Images.{header_of}
use cycology.Nand.{Nand}
use cycology.Nand.Layout.{IsFormatted}
use cycology.Nand.Pages.{page_at, read_nand_lem}
use cycology.Nand.Write.{working}
use cycology.Nand.Chain.{next_link, Chain}
use cycology.Log.{FreeBlock, get_free_block}
use cycology.Log.Recycle.{logs_recycle}
use cycology.Log.Recycle.Append.{logs_recycle-get_free_block}
use cycology.Mount.{CycState}
use cycology.Unlink.{
  Host, Unlinked, unlink_stub, without_file, remove_from_log, remove_file, xmp_unlink,
}

first-without_file : (h : LogHeader) → (without_file h).first ≡ h.first
unfolding without_file
first-without_file h = refl

files-without_file : (h : LogHeader) → h.file_count ≡ 1 → ((without_file h).file_count == 0) ≡ true
unfolding without_file
files-without_file h e = rw e

module _ (n : Nand) (v : IsFormatted n.features) (state : CycState) (host : Host)
    (buf buf2 : FullPage) (f l a : ℕ) (links : host.links ≡ some 1) (f_small : f < 254)
    (f_inside : f < state.vaddr_map.size) (closed : state.cache.open_file_table f ≡ 0)
    (file_page : state.vaddr_map.map f < n.features.num_blocks * 16)
    (log : (header_of (page_at n (state.vaddr_map.map f)).contents).log_id ≡ l)
    (l_inside : l < state.vaddr_map.size) (log_page : state.vaddr_map.map l ≡ a)
    (inside : a < n.features.num_blocks * 16)
    (one : (header_of (page_at n a).contents).file_count ≡ 1) where
  remove_file_lem :
      (n' : Nand) (lists' : FreeList)
      → logs_recycle working n state.lists (without_file (header_of (page_at n a).contents)) a
        ≡ some (n', lists')
      → xmp_unlink working n state host buf buf2 f
        ≡ some (unlink_stub host (record state { lists = lists' }) n')
  unfolding xmp_unlink remove_file remove_from_log
  remove_file_lem n' lists' run = rw (
    links,
    lt→ltb f 254 f_small,
    closed,
    lt→ltb f state.vaddr_map.size f_inside,
    read_nand_lem n v working buf (state.vaddr_map.map f) file_page,
    log,
    lt→ltb l state.vaddr_map.size l_inside,
    log_page,
    read_nand_lem n v working buf2 a inside,
    files-without_file (header_of (page_at n a).contents) one,
    run,
  )

  -- When the last link of a closed file goes that is alone in a log of one block, not full, and the
  -- partially used free list has no tail, the block goes on the list from the page of the log's last
  -- header on, and getFreeBlock then hands out the page after the header. The two virtual addresses
  -- stay in use.
  pub xmp_unlink-get_free_block :
      (b_buf : FullPage)
      → host.unlinked ≡ true
      → (header_of (page_at n a).contents).first ≡ a / 16
      → a % 16 ≤ 13
      → a ≢ 0
      → next_link n a ≡ 0
      → state.lists.partial_tail ≡ 0
      → (u : Unlinked) × (b : FreeBlock) × (xmp_unlink working n state host buf buf2 f ≡ some u)
        × (u.result ≡ 0)
        × (u.nand ≡ n)
        × (u.state.vaddr_map ≡ state.vaddr_map)
        × (get_free_block working u.nand u.state.lists b_buf true ≡ some b)
        × (b.free_page ≡ a + 1)
        × Chain n b.lists.partial_head []
  unfolding unlink_stub
  xmp_unlink-get_free_block b_buf ok first index ne end tail =
      let (lists', b, run, taken, page, rest) =
        logs_recycle-get_free_block n v state.lists
          (without_file (header_of (page_at n a).contents)) a inside index
          (rw (first-without_file (header_of (page_at n a).contents)) (omega (arith, first))) b_buf
          tail ne end in
      (
        unlink_stub host (record state { lists = lists' }) n,
        b,
        remove_file_lem n lists' run,
        rw ok,
        refl,
        refl,
        taken,
        page,
        rest,
      )
