-- ===== src/Open/Count.antt =====
-- What xmp_open counts and which log it gives a file.
use cycology.Base.{lt→ltb, ℕ, ◌+◌, ◌*◌, ◌<◌, ◌≡◌, ◌≢◌, refl, some, arith, add32, minus_one, ne→==}
use cycology.Disk.{FullPage, Inode}
use cycology.Disk.Images.{header_of}
use cycology.Nand.{Nand}
use cycology.Nand.Layout.{IsFormatted}
use cycology.Nand.Pages.{page_at, read_nand_lem}
use cycology.Nand.Write.{working}
use cycology.Mount.{CycState}
use cycology.Files.{Memory, init_open_file}
use cycology.Open.{Opened, add_log, add_open_file, count_open, open_new, xmp_open}

module _ (n : Nand) (state : CycState) (memory : Memory) (buf : FullPage) (ind : Inode)
    (f flags : ℕ) (f_small : f < 254) where
  -- A further open of an open file returns the same openFile with one more open counted, and changes
  -- no other file, no log and no entry of the table.
  pub xmp_open_again :
      (q : ℕ)
      → state.cache.open_file_table f ≡ q
      → q ≢ 0
      → (o : Opened) × (xmp_open working n state memory buf ind f flags ≡ some o)
        × (o.result ≡ 0)
        × (o.handle ≡ some (flags, q))
        × (o.state ≡ state)
        × ((o.memory.files q).current_opens ≡ add32 (memory.files q).current_opens 1)
        × ((p : ℕ) → p ≢ q → o.memory.files p ≡ memory.files p)
        × (o.memory.logs ≡ memory.logs)
  unfolding xmp_open count_open
  xmp_open_again q e ne = (
    count_open (state, memory) q flags,
    rw (ne→== f minus_one (omega arith), lt→ltb f 254 f_small, e, ne→== q 0 ne),
    refl,
    refl,
    refl,
    ground arith,
    λ p h. ground arith,
    refl,
  )

  -- The first open of a file whose log is not open either: the table gets a new log and a new openFile,
  -- but the openFile refers to no log, and counts two opens.
  pub xmp_open_first :
      (l : ℕ)
      → f < state.vaddr_map.size
      → IsFormatted n.features
      → state.vaddr_map.map f < n.features.num_blocks * 16
      → (header_of (page_at n (state.vaddr_map.map f)).contents).f_inode.i_log_no ≡ l
      → l < 254
      → l < state.vaddr_map.size
      → l ≢ f
      → state.cache.open_file_table f ≡ 0
      → state.cache.open_file_table l ≡ 0
      → (o : Opened) × (xmp_open working n state memory buf ind f flags ≡ some o)
        × (o.result ≡ 0)
        × (o.handle ≡ some (flags, memory.next + 1))
        × (o.state.cache.open_file_table l ≡ memory.next)
        × (o.state.cache.open_file_table f ≡ memory.next + 1)
        × ((o.memory.files (memory.next + 1)).main_extent_log ≡ 0)
        × ((o.memory.files (memory.next + 1)).current_opens ≡ 2)
  unfolding xmp_open open_new count_open add_open_file add_log init_open_file
  xmp_open_first l f_inside v inside log l_small l_inside apart closed no_log = (
    count_open (add_open_file (add_log state memory l) 0 ind f) (memory.next + 1) flags,
    rw
        (
          ne→== f minus_one (omega arith),
          lt→ltb f 254 f_small,
          closed,
          lt→ltb f state.vaddr_map.size f_inside,
          read_nand_lem n v working buf (state.vaddr_map.map f) inside,
          log,
          lt→ltb l 254 l_small,
          no_log,
          lt→ltb l state.vaddr_map.size l_inside,
        )
        refl,
    refl,
    refl,
    ground arith,
    ground arith,
    ground arith,
    ground arith,
  )
