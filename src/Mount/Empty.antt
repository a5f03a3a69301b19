-- ===== src/Mount/Empty.antt =====
-- The first mount of an empty file system.
use mathlib.Core.Path.{subst, sym}
use cycology.Base.{List, suc, ℕ, ◌+◌, ◌-◌, ◌<◌, ◌≡◌, refl, ◌∙◌, some, arith}
use cycology.Disk.{FullPage}
use cycology.Disk.Images.{Image, paste, page_image, super_of, map_of}
use cycology.Nand.{Nand}
use cycology.Nand.Layout.{IsFormatted}
use cycology.Nand.Pages.{page_at, read_nand_lem}
use cycology.Nand.Write.{working}
use cycology.Nand.Chain.{Chain}
use cycology.Makefs.{makefs}
use cycology.Makefs.Link.{IsFresh, blocks_from}
use cycology.Makefs.Format.{IsEmptyFs, super_at, map_at, makefs-IsEmptyFs}
use cycology.Addresses.Alloc.{IsFree, count_from, links-FreeFrom, FreeFrom}
use cycology.Mount.{CycState, cleared_table, init_cyc_state}
use cycology.Mount.Images.{super_of-words, page_image_word}

-- the entries of the address map but 0: the numbers from 1 to 253
unfoldable pub all_addresses : List ℕ
all_addresses = count_from 1 253

-- nothing is in use: the virtual addresses 1 to 253, and all blocks but the first two, are free
pub record IsUnused (n : Nand) (state : CycState) : Type 0 where
  pub addresses : IsFree state.vaddr_map all_addresses
  pub partial : Chain n state.lists.partial_head (blocks_from 2 (n.features.num_blocks - 2))
  pub complete : state.lists.complete_head ≡ 0

module _ (n : Nand) (v : IsFormatted n.features) (enough : 2 < n.features.num_blocks)
    (e : IsEmptyFs n) (buf : FullPage) (memory : Image) (table : ℕ → ℕ) where
  super_lem : super_of (page_image (page_at n 0)) ≡ super_at n
  super_lem =
      super_of-words (page_image (page_at n 0)) (page_at n 0).contents
        (λ i h. page_image_word (page_at n 0) i (omega arith))

  map_word :
      (i : ℕ)
      → i < 256
      → paste memory 0 256 (page_image (page_at n 16)) i ≡ (page_at n 16).contents i
  map_word i h = ground (arith, page_image_word (page_at n 16) i h)

  entry :
      (i : ℕ)
      → i < 254
      → (map_of (paste memory 0 256 (page_image (page_at n 16)))).map i ≡ (map_at n).map i
  unfolding map_of
  entry i h = map_word (2 + i) (omega arith)

  free_ptr_lem : (map_of (paste memory 0 256 (page_image (page_at n 16)))).free_ptr ≡ 1
  unfolding map_of
  free_ptr_lem = map_word 1 (omega arith) ∙ e.free_ptr

  abbrev mounted : CycState
  mounted = record {
    n_features = n.features;
    vaddr_map = map_of (paste memory 0 256 (page_image (page_at n 16)));
    cache = record { size = 0; head_lru = 0; tail_lru = 0; open_file_table = cleared_table table };
    lists = (super_at n).free_lists;
  }

  size_lem : (map_of (page_image (page_at n 16))).size ≡ 254
  unfolding map_of
  size_lem = page_image_word (page_at n 16) 0 (omega arith) ∙ e.map_size

  init_cyc_state_lem : init_cyc_state working n n.features buf memory table ≡ some mounted
  unfolding init_cyc_state
  init_cyc_state_lem = rw (
    read_nand_lem n v working buf 0 (omega arith),
    super_lem,
    e.latest_vaddr_map,
    read_nand_lem n v working (page_at n 0) 16 (omega arith),
    size_lem,
  )

  addresses_lem :
      (k : ℕ) (xs : List ℕ) → 1 + k ≡ 253 → count_from 1 (suc k) ≡ xs → IsFree mounted.vaddr_map xs
  addresses_lem k xs h same =
      subst (λ ys. FreeFrom mounted.vaddr_map.map mounted.vaddr_map.free_ptr ys) same
        (subst (λ p. FreeFrom mounted.vaddr_map.map p (count_from 1 (suc k))) (sym free_ptr_lem)
          (links-FreeFrom mounted.vaddr_map.map 1 k (omega arith) (omega arith)
            (λ j le lt. entry j (omega arith) ∙ e.map_links j (omega arith) (omega arith))
            (entry (1 + k) (omega arith) ∙ subst (λ j. (map_at n).map j ≡ 0) (sym h) e.map_end)))

  all_addresses-IsFree : IsFree mounted.vaddr_map all_addresses
  unfolding all_addresses
  all_addresses-IsFree = addresses_lem 252 all_addresses refl refl

  partial_lem : Chain n mounted.lists.partial_head (blocks_from 2 (n.features.num_blocks - 2))
  partial_lem =
      subst (λ p. Chain n p (blocks_from 2 (n.features.num_blocks - 2))) (sym e.partial_head)
        e.chain

  mount-IsUnused :
      (state : CycState) × (init_cyc_state working n n.features buf memory table ≡ some state)
      × IsUnused n state
  mount-IsUnused = (
    mounted,
    init_cyc_state_lem,
    record { addresses = all_addresses-IsFree; partial = partial_lem; complete = e.complete_head },
  )

-- A file system that makefs writes on a fresh store of at least three blocks mounts: the virtual
-- addresses from 1 to 253 and all blocks but the first two are then free, and the completely used
-- free list is empty.
pub makefs-IsUnused :
    (n : Nand) (buf : FullPage) (memory : Image) (table : ℕ → ℕ)
    → IsFormatted n.features
    → 2 < n.features.num_blocks
    → IsFresh n 0
    → (n' : Nand) × (state : CycState) × (makefs (λ _. working) n ≡ some n')
      × (init_cyc_state working n' n'.features buf memory table ≡ some state)
      × IsUnused n' state
makefs-IsUnused n buf memory table v enough fresh =
    let (n', run, empty) = makefs-IsEmptyFs n v enough fresh in
    let (state, mounted, unused) =
      mount-IsUnused n' empty.formatted empty.enough empty buf memory table in
    (n', state, run, mounted, unused)
