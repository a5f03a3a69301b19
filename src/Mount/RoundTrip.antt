-- ===== src/Mount/RoundTrip.antt =====
-- An unmount followed by a mount.
use cycology.Base.{ℕ, ◌*◌, ◌/◌, ◌<◌, ◌≤◌, ◌≡◌, ◌≢◌, refl, ◌∙◌, some, true, false, arith, ltb}
use cycology.Disk.{block_bytes, FullPage, FreeList, AddrMap}
use cycology.Disk.Images.{
  Image, paste, page_image, page_of, super_image, super_of, map_image, map_of,
}
use cycology.Nand.{Nand, write_nand}
use cycology.Nand.Layout.{IsFormatted}
use cycology.Nand.Pages.{page_at, next_page_at, SamePage, SamePage-trans, read_nand_lem}
use cycology.Nand.Write.{working, Programmed, write_nand-random_access}
use cycology.Mount.{
  CycState, map_bytes, cleared_table, init_cyc_state, updated_super, updated_map, xmp_destroy,
}
use cycology.Mount.Images.{
  SameMap, map_bytes_lem, super_of-words, super_of-super_image, page_image_word, updated_map_word,
  map_of-SameMap,
}

-- `n'` is `n` with the free lists `free` in its super block and the map `m` on page `mp`
pub record Unmounted (n : Nand) (free : FreeList) (m : AddrMap) (mp : ℕ) (n' : Nand) : Type 0 where
  pub features : n'.features ≡ n.features
  pub zeroth : SamePage (page_at n' 0) (updated_super (page_at n 0) free)
  pub map_page : SamePage (page_at n' mp) (updated_map (updated_super (page_at n 0) free) m)
  pub others : (k : ℕ) → k ≢ 0 → k ≢ mp → SamePage (page_at n' k) (page_at n k)
  pub next_page : (b : ℕ) → next_page_at n' b ≡ next_page_at n b

updated_super-type :
    (page : FullPage) (free : FreeList) → (updated_super page free).page_type ≡ page.page_type
unfolding updated_super
updated_super-type page free = refl

updated_map-type : (page : FullPage) (m : AddrMap) → (updated_map page m).page_type ≡ page.page_type
unfolding updated_map
updated_map-type page m = refl

latest-updated_super :
    (page : FullPage) (free : FreeList)
    → (super_of (updated_super page free).contents).latest_vaddr_map
      ≡ (super_of page.contents).latest_vaddr_map
unfolding updated_super super_of super_image
latest-updated_super page free = refl

page_type_lem : (n : Nand) (k : ℕ) → (page_at n k).page_type < 256
unfolding page_of
page_type_lem n k = omega arith

module _ (n : Nand) (v : IsFormatted n.features) (state : CycState) (buf : FullPage) (mp : ℕ)
    (nonzero : mp ≢ 0) (inside : mp < n.features.num_blocks * 16)
    (latest : (super_of (page_at n 0).contents).latest_vaddr_map ≡ mp)
    (small : state.vaddr_map.size ≤ 254) where
  fits : ltb 1024 (map_bytes state.vaddr_map.size) ≡ false
  fits = rw (map_bytes_lem state.vaddr_map.size small) (ground arith)

  -- xmp_destroy writes the free lists of the state to the super block and its address map to the page
  -- that the super block names; no other page and no counter changes. The page of the map gets the
  -- fields behind the contents, its type among them, from the super block.
  pub xmp_destroy-Unmounted :
      (n' : Nand) × (xmp_destroy working n state buf ≡ some n')
      × Unmounted n state.lists state.vaddr_map mp n'
  unfolding xmp_destroy
  xmp_destroy-Unmounted = first (
      write_nand-random_access n v zeroth 0 (omega arith)
        (rw (updated_super-type (page_at n 0) state.lists) (page_type_lem n 0)))
    where
      zeroth : FullPage
      zeroth = updated_super (page_at n 0) state.lists

      second :
          (a : Nand)
          → write_nand working n zeroth 0 true ≡ some (block_bytes, a)
          → Programmed n zeroth 0 (next_page_at n 0) a
          → (b : Nand) × (write_nand working a (updated_map zeroth state.vaddr_map) mp true
              ≡ some (block_bytes, b))
            × Programmed a (updated_map zeroth state.vaddr_map) mp (next_page_at a (mp / 16)) b
          → (n' : Nand) × (xmp_destroy working n state buf ≡ some n')
            × Unmounted n state.lists state.vaddr_map mp n'
      second a ea made (b, eb, mapped) = (
        b,
        rw (
          read_nand_lem n v working buf 0 (omega arith),
          ea,
          fits,
          latest-updated_super (page_at n 0) state.lists,
          latest,
          eb,
        ),
        record {
          features = mapped.features ∙ made.features;
          zeroth = SamePage-trans (mapped.others 0 (omega arith)) made.page;
          map_page = mapped.page;
          others = λ k h h'. SamePage-trans (mapped.others k h') (made.others k h);
          next_page = λ c. ground (arith, mapped.next_page c, made.next_page c);
        },
      )

      first :
          (a : Nand) × (write_nand working n zeroth 0 true ≡ some (block_bytes, a))
            × Programmed n zeroth 0 (next_page_at n 0) a
          → (n' : Nand) × (xmp_destroy working n state buf ≡ some n')
            × Unmounted n state.lists state.vaddr_map mp n'
      first (a, ea, made) = second a ea made (
          write_nand-random_access a (rw made.features v) (updated_map zeroth state.vaddr_map) mp
            (rw made.features inside)
            (rw
              (
                updated_map-type zeroth state.vaddr_map,
                updated_super-type (page_at n 0) state.lists,
              )
              (page_type_lem n 0)))

module _ (n : Nand) (v : IsFormatted n.features) (buf : FullPage) (memory : Image)
    (table : ℕ → ℕ) where
  super_lem :
      (page : FullPage) (free : FreeList)
      → SamePage (page_at n 0) (updated_super page free)
      → super_of (page_image (page_at n 0)) ≡ record (super_of page.contents) { free_lists = free }
  unfolding updated_super
  super_lem page free same =
      super_of-words (page_image (page_at n 0))
        (super_image (record (super_of page.contents) { free_lists = free }) page.contents)
        (λ i h. page_image_word (page_at n 0) i (omega arith) ∙ same.contents i (omega arith))
      ∙ super_of-super_image (record (super_of page.contents) { free_lists = free }) page.contents

  fits_page :
      (zeroth : FullPage) (m : AddrMap) (mp : ℕ)
      → m.size ≤ 254
      → SamePage (page_at n mp) (updated_map zeroth m)
      → ltb 1048 (map_bytes (map_of (page_image (page_at n mp))).size) ≡ false
  unfolding map_of map_image
  fits_page zeroth m mp small same_map =
      rw
        (
          page_image_word (page_at n mp) 0 (omega arith),
          same_map.contents 0 (omega arith),
          updated_map_word zeroth m 0 small (omega arith),
          map_bytes_lem m.size small,
        )
        (ground arith)

  -- what initCYCstate makes of a super block and a map
  init_cyc_state_lem :
      (page zeroth : FullPage) (free : FreeList) (m : AddrMap) (mp : ℕ)
      → 0 < n.features.num_blocks
      → mp < n.features.num_blocks * 16
      → m.size ≤ 254
      → (super_of page.contents).latest_vaddr_map ≡ mp
      → SamePage (page_at n 0) (updated_super page free)
      → SamePage (page_at n mp) (updated_map zeroth m)
      → (state : CycState) × (init_cyc_state working n n.features buf memory table ≡ some state)
        × (state.lists ≡ free)
        × SameMap state.vaddr_map m
  unfolding init_cyc_state
  init_cyc_state_lem page zeroth free m mp enough inside small latest same same_map = (
    record {
      n_features = n.features;
      vaddr_map = map_of (
          paste memory 0 (map_bytes (map_of (page_image (page_at n mp))).size / 4)
            (page_image (page_at n mp)));
      cache = record {
        size = 0;
        head_lru = 0;
        tail_lru = 0;
        open_file_table = cleared_table table;
      };
      lists = free;
    },
    rw (
      read_nand_lem n v working buf 0 (omega arith),
      super_lem page free same,
      latest,
      read_nand_lem n v working (page_at n 0) mp inside,
      fits_page zeroth m mp small same_map,
    ),
    refl,
    map_of-SameMap (page_at n mp) zeroth m memory small same_map,
  )

-- What xmp_destroy writes, a later initCYCstate reads: the free lists are those of the state that was
-- unmounted, and the address map has its size, its first unused entry and its entries, whatever the
-- uninitialised memory holds.
pub init_cyc_state-xmp_destroy :
    (n : Nand) (state : CycState) (buf buf' : FullPage) (memory : Image) (table : ℕ → ℕ) (mp : ℕ)
    → IsFormatted n.features
    → mp ≢ 0
    → mp < n.features.num_blocks * 16
    → (super_of (page_at n 0).contents).latest_vaddr_map ≡ mp
    → state.vaddr_map.size ≤ 254
    → (n' : Nand) × (state' : CycState) × (xmp_destroy working n state buf ≡ some n')
      × (init_cyc_state working n' n'.features buf' memory table ≡ some state')
      × (state'.lists ≡ state.lists)
      × SameMap state'.vaddr_map state.vaddr_map
init_cyc_state-xmp_destroy n state buf buf' memory table mp v nonzero inside latest small =
    let (n', run, made) = xmp_destroy-Unmounted n v state buf mp nonzero inside latest small in
    let (state', mounted, lists, map) =
      init_cyc_state_lem n' (rw made.features v) buf' memory table (page_at n 0)
        (updated_super (page_at n 0) state.lists) state.lists state.vaddr_map mp
        (rw made.features (omega arith)) (rw made.features inside) small latest made.zeroth
        made.map_page in
    (n', state', run, mounted, lists, map)
