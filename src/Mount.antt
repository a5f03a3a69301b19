-- ===== src/Mount.antt =====
-- Mount and unmount: initCYCstate of fuse-3.0.2/example/helper.c, and xmp_init and xmp_destroy of
-- fuse-3.0.2/example/passthroughBlocked_fh.c. The two paths that xmp_init stores are constants.
pub mod Images
pub mod RoundTrip
pub mod Empty
pub mod Fresh
use cycology.Base.{
  ℕ, ◌+◌, ◌*◌, ◌/◌, ◌%◌, ◌^◌, Bool, Option, none, some, true, ltb, ◌==◌, if◌then◌else◌, ◌>>=◌,
  word_mod,
}
use cycology.Disk.{page_bytes, contents_words, FullPage, FreeList, SuperPage, AddrMap}
use cycology.Disk.Images.{Image, paste, page_image, super_image, super_of, map_image, map_of}
use cycology.Nand.{Features, Nand, Io, init_nand, read_nand, write_nand}

-- `struct pageCache`; a pointer is its 64 bits, the null pointer 0.
pub record PageCache : Type 0 where
  pub size : ℕ
  pub head_lru : ℕ
  pub tail_lru : ℕ
  pub open_file_table : ℕ → ℕ

-- `struct CYCstate`
pub record CycState : Type 0 where
  pub n_features : Features
  pub vaddr_map : AddrMap
  pub cache : PageCache
  pub lists : FreeList

-- The `int` that holds the size of an address map in bytes.
abbrev pub map_bytes : ℕ → ℕ
map_bytes size = (8 + 4 * size) % word_mod

-- The memset of initCYCstate clears 254 bytes of the table: its first 31 pointers and the low 6 bytes
-- of the next.
unfoldable pub cleared_table : (ℕ → ℕ) → ℕ → ℕ
cleared_table table i =
    if ltb i 31 then 0 else if i == 31 then table i / 2 ^ 48 * 2 ^ 48 else table i

-- `buf` is what the uninitialised page holds, `memory` what the memory of the address map and `table`
-- what that of the cache holds. `none` besides: the size read from the store reaches past the page.
unfoldable pub init_cyc_state : Io → Nand → Features → FullPage → Image → (ℕ → ℕ) → Option CycState
init_cyc_state io n features buf memory table = do
  (_, zeroth) ← read_nand io n buf 0
  (_, page) ← read_nand io n zeroth (super_of (page_image zeroth)).latest_vaddr_map
  if ltb page_bytes (map_bytes (map_of (page_image page)).size)
      then none
      else some (record {
        n_features = features;
        vaddr_map =
            map_of
              (paste memory 0 (map_bytes (map_of (page_image page)).size / 4) (page_image page));
        cache = record {
          size = 0;
          head_lru = 0;
          tail_lru = 0;
          open_file_table = cleared_table table;
        };
        lists = (super_of (page_image zeroth)).free_lists;
      })

-- `old` is the static variable of vNANDlib.c, `file` the store; the result is the store with the
-- features that initNAND sets, and the state.
unfoldable pub xmp_init :
    Bool → Io → Image → Features → FullPage → Image → (ℕ → ℕ) → Option (Nand × CycState)
xmp_init opened io file old buf memory table =
    let features = init_nand opened io file old in
    let n : Nand = record { file = file; features = features } in
    init_cyc_state io n features buf memory table >>= λ state. some (n, state)

-- The page of the super block with the free lists of the state.
unfoldable pub updated_super : FullPage → FreeList → FullPage
updated_super page lists = record page {
  contents = super_image (record (super_of page.contents) { free_lists = lists }) page.contents;
}

-- The same page with the address map copied over its contents: the fields behind them stay.
unfoldable pub updated_map : FullPage → AddrMap → FullPage
updated_map page m = record page {
  contents = paste page.contents 0 (map_bytes m.size / 4) (map_image m (λ _. 0));
}

-- `none` besides: the map reaches past the contents of a page.
unfoldable pub xmp_destroy : Io → Nand → CycState → FullPage → Option Nand
xmp_destroy io n state buf = do
  (_, page) ← read_nand io n buf 0
  (_, n') ← write_nand io n (updated_super page state.lists) 0 true
  if ltb (4 * contents_words) (map_bytes state.vaddr_map.size)
      then none
      else (write_nand io n' (updated_map (updated_super page state.lists) state.vaddr_map)
            (super_of (updated_super page state.lists).contents).latest_vaddr_map true
          >>= λ r. some r.1)
