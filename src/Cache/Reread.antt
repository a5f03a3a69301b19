-- ===== src/Cache/Reread.antt =====
-- fs_getPage of fuse-3.0.2/example/cache_code/filesystem.c, twice with the same page of a file with one
-- level.
use cycology.Base.{ℕ, suc, ◌+◌, ◌<◌, ◌≡◌, refl, ap, ◌∙◌, some, List, arith}
use cycology.Cache.Structs.{WriteablePage, Heap}
use cycology.Cache.Keys.{key_number}
use cycology.Cache.Table.{cache_get}
use cycology.Cache.Lookup.{cache_get-Missing}
use cycology.Cache.Agree.{cache_get-Agrees}
use cycology.Cache.Link.{grown}
use cycology.Cache.PutPage.{listed_page_same, IsNewPage, put_page_into_cache_run}
use cycology.Cache.Tree.{read_wp_from_disk, put_page_into_cache, fs_get_page}
use cycology.Cache.Written.{prepared, prepared-IsNewPage, listed, listed_found, fs_get_page_present}
use cycology.Cache.Indexes.{fs_get_page_near}

read_run :
    (h : Heap) (address : ℕ)
    → (pages : ℕ → WriteablePage) × (read_wp_from_disk h address
        ≡ (h.fresh, prepared h pages h.logs))
unfolding read_wp_from_disk
read_run h address = ((read_wp_from_disk h address).1.pages, refl)

missing_page :
    (h : Heap) (key bin : ℕ) (ys zs us xs fs : List ℕ)
    → IsNewPage (record h { fresh = h.fresh + 1 }) key bin ys zs us xs fs
    → cache_get h key ≡ some 0
unfolding key_number
missing_page h key bin ys zs us xs fs v =
    let h0 : Heap = record h { fresh = h.fresh + 1 } in
    cache_get-Agrees h0 h
      (record {
        numbers = λ x. refl;
        keys = λ x. refl;
        nexts = λ x. refl;
        max_size = refl;
        size = refl;
        table = λ i. refl;
      })
      key refl
    ∙ cache_get-Missing h0 key bin ys zs v.placed v.missing

-- A data page that the cache, which is not full, does not have, of a file with one level of pages and no
-- place in the list of files, within the 2064 bytes for which there is an address: fs_getPage returns a
-- new entry with a new page, and once more returns that entry and leaves the memory as it is.
pub fs_get_page-fs_get_page :
    (f f' : ℕ) (h : Heap) (key bin : ℕ) (ys zs us xs fs : List ℕ)
    → (h.files (h.keys key).file).tree_height ≡ 1
    → (h.keys key).data_offset < 2064
    → IsNewPage (record h { fresh = h.fresh + 1 }) key bin ys zs us xs fs
    → (h' : Heap) × (fs_get_page (suc f) h key ≡ some (h.fresh + 1, h'))
      × (fs_get_page (suc f') h' key ≡ some (h.fresh + 1, h'))
      × ((h'.entries (h.fresh + 1)).wp ≡ h.fresh)
fs_get_page-fs_get_page f f' h key bin ys zs us xs fs height near v =
    let (pages, read) = read_run h ((h.files (h.keys key).file).direct_page 0) in
    let h1 : Heap = prepared h pages h.logs in
    let file : ℕ = (h.keys key).file in
    let (entries, table, stored, put) =
      put_page_into_cache_run h1 key bin h.fresh ys zs us xs fs
        (prepared-IsNewPage h pages h.logs key bin ys zs us xs fs v) in
    let h2 : Heap = listed h1 key bin h.fresh ys zs entries table stored file (h.fresh + 1) in
    let (same_pages, same_keys, same_fresh, same_wp, same_height) =
      listed_page_same (grown h1 entries table) file (h.fresh + 1) in
    let level : (h2.keys key).levels_above ≡ 0 =
      ap (λ k. (k key).levels_above) same_keys ∙ v.level in
    let high : (h2.files (h2.keys key).file).tree_height ≡ 1 =
      ap (λ k. (h2.files (k key).file).tree_height) same_keys ∙ same_height file ∙ height in
    (
      h2,
      fs_get_page_near f h key v.level height (missing_page h key bin ys zs us xs fs v) near
          ∙ ap (λ r. put_page_into_cache r.1 r.0 key) read
          ∙ put,
      fs_get_page_present f' h2 key (h.fresh + 1) (rw (high, level) refl)
          (listed_found h1 key bin h.fresh ys zs entries table stored file (h.fresh + 1))
          (λ e. omega (arith, e)),
      same_wp (h.fresh + 1) ∙ stored.page,
    )
