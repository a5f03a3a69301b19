-- ===== src/Cache/Twice.antt =====
-- fs_writeData of fuse-3.0.2/example/cache_code/filesystem.c with a data page that the cache has already.
use Prim.Native.Nat.{Ordering}
use mathlib.Core.Path.{subst}
use cycology.Base.{
  ℕ, zero, suc, ◌<◌, ◌≡◌, ◌≢◌, inl, inr, refl, ap, ◌∙◌, sym, Bool, true, false, some, List, [], ◌∷◌,
  ◌++◌, arith, length, store_keeps, AllNe, AllNe-append, eq-cases, eq→==, ne→==,
}
use cycology.Dll.{Dll, add_to_head, add_to_tail}
use cycology.Dll.Chained.{Chained, Leads, IsDll, IsDll-agree}
use cycology.Dll.Again.{add_to_head_again, add_to_head_cycle}
use cycology.Cache.Structs.{PageKey, CacheEntry, OpenFile, WriteablePage, ActiveLog, Heap}
use cycology.Cache.Keys.{key_number, key_cmp, cache_hash}
use cycology.Cache.Table.{replace_page}
use cycology.Cache.Lookup.{IsPlaced, cache_set_present}
use cycology.Cache.Queues.{
  lru_data, with_lru_data, file_data, with_file_data, lru_files, with_lru_files, lru_contains,
  open_file_add_data_page, cache_add_data_page_to_lru, update_lru_file_head, add_file_to_lru,
  fs_update_file_in_lru,
}
use cycology.Cache.PutPage.{lru_files-open_file_add_data_page, lru_files-cache_add_data_page_to_lru}
use cycology.Cache.Tree.{put_page_into_cache, fs_write_data}
use cycology.Cache.Written.{prepared, prepare_run, with_key, parent_run}

-- A key of a data page that the cache has in the entry `entry`, which is in the list of data pages by
-- their use, and the list of the files by their use.
pub record IsOldPage (h : Heap) (key bin entry : ℕ) (ys zs us vs fs : List ℕ) : Type 0 where
  pub placed : IsPlaced h key bin ys (entry ∷ zs)
  pub same : key_cmp h key (h.entries entry).key ≡ some Ordering.eq
  pub level : (h.keys key).levels_above ≡ 0
  pub pages : IsDll (lru_data h) (us ++ entry ∷ vs)
  pub files : IsDll (lru_files h) fs
  pub few : length fs < h.fresh

module _ (h : Heap) (file : ℕ) where
  lru_contains_total :
      (f before start : ℕ) (xs : List ℕ) (last : ℕ)
      → length xs < f
      → AllNe 0 xs
      → Chained (lru_files h).next (lru_files h).prev before start xs last 0
      → (b : Bool) × (lru_contains f h start file ≡ some b)
  unfolding lru_contains lru_files
  lru_contains_total zero before start xs last fuel nz c = absurd (omega arith)
  lru_contains_total (suc f) before start [] last fuel nz (e, e') = (false, rw e refl)
  lru_contains_total (suc f) before start (x ∷ xs) last fuel nz (e, p, c) =
      let (b, run) = lru_contains_total f x ((lru_files h).next x) xs last (omega arith) nz.1 c in
      elim (eq-cases x file) [
        | inl q ↦ (true, rw (e, ne→== x 0 nz.0, eq→== x file q) refl)
        | inr q ↦ (b, rw (e, ne→== x 0 nz.0, ne→== x file q) run)
      ]

  -- what fs_updateFileInLru leaves as it is
  record IsUpdated (h' : Heap) : Type 0 where
    pages : lru_data h' ≡ lru_data h
    keys : h'.keys ≡ h.keys
    heights : (f : ℕ) → (h'.files f).tree_height ≡ (h.files f).tree_height

  update_either :
      (b : Bool)
      → lru_contains h.fresh h h.lru_file_head file ≡ some b
      → (h' : Heap) × (fs_update_file_in_lru h file ≡ some h') × IsUpdated h'
  unfolding fs_update_file_in_lru lru_data with_lru_files update_lru_file_head add_file_to_lru
  update_either true run = (
    update_lru_file_head h file,
    rw run refl,
    record { pages = refl; keys = refl; heights = λ f. refl },
  )
  update_either false run = (
    add_file_to_lru h file,
    rw run refl,
    record { pages = refl; keys = refl; heights = λ f. refl },
  )

  update_run :
      (fs : List ℕ)
      → IsDll (lru_files h) fs
      → length fs < h.fresh
      → (h' : Heap) × (fs_update_file_in_lru h file ≡ some h') × IsUpdated h'
  unfolding lru_files
  update_run fs v few =
      let (b, run) =
        lru_contains_total h.fresh 0 h.lru_file_head fs h.lru_file_tail few v.nonnull v.chained in
      update_either b run

replaced-IsDll :
    (h : Heap) (entry page : ℕ) (us : List ℕ)
    → IsDll (lru_data h) us
    → IsDll (lru_data (replace_page h entry page)) us
unfolding lru_data replace_page
replaced-IsDll h entry page us v =
    let places : CacheEntry → ℕ × ℕ = (λ e. (e.lru_data_next, e.lru_data_prev)) in
    let kept = store_keeps places h.entries entry (record (h.entries entry) { wp = page }) refl in
    IsDll-agree (lru_data h) (lru_data (replace_page h entry page)) 0 us
      (λ x q. (ap (λ r. r.0) (kept x), ap (λ r. r.1) (kept x))) refl refl v.nonnull v

-- the memory after the lists of pages, before that of files
module _ (h : Heap) (file entry : ℕ) where
  abbrev paged : Heap
  paged = cache_add_data_page_to_lru (open_file_add_data_page h file entry) entry

  paged_files : (fs : List ℕ) → IsDll (lru_files h) fs → IsDll (lru_files paged) fs
  paged_files fs v =
      subst (λ d. IsDll d fs)
        (sym
          (lru_files-cache_add_data_page_to_lru (open_file_add_data_page h file entry) file entry))
        (lru_files-open_file_add_data_page h file entry fs v.nonnull v)

  paged_same :
      (lru_data paged ≡ add_to_head (lru_data h) entry)
      × (paged.keys ≡ h.keys)
      × (paged.fresh ≡ h.fresh)
      × ((f : ℕ) → (paged.files f).tree_height ≡ (h.files f).tree_height)
  unfolding cache_add_data_page_to_lru open_file_add_data_page lru_data with_lru_data with_file_data
  paged_same = (
    refl,
    refl,
    refl,
    store_keeps (λ (f : OpenFile). f.tree_height) h.files file
        (record (h.files file) {
          data_head = (add_to_tail (file_data h file) entry).head;
          data_tail = (add_to_tail (file_data h file) entry).tail;
        })
        refl,
  )

replaced_same :
    (h : Heap) (entry page : ℕ)
    → ((replace_page h entry page).keys ≡ h.keys)
      × ((replace_page h entry page).fresh ≡ h.fresh)
      × ((replace_page h entry page).files ≡ h.files)
      × (lru_files (replace_page h entry page) ≡ lru_files h)
unfolding replace_page lru_files
replaced_same h entry page = (refl, refl, refl, refl)

put_again :
    (h : Heap) (key bin page entry : ℕ) (ys zs us vs fs : List ℕ)
    → IsOldPage h key bin entry ys zs us vs fs
    → entry ≢ 0
    → (h' : Heap) × (put_page_into_cache h page key ≡ some (entry, h'))
      × (lru_data h' ≡ add_to_head (lru_data (replace_page h entry page)) entry)
      × (h'.keys ≡ h.keys)
      × ((f : ℕ) → (h'.files f).tree_height ≡ (h.files f).tree_height)
unfolding put_page_into_cache replace_page
put_again h key bin page entry ys zs us vs fs v nz =
    let file : ℕ = (h.keys key).file in
    let h1 : Heap = replace_page h entry page in
    let (keys1, fresh1, files1, listed1) = replaced_same h entry page in
    let (pages2, keys2, fresh2, heights2) = paged_same h1 file entry in
    let (h', run, w) =
      update_run (paged h1 file entry) file fs
        (paged_files h1 file entry fs (subst (λ d. IsDll d fs) (sym listed1) v.files))
        (rw fresh2 v.few) in
    (
      h',
      rw
          (
            cache_set_present h key bin ys entry zs page v.placed v.same,
            v.level,
            ne→== entry 0 nz,
            run,
          )
          refl,
      w.pages ∙ pages2,
      w.keys ∙ keys2,
      (λ f. w.heights f ∙ heights2 f),
    )

prepared-IsOldPage :
    (h : Heap) (pages : ℕ → WriteablePage) (logs : ℕ → ActiveLog) (key bin entry : ℕ)
    (ys zs us vs fs : List ℕ)
    → IsOldPage h key bin entry ys zs us vs fs
    → IsOldPage (prepared h pages logs) key bin entry ys zs us vs fs
unfolding cache_hash key_cmp key_number lru_data lru_files
prepared-IsOldPage h pages logs key bin entry ys zs us vs fs v = record {
  placed = record {
    hashed = v.placed.hashed;
    listed = v.placed.listed;
    apart = v.placed.apart;
    before = v.placed.before;
    counted = v.placed.counted;
  };
  same = v.same;
  level = v.level;
  pages = v.pages;
  files = v.files;
  few = let few = v.few in omega arith;
}

with_key_pages : (h : Heap) (parent : PageKey) → lru_data (with_key h parent) ≡ lru_data h
unfolding lru_data
with_key_pages h parent = refl

-- fs_writeData with a data page that the cache has already, of a file with a log and one level of
-- pages, the page being in the list of data pages by their use and the files in a list of theirs:
-- it goes through, but the list of data pages is a cycle then: its head is the page's entry, and
-- from there the fields for the next page lead through the entries that stood before it, none of
-- them null, back to it. So no list of entries is what the pointers hold.
pub fs_write_data_again :
    (h : Heap) (key bin entry : ℕ) (bytes : ℕ → ℕ) (ys zs us vs fs : List ℕ)
    → (h.files (h.keys key).file).main_extent_log ≢ 0
    → (h.files (h.keys key).file).tree_height ≡ 1
    → IsOldPage h key bin entry ys zs us vs fs
    → (h' : Heap) × (fs_write_data h key bytes ≡ some (h.fresh, h'))
      × ((lru_data h').head ≡ entry)
      × Leads (lru_data h').next entry (entry ∷ us) entry
      × AllNe 0 (entry ∷ us)
      × ((ws : List ℕ) → ¬ IsDll (lru_data h') ws)
unfolding fs_write_data
fs_write_data_again h key bin entry bytes ys zs us vs fs logged height v =
    let (pages, logs, ready, _) = prepare_run h key bytes logged in
    let h1 : Heap = prepared h pages logs in
    let v1 = prepared-IsOldPage h pages logs key bin entry ys zs us vs fs v in
    let (_, (nz, _)) = AllNe-append 0 us (entry ∷ vs) v.pages.nonnull in
    let (h2, put, listed, keys, heights) =
      put_again h1 key bin h.fresh entry ys zs us vs fs v1 (λ e. nz e) in
    let level : (h2.keys key).levels_above ≡ 0 = ap (λ k. (k key).levels_above) keys ∙ v.level in
    let high : (h2.files (h2.keys key).file).tree_height ≡ 1 =
      ap (λ k. (h2.files (k key).file).tree_height) keys ∙ heights (h.keys key).file ∙ height in
    let (parent, marked) = parent_run h2 key level high in
    let before : Dll = lru_data (replace_page h1 entry h.fresh) in
    let after : lru_data (with_key h2 parent) ≡ add_to_head before entry =
      with_key_pages h2 parent ∙ listed in
    let pages_before : IsDll before (us ++ entry ∷ vs) =
      replaced-IsDll h1 entry h.fresh (us ++ entry ∷ vs) v1.pages in
    let (head, leads, nonnull) = add_to_head_cycle before us entry vs pages_before in
    (
      with_key h2 parent,
      rw (ready, put, marked) refl,
      ap (λ d. d.head) after ∙ head,
      subst (λ d. Leads d.next entry (entry ∷ us) entry) (sym after) leads,
      nonnull,
      λ ws w.
          add_to_head_again before us entry vs ws pages_before (subst (λ d. IsDll d ws) after w),
    )
