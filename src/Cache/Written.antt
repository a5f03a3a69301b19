-- ===== src/Cache/Written.antt =====
-- fs_writeData and fs_getPage of fuse-3.0.2/example/cache_code/filesystem.c on a file with one level of
-- pages.
use cycology.Base.{
  ℕ, suc, ◌+◌, ◌≡◌, ◌≢◌, inl, inr, refl, ap, ◌∙◌, sym, true, false, some, List, arith, ◌==◌, add32,
  mul32, div32, sign_bit, store, store_same, store_at, store_other, eq-cases, ne→==, Bool-cases,
  slt,
}
use cycology.Cache.Structs.{CacheEntry, PageKey, WriteablePage, ActiveLog, Heap}
use cycology.Cache.Keys.{key_number, key_cmp, cache_hash}
use cycology.Cache.Table.{new_entry, cache_get}
use cycology.Cache.Link.{grown}
use cycology.Cache.Insert.{IsStored, found_again}
use cycology.Cache.Agree.{Agrees, cache_get-Agrees}
use cycology.Cache.Queues.{lru_data, file_data, lru_files}
use cycology.Cache.PutPage.{
  listed_page, listed_page_numbers, listed_page-Agrees, listed_page_same, IsNewPage,
  put_page_into_cache_run,
}
use cycology.Cache.Tree.{
  quotient, get_parent_key, get_page, fs_get_page, allocate_free_page, prepare_writeable_page,
  levels_left, fs_update_parent_page, fs_write_data,
}

-- the memory after malloc, with a new page and its log
abbrev pub prepared : Heap → (ℕ → WriteablePage) → (ℕ → ActiveLog) → Heap
prepared h pages logs = record h { pages = pages; logs = logs; fresh = h.fresh + 1 }

pub prepared-IsNewPage :
    (h : Heap) (pages : ℕ → WriteablePage) (logs : ℕ → ActiveLog) (key bin : ℕ)
    (ys zs us xs fs : List ℕ)
    → IsNewPage (record h { fresh = h.fresh + 1 }) key bin ys zs us xs fs
    → IsNewPage (prepared h pages logs) key bin ys zs us xs fs
unfolding cache_hash key_cmp key_number lru_data file_data lru_files
prepared-IsNewPage h pages logs key bin ys zs us xs fs v = record {
  placed = record {
    hashed = v.placed.hashed;
    listed = v.placed.listed;
    apart = v.placed.apart;
    before = v.placed.before;
    counted = v.placed.counted;
  };
  missing = v.missing;
  room = v.room;
  keyed = v.keyed;
  level = v.level;
  pages = v.pages;
  file_pages = v.file_pages;
  files = v.files;
  file = v.file;
  file_new = v.file_new;
  few = v.few;
  fresh = v.fresh;
  fresh_entry = v.fresh_entry;
  fresh_page = v.fresh_page;
  fresh_file_page = v.fresh_file_page;
}

pub prepare_run :
    (h : Heap) (key : ℕ) (bytes : ℕ → ℕ)
    → (h.files (h.keys key).file).main_extent_log ≢ 0
    → (pages : ℕ → WriteablePage) × (logs : ℕ → ActiveLog) × (prepare_writeable_page h key bytes
        ≡ some (h.fresh, prepared h pages logs))
      × ((pages h.fresh).contents ≡ bytes)
unfolding prepare_writeable_page allocate_free_page
prepare_run h key bytes logged =
    let log : ℕ = (h.files (h.keys key).file).main_extent_log in
    let pages : ℕ → WriteablePage =
      store h.pages h.fresh (record (h.pages h.fresh) { address = (h.logs log).next_page }) in
    (
      store pages h.fresh (record (pages h.fresh) { contents = bytes }),
      store h.logs log (record (h.logs log) { active = add32 (h.logs log).active 1 }),
      rw (ne→== log 0 logged) refl,
      ap (λ (p : WriteablePage). p.contents)
          (store_same pages h.fresh (record (pages h.fresh) { contents = bytes })),
    )

quotient_nonneg : (w : ℕ) → (i : ℕ) × (quotient w 132096 ≡ some i)
unfolding quotient
quotient_nonneg w = elim (Bool-cases (w == sign_bit)) [
  | inl e ↦ (div32 w 132096, rw e refl)
  | inr e ↦ (div32 w 132096, rw e refl)
]

-- the memory with a new key, for the parent
abbrev pub with_key : Heap → PageKey → Heap
with_key h key = record h { keys = store h.keys h.fresh key; fresh = h.fresh + 1 }

get_parent_key_run :
    (h : Heap) (key : ℕ)
    → (h.keys key).levels_above ≡ 0
    → (parent : PageKey) × (get_parent_key h key ≡ some (h.fresh, with_key h parent))
      × (parent.file ≡ (h.keys key).file)
      × (parent.levels_above ≡ 1)
unfolding get_parent_key
get_parent_key_run h key level =
    let (i, e) = quotient_nonneg (h.keys key).data_offset in
    (
      record { file = (h.keys key).file; data_offset = mul32 i 8; levels_above = 1 },
      rw (level, e) refl,
      refl,
      refl,
    )

pub fs_get_page_above :
    (f : ℕ) (h : Heap) (key : ℕ)
    → slt (h.keys key).levels_above (h.files (h.keys key).file).tree_height ≡ false
    → fs_get_page (suc f) h key ≡ some (0, h)
unfolding fs_get_page get_page
fs_get_page_above f h key above = rw above refl

-- A page of a file with one level has no parent in the cache to be marked.
pub parent_run :
    (h : Heap) (key : ℕ)
    → (h.keys key).levels_above ≡ 0
    → (h.files (h.keys key).file).tree_height ≡ 1
    → (parent : PageKey) × (fs_update_parent_page h key 1 ≡ some (with_key h parent))
unfolding fs_update_parent_page levels_left
parent_run h key level height =
    let (parent, run, file, up) = get_parent_key_run h key level in
    let h' : Heap = with_key h parent in
    let own : h'.keys h.fresh ≡ parent = store_same h.keys h.fresh parent in
    let high : (h'.files (h'.keys h.fresh).file).tree_height ≡ 1 =
      ap (λ k. (h.files k.file).tree_height) own
      ∙ ap (λ f. (h.files f).tree_height) file
      ∙ height in
    let above : slt (h'.keys h.fresh).levels_above (h'.files (h'.keys h.fresh).file).tree_height
        ≡ false =
      rw (high, own, up) refl in
    (parent, rw (run, high, fs_get_page_above 1 h' h.fresh above) refl)

pub fs_get_page_present :
    (f : ℕ) (h : Heap) (key entry : ℕ)
    → slt (h.keys key).levels_above (h.files (h.keys key).file).tree_height ≡ true
    → cache_get h key ≡ some entry
    → entry ≢ 0
    → fs_get_page (suc f) h key ≡ some (entry, h)
unfolding fs_get_page get_page
fs_get_page_present f h key entry below present nz = rw (below, present, ne→== entry 0 nz) refl

-- A new key leaves what cache_get depends on, if no entry has its pointer for its key.
module _ (h : Heap) (parent : PageKey) where
  with_key_number : (k : ℕ) → k ≢ h.fresh → key_number (with_key h parent) k ≡ key_number h k
  unfolding key_number
  with_key_number k ne = rw (store_other h.keys h.fresh parent k ne) refl

  with_key-Agrees : ((x : ℕ) → (h.entries x).key ≢ h.fresh) → Agrees h (with_key h parent)
  with_key-Agrees new = record {
    numbers = λ x. with_key_number (h.entries x).key (new x);
    keys = λ x. refl;
    nexts = λ x. refl;
    max_size = refl;
    size = refl;
    table = λ i. refl;
  }

-- what fs_writeData leaves: the page with its bytes, which fs_getPage then finds
pub record IsWritten (h : Heap) (key : ℕ) (bytes : ℕ → ℕ) (h' : Heap) : Type 0 where
  pub found : (f : ℕ) → fs_get_page (suc f) h' key ≡ some (h.fresh + 1, h')
  pub page : (h'.entries (h.fresh + 1)).wp ≡ h.fresh
  pub contents : (h'.pages h.fresh).contents ≡ bytes

module _ (h : Heap) (key bin wp : ℕ) (ys zs : List ℕ) (entries : ℕ → CacheEntry) (table : ℕ → ℕ)
    (v : IsStored h key bin wp ys zs entries table) (file entry : ℕ) where
  abbrev pub listed : Heap
  listed = listed_page (grown h entries table) file entry

  listed_key : (x k : ℕ) → key ≢ k → (h.entries x).key ≢ k → (listed.entries x).key ≢ k
  listed_key x k ne ne' e =
      let same : (entries x).key ≡ (store h.entries h.fresh (new_entry key wp) x).key =
        ap (λ l. l.key) (v.same x) in
      let stored : (store h.entries h.fresh (new_entry key wp) x).key ≡ k =
        sym same ∙ sym ((listed_page-Agrees (grown h entries table) file entry).keys x) ∙ e in
      elim (eq-cases x h.fresh) [
        | inl q ↦
            ne (sym (ap (λ l. l.key) (store_at h.entries h.fresh (new_entry key wp) x q)) ∙ stored)
        | inr q ↦
            ne' (
              sym (ap (λ l. l.key) (store_other h.entries h.fresh (new_entry key wp) x q)) ∙ stored)
      ]

  pub listed_found : cache_get listed key ≡ some h.fresh
  listed_found =
      cache_get-Agrees (grown h entries table) listed
        (listed_page-Agrees (grown h entries table) file entry) key
        (listed_page_numbers (grown h entries table) file entry key)
      ∙ found_again h key bin wp ys zs entries table v

-- fs_writeData with a data page that the cache, which is not full, does not have, of a file with a log,
-- one level of pages and no place in the list of files, and with keys that malloc has handed out: it
-- goes through, and fs_getPage then finds the page with the bytes, and leaves the memory as it is.
pub fs_get_page-fs_write_data :
    (h : Heap) (key bin : ℕ) (bytes : ℕ → ℕ) (ys zs us xs fs : List ℕ)
    → (h.files (h.keys key).file).main_extent_log ≢ 0
    → (h.files (h.keys key).file).tree_height ≡ 1
    → IsNewPage (record h { fresh = h.fresh + 1 }) key bin ys zs us xs fs
    → ((x : ℕ) → (h.entries x).key ≢ h.fresh + 2)
    → key ≢ h.fresh + 2
    → (h' : Heap) × (fs_write_data h key bytes ≡ some (h.fresh, h')) × IsWritten h key bytes h'
unfolding fs_write_data
fs_get_page-fs_write_data h key bin bytes ys zs us xs fs logged height v new_key new =
    let (pages, logs, ready, kept) = prepare_run h key bytes logged in
    let h1 : Heap = prepared h pages logs in
    let file : ℕ = (h.keys key).file in
    let (entries, table, stored, put) =
      put_page_into_cache_run h1 key bin h.fresh ys zs us xs fs
        (prepared-IsNewPage h pages logs key bin ys zs us xs fs v) in
    let h2 : Heap = listed h1 key bin h.fresh ys zs entries table stored file (h.fresh + 1) in
    let (same_pages, same_keys, same_fresh, same_wp, same_height) =
      listed_page_same (grown h1 entries table) file (h.fresh + 1) in
    let level : (h2.keys key).levels_above ≡ 0 =
      ap (λ k. (k key).levels_above) same_keys ∙ v.level in
    let file_kept : (h2.keys key).file ≡ file = ap (λ k. (k key).file) same_keys in
    let high : (h2.files (h2.keys key).file).tree_height ≡ 1 =
      ap (λ f. (h2.files f).tree_height) file_kept ∙ same_height file ∙ height in
    let (parent, marked) = parent_run h2 key level high in
    let next : h2.fresh ≡ h.fresh + 2 = same_fresh ∙ omega arith in
    let h3 : Heap = with_key h2 parent in
    let other : key ≢ h2.fresh = λ q. new (q ∙ next) in
    let old : h3.keys key ≡ h2.keys key = store_other h2.keys h2.fresh parent key other in
    let level3 : (h3.keys key).levels_above ≡ 0 = ap (λ k. k.levels_above) old ∙ level in
    let high3 : (h3.files (h3.keys key).file).tree_height ≡ 1 =
      ap (λ k. (h2.files k.file).tree_height) old ∙ high in
    let there : cache_get h3 key ≡ some (h.fresh + 1) =
      cache_get-Agrees h2 h3
        (with_key-Agrees h2 parent λ x q.
          listed_key h1 key bin h.fresh ys zs entries table stored file (h.fresh + 1) x
            (h.fresh + 2) new (new_key x) (q ∙ next))
        key (with_key_number h2 parent key other)
      ∙ listed_found h1 key bin h.fresh ys zs entries table stored file (h.fresh + 1) in
    (
      h3,
      rw (ready, put, marked) refl,
      record {
        found = λ f.
            fs_get_page_present f h3 key (h.fresh + 1) (rw (high3, level3) refl) there
              (λ e. omega (arith, e));
        page = same_wp (h.fresh + 1) ∙ stored.page;
        contents = ap (λ p. (p h.fresh).contents) same_pages ∙ kept;
      },
    )
