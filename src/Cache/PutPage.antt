-- ===== src/Cache/PutPage.antt =====
-- putPageIntoCache with a data page that the cache does not have.
use mathlib.Core.Path.{subst}
use cycology.Base.{
  add32, ℕ, ◌<◌, ◌≡◌, ◌≢◌, refl, ap, ◌∙◌, sym, some, List, [], ◌∷◌, ◌++◌, arith, length, store_same,
  store_keeps, store_other, AllNe, ne→==,
}
use cycology.Dll.{add_to_tail}
use cycology.Dll.Chained.{IsDll, IsDll-agree}
use cycology.Cache.Structs.{CacheEntry, OpenFile, Heap}
use cycology.Cache.Keys.{key_cmp, key_number}
use cycology.Cache.Table.{new_entry, cache_get}
use cycology.Cache.Lookup.{IsPlaced, Missing}
use cycology.Cache.Link.{HasRoom, links, grown}
use cycology.Cache.Insert.{IsStored, cache_set_new, found_again}
use cycology.Cache.Agree.{Agrees, cache_get-Agrees}
use cycology.Cache.Queues.{
  lru_data, with_lru_data, file_data, with_file_data, lru_files, with_lru_files,
  cache_add_data_page_to_lru, open_file_add_data_page, add_file_to_lru,
}
use cycology.Cache.Lists.{
  cache_add_data_page_to_lru-IsDll, open_file_add_data_page-IsDll, add_file_to_lru-IsDll,
}
use cycology.Cache.Files.{fs_update_file_in_lru_new}
use cycology.Cache.Tree.{put_page_into_cache}

module _ (h : Heap) (key bin wp : ℕ) (ys zs : List ℕ) (entries : ℕ → CacheEntry) (table : ℕ → ℕ)
    (v : IsStored h key bin wp ys zs entries table) where
  links_new : links (entries h.fresh) ≡ links (new_entry key wp)
  links_new = v.same h.fresh ∙ ap links (store_same h.entries h.fresh (new_entry key wp))

  links_old : (x : ℕ) → x ≢ h.fresh → links (entries x) ≡ links (h.entries x)
  links_old x ne = v.same x ∙ ap links (store_other h.entries h.fresh (new_entry key wp) x ne)

  lru_data-grown :
      (us : List ℕ)
      → AllNe h.fresh us
      → IsDll (lru_data h) us
      → IsDll (lru_data (grown h entries table)) us
  unfolding lru_data
  lru_data-grown us ne d =
      IsDll-agree (lru_data h) (lru_data (grown h entries table)) h.fresh us
        (λ x q.
          (ap (λ e. e.lru_data_next) (links_old x q), ap (λ e. e.lru_data_prev) (links_old x q)))
        refl refl ne d

  file_data-grown :
      (file : ℕ) (xs : List ℕ)
      → AllNe h.fresh xs
      → IsDll (file_data h file) xs
      → IsDll (file_data (grown h entries table) file) xs
  unfolding file_data
  file_data-grown file xs ne d =
      IsDll-agree (file_data h file) (file_data (grown h entries table) file) h.fresh xs
        (λ x q.
          (ap (λ e. e.file_data_next) (links_old x q), ap (λ e. e.file_data_prev) (links_old x q)))
        refl refl ne d

pub lru_files-open_file_add_data_page :
    (h : Heap) (file entry : ℕ) (fs : List ℕ)
    → AllNe 0 fs
    → IsDll (lru_files h) fs
    → IsDll (lru_files (open_file_add_data_page h file entry)) fs
unfolding lru_files open_file_add_data_page with_file_data
lru_files-open_file_add_data_page h file entry fs nz d =
    let entry_files : OpenFile → ℕ × ℕ = (λ f. (f.lru_file_next, f.lru_file_prev)) in
    let kept =
      store_keeps entry_files h.files file
        (record (h.files file) {
          data_head = (add_to_tail (file_data h file) entry).head;
          data_tail = (add_to_tail (file_data h file) entry).tail;
        })
        refl in
    IsDll-agree (lru_files h) (lru_files (open_file_add_data_page h file entry)) 0 fs
      (λ x q. (ap (λ r. r.0) (kept x), ap (λ r. r.1) (kept x))) refl refl nz d

-- what the operations on one list leave as it is
module _ (h : Heap) (file entry : ℕ) where
  pub lru_files-cache_add_data_page_to_lru :
      lru_files (cache_add_data_page_to_lru h entry) ≡ lru_files h
  unfolding lru_files cache_add_data_page_to_lru with_lru_data
  lru_files-cache_add_data_page_to_lru = refl

  file_data-cache_add_data_page_to_lru :
      file_data (cache_add_data_page_to_lru h entry) file ≡ file_data h file
  unfolding file_data cache_add_data_page_to_lru with_lru_data
  file_data-cache_add_data_page_to_lru = refl

  lru_data-open_file_add_data_page : lru_data (open_file_add_data_page h file entry) ≡ lru_data h
  unfolding lru_data open_file_add_data_page with_file_data
  lru_data-open_file_add_data_page = refl

  lru_data-add_file_to_lru : lru_data (add_file_to_lru h file) ≡ lru_data h
  unfolding lru_data add_file_to_lru with_lru_files
  lru_data-add_file_to_lru = refl

  file_data-add_file_to_lru : file_data (add_file_to_lru h file) file ≡ file_data h file
  unfolding file_data add_file_to_lru with_lru_files
  file_data-add_file_to_lru = refl

-- The numbers of all keys stay, and so does what cache_get depends on.
module _ (h : Heap) (file entry : ℕ) where
  abbrev pub listed_page : Heap
  listed_page =
      add_file_to_lru (cache_add_data_page_to_lru (open_file_add_data_page h file entry) entry) file

  pub listed_page_numbers : (k : ℕ) → key_number listed_page k ≡ key_number h k
  unfolding key_number add_file_to_lru cache_add_data_page_to_lru open_file_add_data_page lru_files
      with_lru_files with_lru_data with_file_data
  listed_page_numbers k =
      ap (λ a. add32 (add32 a (h.keys k).data_offset) (h.keys k).levels_above)
        (store_keeps (λ (f : OpenFile). f.address) h.files file
          (record (h.files file) {
            data_head = (add_to_tail (file_data h file) entry).head;
            data_tail = (add_to_tail (file_data h file) entry).tail;
          })
          refl (h.keys k).file)

  pub listed_page-Agrees : Agrees h listed_page
  unfolding add_file_to_lru cache_add_data_page_to_lru open_file_add_data_page with_lru_files
      with_lru_data with_file_data
  listed_page-Agrees = record {
    numbers = λ x. listed_page_numbers (h.entries x).key;
    keys = λ x. refl;
    nexts = λ x. refl;
    max_size = refl;
    size = refl;
    table = λ i. refl;
  }

  -- what the lists' fields are no part of
  pub listed_page_same :
      (listed_page.pages ≡ h.pages)
      × (listed_page.keys ≡ h.keys)
      × (listed_page.fresh ≡ h.fresh)
      × ((x : ℕ) → (listed_page.entries x).wp ≡ (h.entries x).wp)
      × ((f : ℕ) → (listed_page.files f).tree_height ≡ (h.files f).tree_height)
  unfolding add_file_to_lru cache_add_data_page_to_lru open_file_add_data_page with_lru_files
      with_lru_data with_file_data
  listed_page_same = (
    refl,
    refl,
    refl,
    (λ x. refl),
    store_keeps (λ (f : OpenFile). f.tree_height) h.files file
        (record (h.files file) {
          data_head = (add_to_tail (file_data h file) entry).head;
          data_tail = (add_to_tail (file_data h file) entry).tail;
        })
        refl,
  )

-- A key that the cache does not have, of a data page; the lists of data pages by their use, of the file's
-- data pages and of the files by their use, which does not have the file; and a new pointer.
pub record IsNewPage (h : Heap) (key bin : ℕ) (ys zs us xs fs : List ℕ) : Type 0 where
  pub placed : IsPlaced h key bin ys zs
  pub missing : Missing (key_cmp h key) h.entries zs
  pub room : HasRoom h
  pub keyed : key ≢ 0
  pub level : (h.keys key).levels_above ≡ 0
  pub pages : IsDll (lru_data h) us
  pub file_pages : IsDll (file_data h (h.keys key).file) xs
  pub files : IsDll (lru_files h) fs
  pub file : (h.keys key).file ≢ 0
  pub file_new : AllNe (h.keys key).file fs
  pub few : length fs < h.fresh
  pub fresh : h.fresh ≢ 0
  pub fresh_entry : AllNe h.fresh (ys ++ zs)
  pub fresh_page : AllNe h.fresh us
  pub fresh_file_page : AllNe h.fresh xs

-- putPageIntoCache stores the page under a new pointer and makes that an element of the lists.
pub put_page_into_cache_run :
    (h : Heap) (key bin page : ℕ) (ys zs us xs fs : List ℕ)
    → IsNewPage h key bin ys zs us xs fs
    → (entries : ℕ → CacheEntry) × (table : ℕ → ℕ) × IsStored h key bin page ys zs entries table
      × (put_page_into_cache h page key
          ≡ some (h.fresh, listed_page (grown h entries table) (h.keys key).file h.fresh))
unfolding put_page_into_cache lru_files cache_add_data_page_to_lru open_file_add_data_page
    with_lru_data with_file_data
put_page_into_cache_run h key bin page ys zs us xs fs v =
    let (entries, table, stored) =
      cache_set_new h key bin page ys zs v.placed v.missing v.room v.fresh_entry v.fresh v.keyed in
    let file : ℕ = (h.keys key).file in
    let h1 : Heap = grown h entries table in
    let h2 : Heap = open_file_add_data_page h1 file h.fresh in
    let h3 : Heap = cache_add_data_page_to_lru h2 h.fresh in
    let files : IsDll (lru_files h3) fs =
      subst (λ d. IsDll d fs) (sym (lru_files-cache_add_data_page_to_lru h2 file h.fresh))
        (lru_files-open_file_add_data_page h1 file h.fresh fs v.files.nonnull v.files) in
    (
      entries,
      table,
      stored,
      rw
          (
            stored.stored,
            v.level,
            ne→== h.fresh 0 v.fresh,
            fs_update_file_in_lru_new h3 file fs files (omega (arith, v.few)) v.file_new,
          )
          refl,
    )

-- A data page that the cache, which is not full, does not have, of a file that is in no list of files,
-- goes into the cache under a new pointer: cache_get finds it there, it becomes the first of the data
-- pages by their use and the last of the file's data pages, and the file the first of the files by
-- their use.
pub put_page_into_cache-IsDll :
    (h : Heap) (key bin page : ℕ) (ys zs us xs fs : List ℕ)
    → IsNewPage h key bin ys zs us xs fs
    → (h' : Heap) × (put_page_into_cache h page key ≡ some (h.fresh, h'))
      × (cache_get h' key ≡ some h.fresh)
      × IsDll (lru_data h') (h.fresh ∷ us)
      × IsDll (file_data h' (h.keys key).file) (xs ++ h.fresh ∷ [])
      × IsDll (lru_files h') ((h.keys key).file ∷ fs)
unfolding lru_files with_lru_data with_file_data
put_page_into_cache-IsDll h key bin page ys zs us xs fs v =
    let (entries, table, stored, run) = put_page_into_cache_run h key bin page ys zs us xs fs v in
    let file : ℕ = (h.keys key).file in
    let h1 : Heap = grown h entries table in
    let h2 : Heap = open_file_add_data_page h1 file h.fresh in
    let h3 : Heap = cache_add_data_page_to_lru h2 h.fresh in
    let new : links (entries h.fresh) ≡ links (new_entry key page) =
      links_new h key bin page ys zs entries table stored in
    let files : IsDll (lru_files h3) fs =
      subst (λ d. IsDll d fs) (sym (lru_files-cache_add_data_page_to_lru h2 file h.fresh))
        (lru_files-open_file_add_data_page h1 file h.fresh fs v.files.nonnull v.files) in
    let pages : IsDll (lru_data h3) (h.fresh ∷ us) =
      cache_add_data_page_to_lru-IsDll h2 h.fresh us v.fresh v.fresh_page (
        subst (λ d. IsDll d us) (sym (lru_data-open_file_add_data_page h1 file h.fresh))
          (lru_data-grown h key bin page ys zs entries table stored us v.fresh_page v.pages)) in
    let file_pages : IsDll (file_data h2 file) (xs ++ h.fresh ∷ []) =
      open_file_add_data_page-IsDll h1 file h.fresh xs v.fresh (ap (λ e. e.file_data_next) new)
        (ap (λ e. e.file_data_prev) new) v.fresh_file_page
        (file_data-grown h key bin page ys zs entries table stored file xs v.fresh_file_page
          v.file_pages) in
    (
      add_file_to_lru h3 file,
      run,
      cache_get-Agrees h1 (add_file_to_lru h3 file) (listed_page-Agrees h1 file h.fresh) key
            (listed_page_numbers h1 file h.fresh key)
          ∙ found_again h key bin page ys zs entries table stored,
      subst (λ d. IsDll d (h.fresh ∷ us)) (sym (lru_data-add_file_to_lru h3 file h.fresh)) pages,
      subst (λ d. IsDll d (xs ++ h.fresh ∷ []))
          (sym (
            file_data-add_file_to_lru h3 file h.fresh
            ∙ file_data-cache_add_data_page_to_lru h2 file h.fresh))
          file_pages,
      add_file_to_lru-IsDll h3 file fs v.file v.file_new files,
    )
