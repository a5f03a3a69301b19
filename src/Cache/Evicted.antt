-- ===== src/Cache/Evicted.antt =====
-- fs_evictLruFile of fuse-3.0.2/example/cache_code/filesystem.c on a file without levels of metadata.
use mathlib.Core.Path.{subst}
use cycology.Base.{
  ℕ, ◌<◌, ◌≡◌, ◌≢◌, refl, ap, ◌∙◌, sym, some, ◌>>=◌, List, [], ◌∷◌, ◌++◌, length, append_nil, AllNe,
  AllNe-append, ne→==,
}
use cycology.Dll.{Dll}
use cycology.Dll.Chained.{IsDll, Chained-split}
use cycology.Dll.Removal.{unlink-IsDll}
use cycology.Cache.Structs.{Heap, free}
use cycology.Cache.Queues.{lru_data, file_data, lru_files, with_lru_files, fs_remove_file_from_lru}
use cycology.Cache.Emptied.{IsTable}
use cycology.Cache.Flush.{
  flush_levels, fs_flush_data_pages, fs_flush_metadata_pages, fs_evict_lru_file,
}
use cycology.Cache.Flushed.{all_freed, fs_flush_data_pages-IsFlushed}

-- what the eviction of `file`, whose data pages are `xs`, leaves; `us` are the data pages by their
-- use, `fs` the other files
pub record IsEvicted (h : Heap) (file : ℕ) (xs us fs : List ℕ) (h' : Heap) : Type 0 where
  pub files : IsDll (lru_files h') fs
  pub emptied : IsDll (file_data h' file) []
  pub freed : h'.freed ≡ file ∷ all_freed xs h.freed
  pub used : lru_data h' ≡ lru_data h
  pub kept : IsDll (lru_data h') us
  pub dangling : (x : ℕ) → ¬ AllNe x xs → ¬ AllNe x us × ¬ AllNe x h'.freed

last_file : (d : Dll) (xs : List ℕ) (x : ℕ) → IsDll d (xs ++ x ∷ []) → d.tail ≡ x
last_file d xs x v =
    let (_, _, _, (_, _, (_, last))) =
      Chained-split d.next d.prev 0 d.head xs (x ∷ []) d.tail 0 v.chained in
    last

metadata_run :
    (h : Heap) (file : ℕ)
    → file ≢ 0
    → (h.files file).tree_height ≡ 1
    → fs_flush_metadata_pages h file ≡ some h
unfolding fs_flush_metadata_pages flush_levels
metadata_run h file nz height = rw (ne→== file 0 nz, height) refl

remove_run :
    (h : Heap) (file : ℕ) (fs : List ℕ)
    → IsDll (lru_files h) (fs ++ file ∷ [])
    → (h' : Heap) × (fs_remove_file_from_lru h file ≡ some h')
      × IsDll (lru_files h') fs
      × (file_data h' file ≡ file_data h file)
      × (lru_data h' ≡ lru_data h)
      × (h'.freed ≡ h.lru_file_tail ∷ h.freed)
unfolding fs_remove_file_from_lru lru_files with_lru_files file_data lru_data
remove_run h file fs v =
    let (d, run, rest) = unlink-IsDll (lru_files h) fs file [] v in
    (
      free (with_lru_files h d) h.lru_file_tail,
      ap (λ r. r >>= λ d. some (free (with_lru_files h d) h.lru_file_tail)) run,
      subst (IsDll d) (append_nil fs) rest,
      refl,
      refl,
      refl,
    )

evict_run :
    (h h1 h' : Heap) (file : ℕ)
    → h.lru_file_tail ≡ file
    → fs_flush_data_pages h file ≡ some h1
    → fs_flush_metadata_pages h1 file ≡ some h1
    → fs_remove_file_from_lru h1 file ≡ some h'
    → fs_evict_lru_file h ≡ some h'
unfolding fs_evict_lru_file
evict_run h h1 h' file last flushed same removed =
    ap
      (λ p. fs_flush_data_pages h p >>= λ h1.
        fs_flush_metadata_pages h1 p >>= λ h2. fs_remove_file_from_lru h2 p)
      last
    ∙ rw (flushed, same) removed

freed_all : (x : ℕ) (xs freed : List ℕ) → AllNe x (all_freed xs freed) → AllNe x xs × AllNe x freed
freed_all x [] freed ne = (tt, ne)
freed_all x (y ∷ xs) freed ne =
    let (rest, (apart, kept)) = freed_all x xs (y ∷ freed) ne in ((apart, rest), kept)

-- fs_evictLruFile with a file of one level as the last of the list of files, whose data pages are
-- in the list of data pages by their use and in the table, of which all keys have texts and those
-- in a bin have different numbers: if freed structs keep what they hold, it goes through, takes
-- the file out of the list and frees its data pages and the file itself. The list of data pages
-- by their use stays as it is, so each page of the file is in that list and freed.
pub fs_evict_lru_file-IsEvicted :
    (h : Heap) (file : ℕ) (bins : ℕ → List ℕ) (xs us fs : List ℕ)
    → IsDll (lru_files h) (fs ++ file ∷ [])
    → (h.files file).tree_height ≡ 1
    → IsDll (file_data h file) xs
    → IsTable h bins xs
    → length xs < h.fresh
    → IsDll (lru_data h) us
    → ((x : ℕ) → ¬ AllNe x xs → ¬ AllNe x us)
    → (h' : Heap) × (fs_evict_lru_file h ≡ some h') × IsEvicted h file xs us fs h'
unfolding lru_files
fs_evict_lru_file-IsEvicted h file bins xs us fs listed height pages table few by_use held =
    let last : h.lru_file_tail ≡ file = last_file (lru_files h) fs file listed in
    let (_, (nz, _)) = AllNe-append 0 fs (file ∷ []) listed.nonnull in
    let (h1, flushed, w) =
      fs_flush_data_pages-IsFlushed h file bins xs (λ e. nz e) pages table few in
    let (h', removed, files, same, used, freed) =
      remove_run h1 file fs (w.files (fs ++ file ∷ []) listed) in
    let all_gone : h'.freed ≡ file ∷ all_freed xs h.freed =
      freed ∙ ap (λ t. t ∷ h1.freed) (w.tail ∙ last) ∙ ap (λ r. file ∷ r) w.freed in
    (
      h',
      evict_run h h1 h' file last flushed
          (metadata_run h1 file (λ e. nz e) (w.heights file ∙ height)) removed,
      record {
        files = files;
        emptied = subst (λ d. IsDll d []) (sym same) w.emptied;
        freed = all_gone;
        used = used ∙ w.used;
        kept = subst (λ d. IsDll d us) (sym (used ∙ w.used)) by_use;
        dangling = λ x there.
            (held x there, λ ne. there (freed_all x xs h.freed (subst (AllNe x) all_gone ne).1).0);
      },
    )
