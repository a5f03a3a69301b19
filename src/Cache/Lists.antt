-- ===== src/Cache/Lists.antt =====
-- The functions on the lists of entries and of files, as operations on lists.
use mathlib.Core.Path.{subst}
use cycology.Base.{
  ℕ, ◌≡◌, ◌≢◌, refl, ap, sym, some, ◌>>=◌, List, [], ◌∷◌, ◌++◌, AllNe, store_same, append_nil,
}
use cycology.Dll.{Dll, add_to_tail, append_to_tail}
use cycology.Dll.Chained.{IsDll, Leads}
use cycology.Dll.Refine.{add_to_head-IsDll, add_to_tail-IsDll, append_to_tail-IsDll}
use cycology.Dll.Removal.{unlink-IsDll}
use cycology.Dll.Moves.{move_to_head-IsDll, move_to_head_back}
use cycology.Cache.Structs.{Heap, free}
use cycology.Cache.Queues.{
  lru_data, with_lru_data, file_data, with_file_data, file_metadata, with_file_metadata, lru_files,
  with_lru_files, cache_update_data_lru_head, cache_add_data_page_to_lru,
  cache_remove_data_page_from_lru, open_file_add_data_page, open_file_remove_data_page,
  open_file_add_metadata_page, open_file_remove_metadata_page, add_file_to_lru,
  fs_remove_file_from_lru,
}

pub file_data-with_file_data :
    (h : Heap) (file : ℕ) (d : Dll) → file_data (with_file_data h file d) file ≡ d
unfolding file_data with_file_data
file_data-with_file_data h file d =
    rw (store_same h.files file (record (h.files file) { data_head = d.head; data_tail = d.tail }))
      refl

file_metadata-with_file_metadata :
    (h : Heap) (file : ℕ) (d : Dll) → file_metadata (with_file_metadata h file d) file ≡ d
unfolding file_metadata with_file_metadata
file_metadata-with_file_metadata h file d =
    rw
      (store_same h.files file
        (record (h.files file) { metadata_head = d.head; metadata_tail = d.tail }))
      refl

-- A page that is not in the list of data pages by their use becomes its first.
pub cache_add_data_page_to_lru-IsDll :
    (h : Heap) (entry : ℕ) (xs : List ℕ)
    → entry ≢ 0
    → AllNe entry xs
    → IsDll (lru_data h) xs
    → IsDll (lru_data (cache_add_data_page_to_lru h entry)) (entry ∷ xs)
unfolding cache_add_data_page_to_lru lru_data with_lru_data
cache_add_data_page_to_lru-IsDll h entry xs = add_to_head-IsDll (lru_data h) entry xs

-- A page anywhere in the list of data pages by their use is removed without a store through the null
-- pointer, and the list then holds the others in their order, forwards and backwards.
pub cache_remove_data_page_from_lru-IsDll :
    (h : Heap) (xs : List ℕ) (entry : ℕ) (ys : List ℕ)
    → IsDll (lru_data h) (xs ++ entry ∷ ys)
    → (h' : Heap) × (cache_remove_data_page_from_lru h entry ≡ some h')
      × IsDll (lru_data h') (xs ++ ys)
unfolding cache_remove_data_page_from_lru lru_data with_lru_data
cache_remove_data_page_from_lru-IsDll h xs entry ys v =
    let (d, run, rest) = unlink-IsDll (lru_data h) xs entry ys v in
    (with_lru_data h d, ap (λ r. r >>= λ d. some (with_lru_data h d)) run, rest)

pub open_file_add_data_page-IsDll :
    (h : Heap) (file entry : ℕ) (xs : List ℕ)
    → entry ≢ 0
    → (h.entries entry).file_data_next ≡ 0
    → (h.entries entry).file_data_prev ≡ 0
    → AllNe entry xs
    → IsDll (file_data h file) xs
    → IsDll (file_data (open_file_add_data_page h file entry) file) (xs ++ entry ∷ [])
unfolding open_file_add_data_page file_data
open_file_add_data_page-IsDll h file entry xs nz n p ne v =
    rw (file_data-with_file_data h file (add_to_tail (file_data h file) entry))
      (add_to_tail-IsDll (file_data h file) entry xs nz n p ne v)

open_file_remove_data_page-IsDll :
    (h : Heap) (file : ℕ) (xs : List ℕ) (entry : ℕ) (ys : List ℕ)
    → IsDll (file_data h file) (xs ++ entry ∷ ys)
    → (h' : Heap) × (open_file_remove_data_page h file entry ≡ some h')
      × IsDll (file_data h' file) (xs ++ ys)
unfolding open_file_remove_data_page file_data
open_file_remove_data_page-IsDll h file xs entry ys v =
    let (d, run, rest) = unlink-IsDll (file_data h file) xs entry ys v in
    (
      with_file_data h file d,
      ap (λ r. r >>= λ d. some (with_file_data h file d)) run,
      subst (λ d. IsDll d (xs ++ ys)) (sym (file_data-with_file_data h file d)) rest,
    )

open_file_add_metadata_page-IsDll :
    (h : Heap) (file entry : ℕ) (xs : List ℕ)
    → entry ≢ 0
    → (h.entries entry).file_metadata_next ≡ 0
    → (h.entries entry).file_metadata_prev ≡ 0
    → AllNe entry xs
    → IsDll (file_metadata h file) xs
    → IsDll (file_metadata (open_file_add_metadata_page h file entry) file) (xs ++ entry ∷ [])
unfolding open_file_add_metadata_page file_metadata
open_file_add_metadata_page-IsDll h file entry xs nz n p ne v =
    rw (file_metadata-with_file_metadata h file (append_to_tail (file_metadata h file) entry))
      (append_to_tail-IsDll (file_metadata h file) entry xs nz n p ne v)

open_file_remove_metadata_page-IsDll :
    (h : Heap) (file : ℕ) (xs : List ℕ) (entry : ℕ) (ys : List ℕ)
    → IsDll (file_metadata h file) (xs ++ entry ∷ ys)
    → (h' : Heap) × (open_file_remove_metadata_page h file entry ≡ some h')
      × IsDll (file_metadata h' file) (xs ++ ys)
unfolding open_file_remove_metadata_page file_metadata
open_file_remove_metadata_page-IsDll h file xs entry ys v =
    let (d, run, rest) = unlink-IsDll (file_metadata h file) xs entry ys v in
    (
      with_file_metadata h file d,
      ap (λ r. r >>= λ d. some (with_file_metadata h file d)) run,
      subst (λ d. IsDll d (xs ++ ys)) (sym (file_metadata-with_file_metadata h file d)) rest,
    )

-- A page that is put into a file's list of metadata pages and removed again leaves the list as it was.
open_file_remove_metadata_page-open_file_add_metadata_page :
    (h : Heap) (file entry : ℕ) (xs : List ℕ)
    → entry ≢ 0
    → (h.entries entry).file_metadata_next ≡ 0
    → (h.entries entry).file_metadata_prev ≡ 0
    → AllNe entry xs
    → IsDll (file_metadata h file) xs
    → (h' : Heap) × (open_file_remove_metadata_page
          (open_file_add_metadata_page h file entry)
          file
          entry
        ≡ some h')
      × IsDll (file_metadata h' file) xs
open_file_remove_metadata_page-open_file_add_metadata_page h file entry xs nz n p ne v =
    let (h', run, rest) =
      open_file_remove_metadata_page-IsDll (open_file_add_metadata_page h file entry) file xs entry
        [] (open_file_add_metadata_page-IsDll h file entry xs nz n p ne v) in
    (h', run, subst (IsDll (file_metadata h' file)) (append_nil xs) rest)

cache_update_data_lru_head-IsDll :
    (h : Heap) (first entry : ℕ) (xs : List ℕ)
    → IsDll (lru_data h) (first ∷ entry ∷ xs)
    → IsDll (lru_data (cache_update_data_lru_head h entry)) (entry ∷ first ∷ xs)
unfolding cache_update_data_lru_head lru_data with_lru_data
cache_update_data_lru_head-IsDll h first entry xs v =
    move_to_head-IsDll (lru_data h) first entry xs v

-- A page moved to the head from the third place of the list, or one behind it: the fields for the next
-- page lead through the moved list to the null pointer, but the page that stood before it leads back to
-- the moved page, which is not the one before it in the list.
pub cache_update_data_lru_head_back :
    (h : Heap) (xs : List ℕ) (second first entry : ℕ) (ys : List ℕ)
    → IsDll (lru_data h) (xs ++ second ∷ first ∷ entry ∷ ys)
    → ((cache_update_data_lru_head h entry).cache.lru_data_head ≡ entry)
      × Leads
          (lru_data (cache_update_data_lru_head h entry)).next
          entry
          (entry ∷ xs ++ second ∷ first ∷ ys)
          0
      × (((cache_update_data_lru_head h entry).entries first).lru_data_prev ≡ entry)
      × (entry ≢ second)
unfolding cache_update_data_lru_head lru_data with_lru_data
cache_update_data_lru_head_back h xs second first entry ys v =
    move_to_head_back (lru_data h) xs second first entry ys v

pub add_file_to_lru-IsDll :
    (h : Heap) (file : ℕ) (xs : List ℕ)
    → file ≢ 0
    → AllNe file xs
    → IsDll (lru_files h) xs
    → IsDll (lru_files (add_file_to_lru h file)) (file ∷ xs)
unfolding add_file_to_lru lru_files with_lru_files
add_file_to_lru-IsDll h file xs = add_to_head-IsDll (lru_files h) file xs

-- A file that is removed leaves the list of files by their use with the others in their order, but
-- what is freed is the last file of the list.
pub fs_remove_file_from_lru-IsDll :
    (h : Heap) (xs : List ℕ) (file : ℕ) (ys : List ℕ)
    → IsDll (lru_files h) (xs ++ file ∷ ys)
    → (h' : Heap) × (fs_remove_file_from_lru h file ≡ some h')
      × IsDll (lru_files h') (xs ++ ys)
      × (h'.freed ≡ h.lru_file_tail ∷ h.freed)
unfolding fs_remove_file_from_lru lru_files with_lru_files
fs_remove_file_from_lru-IsDll h xs file ys v =
    let (d, run, rest) = unlink-IsDll (lru_files h) xs file ys v in
    (
      free (with_lru_files h d) h.lru_file_tail,
      ap (λ r. r >>= λ d. some (free (with_lru_files h d) h.lru_file_tail)) run,
      rest,
      refl,
    )
