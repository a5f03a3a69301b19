-- ===== src/Cache/Flushed.antt =====
-- fs_flushDataPages of fuse-3.0.2/example/cache_code/filesystem.c on the list of a file's data pages.
use mathlib.Core.Path.{subst}
use cycology.Base.{
  ℕ, zero, suc, ◌<◌, ◌≡◌, ◌≢◌, refl, ap, ◌∙◌, sym, some, List, [], ◌∷◌, arith, add32, store_keeps,
  length, ne→==,
}
use cycology.Dll.{Dll, unlink}
use cycology.Dll.Chained.{Chained, IsDll, IsDll-agree}
use cycology.Dll.Removal.{unlink-IsDll}
use cycology.Cache.Structs.{Heap, OpenFile}
use cycology.Cache.Keys.{key_number}
use cycology.Cache.Table.{cache_remove}
use cycology.Cache.Bins.{first_of}
use cycology.Cache.Agree.{Agrees}
use cycology.Cache.Queues.{
  lru_data, lru_files, file_data, with_file_data, open_file_remove_data_page,
}
use cycology.Cache.Lists.{file_data-with_file_data}
use cycology.Cache.Emptied.{IsTable, IsTable-Agrees, removed, cache_remove-IsTable}
use cycology.Cache.Flush.{flush_data, fs_flush_data_pages}

-- pointers that are freed one after the other
abbrev pub all_freed : List ℕ → List ℕ → List ℕ
all_freed [] freed = freed
all_freed (x ∷ xs) freed = all_freed xs (x ∷ freed)

with_file_data-Agrees : (h : Heap) (file : ℕ) (d : Dll) → Agrees h (with_file_data h file d)
unfolding key_number with_file_data
with_file_data-Agrees h file d = record {
  numbers = λ x.
      (let k = (h.entries x).key in
        ap (λ a. add32 (add32 a (h.keys k).data_offset) (h.keys k).levels_above)
          (store_keeps (λ (f : OpenFile). f.address) h.files file
            (record (h.files file) { data_head = d.head; data_tail = d.tail }) refl
            (h.keys k).file));
  keys = λ x. refl;
  nexts = λ x. refl;
  max_size = refl;
  size = refl;
  table = λ i. refl;
}

Chained-start :
    (next prev : ℕ → ℕ) (before start : ℕ) (xs : List ℕ) (last : ℕ)
    → Chained next prev before start xs last 0
    → start ≡ first_of xs
Chained-start next prev before start [] last c = c.0
Chained-start next prev before start (x ∷ xs) last c = c.0

module _ (h : Heap) (file : ℕ) (table : ℕ → ℕ) (d : Dll) (x : ℕ) where
  abbrev step : Heap
  step = removed (with_file_data h file d) x table

  file_data-step : file_data step file ≡ d
  unfolding file_data
  file_data-step = file_data-with_file_data h file d

  lru_data-step : lru_data step ≡ lru_data h
  unfolding lru_data with_file_data
  lru_data-step = refl

  freed-step : step.freed ≡ x ∷ h.freed
  unfolding with_file_data
  freed-step = refl

  files-step : (fs : List ℕ) → IsDll (lru_files h) fs → IsDll (lru_files step) fs
  unfolding lru_files with_file_data
  files-step fs v =
      let places : OpenFile → ℕ × ℕ = (λ f. (f.lru_file_next, f.lru_file_prev)) in
      let kept =
        store_keeps places h.files file
          (record (h.files file) { data_head = d.head; data_tail = d.tail }) refl in
      IsDll-agree (lru_files h) (lru_files step) 0 fs
        (λ y q. (ap (λ r. r.0) (kept y), ap (λ r. r.1) (kept y))) refl refl v.nonnull v

  tail-step : step.lru_file_tail ≡ h.lru_file_tail
  unfolding with_file_data
  tail-step = refl

  heights-step : (f : ℕ) → (step.files f).tree_height ≡ (h.files f).tree_height
  unfolding with_file_data
  heights-step =
      store_keeps (λ (f : OpenFile). f.tree_height) h.files file
        (record (h.files file) { data_head = d.head; data_tail = d.tail }) refl

-- what the loop leaves of the entries `xs`
pub record IsFlushed (h : Heap) (file : ℕ) (xs : List ℕ) (h' : Heap) : Type 0 where
  pub emptied : IsDll (file_data h' file) []
  pub freed : h'.freed ≡ all_freed xs h.freed
  pub used : lru_data h' ≡ lru_data h
  pub files : (fs : List ℕ) → IsDll (lru_files h) fs → IsDll (lru_files h') fs
  pub tail : h'.lru_file_tail ≡ h.lru_file_tail
  pub heights : (f : ℕ) → (h'.files f).tree_height ≡ (h.files f).tree_height

turn_run :
    (fuel : ℕ) (h h1 h2 : Heap) (file current x : ℕ) (h' : Heap)
    → current ≡ x
    → x ≢ 0
    → open_file_remove_data_page h file x ≡ some h1
    → cache_remove h1 x ≡ some h2
    → (h.entries x).file_data_next ≡ (file_data h2 file).head
    → flush_data fuel h2 file (file_data h2 file).head ≡ some h'
    → flush_data (suc fuel) h file current ≡ some h'
unfolding flush_data
turn_run fuel h h1 h2 file current x h' e nz removed_data removed_entry next run =
    rw (e, ne→== x 0 nz, removed_data, removed_entry, next) run

remove_run :
    (h : Heap) (file x : ℕ) (d : Dll)
    → unlink (file_data h file) x ≡ some d
    → open_file_remove_data_page h file x ≡ some (with_file_data h file d)
unfolding open_file_remove_data_page
remove_run h file x d run = rw run refl

head_start : (d : Dll) (xs : List ℕ) → IsDll d xs → d.head ≡ first_of xs
head_start d xs l = Chained-start d.next d.prev 0 d.head xs d.tail l.chained

next_start :
    (h : Heap) (file x : ℕ) (xs : List ℕ)
    → IsDll (file_data h file) (x ∷ xs)
    → (h.entries x).file_data_next ≡ first_of xs
unfolding file_data
next_start h file x xs l =
    Chained-start (file_data h file).next (file_data h file).prev x ((file_data h file).next x) xs
      (file_data h file).tail l.chained.2

flush_data-IsFlushed :
    (xs : List ℕ) (fuel : ℕ) (h : Heap) (file : ℕ) (bins : ℕ → List ℕ)
    → IsDll (file_data h file) xs
    → IsTable h bins xs
    → length xs < fuel
    → (h' : Heap) × (flush_data fuel h file (file_data h file).head ≡ some h')
      × IsFlushed h file xs h'
unfolding flush_data
flush_data-IsFlushed xs zero h file bins l v enough = absurd (omega arith)
flush_data-IsFlushed [] (suc fuel) h file bins l v enough = (
  h,
  rw l.chained.0 refl,
  record {
    emptied = l;
    freed = refl;
    used = refl;
    files = λ fs v. v;
    tail = refl;
    heights = λ f. refl;
  },
)
flush_data-IsFlushed (x ∷ xs) (suc fuel) h file bins l v enough =
    let (d, run, rest) = unlink-IsDll (file_data h file) [] x xs l in
    let h1 = with_file_data h file d in
    let v1 : IsTable h1 bins (x ∷ xs) =
      IsTable-Agrees h h1 bins (x ∷ xs) (with_file_data-Agrees h file d) v in
    let (b, hashed, inside) = v1.placed x (λ all. all.0 refl) in
    let (table, bins', run', v2) =
      cache_remove-IsTable h1 bins x xs l.distinct.0 v1 b (bins b) refl inside hashed in
    let h2 = step h file table d x in
    let rest' : IsDll (file_data h2 file) xs =
      subst (λ l'. IsDll l' xs) (sym (file_data-step h file table d x)) rest in
    let (h', run'', w) = flush_data-IsFlushed xs fuel h2 file bins' rest' v2 (omega arith) in
    (
      h',
      turn_run fuel h h1 h2 file (file_data h file).head x h' l.chained.0 l.nonnull.0
          (remove_run h file x d run) run'
          (next_start h file x xs l ∙ sym (head_start (file_data h2 file) xs rest')) run'',
      record {
        emptied = w.emptied;
        freed = w.freed ∙ ap (all_freed xs) (freed-step h file table d x);
        used = w.used ∙ lru_data-step h file table d x;
        files = λ fs u. w.files fs (files-step h file table d x fs u);
        tail = w.tail ∙ tail-step h file table d x;
        heights = λ f. w.heights f ∙ heights-step h file table d x f;
      },
    )

-- fs_flushDataPages ends and frees the pages of the file: its list is empty then, and the pages are
-- freed in its order. The list of data pages by their use stays as it is, with the freed ones in it, and
-- so does the list of files.
pub fs_flush_data_pages-IsFlushed :
    (h : Heap) (file : ℕ) (bins : ℕ → List ℕ) (xs : List ℕ)
    → file ≢ 0
    → IsDll (file_data h file) xs
    → IsTable h bins xs
    → length xs < h.fresh
    → (h' : Heap) × (fs_flush_data_pages h file ≡ some h') × IsFlushed h file xs h'
unfolding fs_flush_data_pages file_data
fs_flush_data_pages-IsFlushed h file bins xs nz l v enough =
    let (h', run, w) = flush_data-IsFlushed xs h.fresh h file bins l v enough in
    (h', rw (ne→== file 0 nz) run, w)
