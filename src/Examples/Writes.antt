-- ===== src/Examples/Writes.antt =====
-- The theorems on reads, writes and flushes through the cache at a small heap.
use Prim.Native.Nat.{Ordering}
use cycology.Base.{
  AllNe, ℕ, ◌+◌, ◌-◌, ◌*◌, ◌≡◌, refl, some, none, List, [], ◌∷◌, arith, ltb, ◌==◌, if◌then◌else◌,
}
use cycology.Dll.Chained.{Leads, IsDll}
use cycology.Cache.Structs.{CacheEntry, OpenFile, Heap}
use cycology.Cache.Keys.{
  digits, ceil_log10, key_number, number_text, strcmp, key_cmp, hash_text, cache_hash,
}
use cycology.Cache.Table.{cache_set, cache_get, walk, found, ended}
use cycology.Cache.Bins.{Bin}
use cycology.Cache.Apart.{cache_get-cache_set_other}
use cycology.Cache.Queues.{lru_data, file_data, lru_files}
use cycology.Cache.PutPage.{IsNewPage}
use cycology.Cache.Tree.{
  put_page_into_cache, read_wp_from_disk, get_page, fs_get_page, fs_write_data,
}
use cycology.Cache.Written.{IsWritten, fs_get_page-fs_write_data}
use cycology.Cache.Twice.{IsOldPage, fs_write_data_again}
use cycology.Cache.Indexes.{fs_get_page_one_level}
use cycology.Cache.Levels.{fs_get_page_levels}
use cycology.Cache.Reread.{fs_get_page-fs_get_page}

-- The entries 1 to 3 are the list of data pages by their use; the entries 1 and 3 are the second bin, with
-- the keys 1 and 3, and the data pages of file 3.
abbrev entry_at : ℕ → CacheEntry
entry_at p = record {
  key = if ltb p 4 then p else 0;
  wp = 40 + p;
  next = if p == 1 then 3 else 0;
  dirty = 0;
  lru_data_next = if ltb p 3 then p + 1 else 0;
  lru_data_prev = p - 1;
  file_data_next = if p == 1 then 3 else 0;
  file_data_prev = if p == 3 then 1 else 0;
  file_metadata_next = 0;
  file_metadata_prev = 0;
}

abbrev file_at : ℕ → OpenFile
file_at p = record {
  main_extent_log = 1;
  tree_height = 1;
  direct_page = λ i. 50 + i;
  data_head = if p == 3 then 1 else 0;
  data_tail = if p == 3 then 3 else 0;
  metadata_head = 0;
  metadata_tail = 0;
  lru_file_next = if ltb p 3 then p + 1 else 0;
  lru_file_prev = p - 1;
  address = 100;
}

abbrev pub one_level : Heap
one_level = record {
  entries = entry_at;
  keys = λ k. record { file = if k == 8 then 5 else 3; data_offset = 1 + k * 2; levels_above = 0 };
  files = file_at;
  pages = λ p. record {
    contents = λ i. 0;
    erase_count = 0;
    next_log_block = 0;
    next_block_erases = 0;
    address = 0;
  };
  logs = λ p. record { next_page = 17; last_erases = 0; prev = 0; active = 0 };
  cache = record {
    max_size = 4;
    size = 2;
    table = λ i. if i == 1 then 1 else 0;
    lru_data_head = 1;
    lru_data_tail = 3;
  };
  lru_file_head = 1;
  lru_file_tail = 3;
  fresh = 9;
  freed = [];
}

abbrev some_bytes : ℕ → ℕ
some_bytes i = 65 + i

pub by_use : IsDll (lru_data one_level) (1 ∷ 2 ∷ 3 ∷ [])
unfolding lru_data
by_use = record {
  distinct = (((λ e. omega arith), ((λ e. omega arith), tt)), (((λ e. omega arith), tt), (tt, tt)));
  nonnull = ((λ e. omega arith), ((λ e. omega arith), ((λ e. omega arith), tt)));
  chained = (refl, refl, (refl, refl, (refl, refl, (refl, refl))));
}

pub files_by_use : IsDll (lru_files one_level) (1 ∷ 2 ∷ 3 ∷ [])
unfolding lru_files
files_by_use = record {
  distinct = by_use.distinct;
  nonnull = by_use.nonnull;
  chained = (refl, refl, (refl, refl, (refl, refl, (refl, refl))));
}

pub pages_of_three : IsDll (file_data one_level 3) (1 ∷ 3 ∷ [])
unfolding file_data
pages_of_three = record {
  distinct = (((λ e. omega arith), tt), (tt, tt));
  nonnull = ((λ e. omega arith), ((λ e. omega arith), tt));
  chained = (refl, refl, (refl, refl, (refl, refl)));
}

abbrev later : Heap
later = record one_level { fresh = 10 }

pub hashes :
    (cache_hash later 8 ≡ some 2)
    × (cache_hash one_level 1 ≡ some 1)
    × (cache_hash one_level 3 ≡ some 1)
unfolding cache_hash key_number number_text digits ceil_log10 hash_text
hashes = (refl, refl, refl)

absent : IsNewPage later 8 2 [] [] (1 ∷ 2 ∷ 3 ∷ []) [] (1 ∷ 2 ∷ 3 ∷ [])
unfolding lru_data lru_files file_data
absent = record {
  placed = record {
    hashed = hashes.0;
    listed = refl;
    apart = tt;
    before = tt;
    counted = omega arith;
  };
  missing = tt;
  room = (omega arith, omega arith);
  keyed = λ e. omega arith;
  level = refl;
  pages = by_use;
  file_pages = record { distinct = tt; nonnull = tt; chained = (refl, refl) };
  files = files_by_use;
  file = λ e. omega arith;
  file_new = ((λ e. omega arith), ((λ e. omega arith), ((λ e. omega arith), tt)));
  few = omega arith;
  fresh = λ e. omega arith;
  fresh_entry = tt;
  fresh_page = ((λ e. omega arith), ((λ e. omega arith), ((λ e. omega arith), tt)));
  fresh_file_page = tt;
}

fs_get_page-fs_write_data_example :
    (h' : Heap) × (fs_write_data one_level 8 some_bytes ≡ some (9, h'))
    × IsWritten one_level 8 some_bytes h'
fs_get_page-fs_write_data_example =
    fs_get_page-fs_write_data one_level 8 2 some_bytes [] [] (1 ∷ 2 ∷ 3 ∷ []) [] (1 ∷ 2 ∷ 3 ∷ [])
      (λ e. omega arith) refl absent (λ x e. ground arith) (λ e. omega arith)

fs_get_page-fs_get_page_example :
    (h' : Heap) × (fs_get_page 1 one_level 8 ≡ some (10, h'))
    × (fs_get_page 1 h' 8 ≡ some (10, h'))
    × ((h'.entries 10).wp ≡ 9)
fs_get_page-fs_get_page_example =
    fs_get_page-fs_get_page 0 0 one_level 8 2 [] [] (1 ∷ 2 ∷ 3 ∷ []) [] (1 ∷ 2 ∷ 3 ∷ []) refl
      (omega arith) absent

pub two_listed : Bin one_level.entries (one_level.cache.table 1) (1 ∷ 3 ∷ [])
two_listed = (
  refl,
  (λ e. omega arith),
  (λ e. omega arith),
  (refl, (λ e. omega arith), (λ e. omega arith), refl),
)

equal_keys : key_cmp one_level 1 1 ≡ some Ordering.eq
unfolding key_cmp key_number number_text digits ceil_log10 strcmp
equal_keys = refl

present : IsOldPage one_level 1 1 1 [] (3 ∷ []) [] (2 ∷ 3 ∷ []) (1 ∷ 2 ∷ 3 ∷ [])
present = record {
  placed = record {
    hashed = hashes.1;
    listed = two_listed;
    apart = (((λ e. omega arith), tt), (tt, tt));
    before = tt;
    counted = omega arith;
  };
  same = equal_keys;
  level = refl;
  pages = by_use;
  files = files_by_use;
  few = omega arith;
}

fs_write_data_again_example :
    (h' : Heap) × (fs_write_data one_level 1 some_bytes ≡ some (9, h'))
    × ((lru_data h').head ≡ 1)
    × Leads (lru_data h').next 1 (1 ∷ []) 1
    × AllNe 0 (1 ∷ [])
    × ((ws : List ℕ) → ¬ IsDll (lru_data h') ws)
fs_write_data_again_example =
    fs_write_data_again one_level 1 1 1 some_bytes [] (3 ∷ []) [] (2 ∷ 3 ∷ []) (1 ∷ 2 ∷ 3 ∷ [])
      (λ e. omega arith) refl present

none_there : cache_get one_level 8 ≡ some 0
unfolding cache_get cache_hash walk found ended key_number number_text digits ceil_log10 hash_text
none_there = refl

fs_get_page_one_level_example : fs_get_page 1 one_level 8 ≡ (
    let (wp, h') = read_wp_from_disk one_level 50 in
    if ltb 17 2064 then put_page_into_cache h' wp 8 else none)
fs_get_page_one_level_example =
    fs_get_page_one_level 0 one_level 8 refl refl (omega arith) none_there

abbrev three_levels : Heap
three_levels = record one_level { files = λ p. record (file_at p) { tree_height = 3 } }

fs_get_page_levels_example :
    get_page (λ h' key'. some (7, h')) 3 three_levels 8 ≡ fs_get_page 9 three_levels 8
fs_get_page_levels_example =
    fs_get_page_levels (λ h' key'. some (7, h')) 3 6 three_levels 8 (omega arith) (omega arith)
      (omega arith) (omega arith)

third_bin : cache_hash one_level 8 ≡ some 2
unfolding cache_hash key_number number_text digits ceil_log10 hash_text
third_bin = refl

cache_get-cache_set_other_example :
    (h' : Heap) × (cache_set one_level 8 77 ≡ some (9, h'))
    × (cache_get h' 1 ≡ some 1)
    × ((h'.entries 1).wp ≡ 41)
cache_get-cache_set_other_example =
    cache_get-cache_set_other one_level 8 2 77 [] [] 1 1 1 [] (3 ∷ [])
      (record { hashed = third_bin; listed = refl; apart = tt; before = tt; counted = omega arith })
      tt (omega arith, omega arith) tt (λ e. omega arith) (λ e. omega arith) present.placed
      equal_keys ((λ e. omega arith), ((λ e. omega arith), tt)) (λ other. present.placed.apart)
