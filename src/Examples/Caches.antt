-- ===== src/Examples/Caches.antt =====
-- The theorems on the cache of pages and on showNAND at small heaps and stores.
use Prim.Native.Nat.{Ordering}
use cycology.Base.{
  ℕ, ◌+◌, ◌-◌, ◌*◌, ◌≡◌, ◌≢◌, refl, none, some, [], ◌∷◌, arith, ltb, ◌==◌, if◌then◌else◌, add32,
  minus_one,
}
use cycology.Disk.{FreeList}
use cycology.Nand.{Nand}
use cycology.Nand.Write.{working}
use cycology.Dll.Chained.{IsDll, Leads}
use cycology.Cache.Structs.{CacheEntry, OpenFile, Heap}
use cycology.Cache.Keys.{
  digits, ceil_log10, key_number, number_text, strcmp, key_cmp, hash_text, cache_hash,
}
use cycology.Cache.Texts.{key_cmp-key_number}
use cycology.Cache.Lengths.{number_text_lem}
use cycology.Cache.Table.{cache_set, cache_get, cache_remove}
use cycology.Cache.Bins.{Bin}
use cycology.Cache.Lookup.{IsPlaced}
use cycology.Cache.Insert.{cache_get-cache_set}
use cycology.Cache.Remove.{cache_remove-Bin}
use cycology.Cache.Queues.{
  lru_data, file_data, lru_files, cache_update_data_lru_head, cache_remove_data_page_from_lru,
  fs_remove_file_from_lru,
}
use cycology.Cache.Lists.{
  cache_remove_data_page_from_lru-IsDll, cache_update_data_lru_head_back,
  fs_remove_file_from_lru-IsDll,
}
use cycology.Cache.Tree.{put_page_into_cache}
use cycology.Cache.PutPage.{IsNewPage, put_page_into_cache-IsDll}
use cycology.Show.{Shown, get_free_list_head, partially_free, show_free_list}
use cycology.Show.Ends.{IsLinked, show_free_list-ends}
use cycology.Disk.Images.{page_of}
use cycology.Examples.{four_blocks, four_blocks-IsFormatted, inode_page}

-- The entries 1 to 3 are the list of data pages by their use; the entries 1 and 3 are
-- the second bin, with the keys 1 and 3, whose numbers are 103 and 107.
abbrev some_entry : ℕ → CacheEntry
some_entry p = record {
  key = p;
  wp = 40 + p;
  next = if p == 1 then 3 else 0;
  dirty = 0;
  lru_data_next = if ltb p 3 then p + 1 else 0;
  lru_data_prev = p - 1;
  file_data_next = 0;
  file_data_prev = 0;
  file_metadata_next = 0;
  file_metadata_prev = 0;
}

-- the files 1 to 3 likewise
abbrev some_file : ℕ → OpenFile
some_file p = record {
  main_extent_log = 1;
  tree_height = 2;
  direct_page = λ i. 0;
  data_head = 0;
  data_tail = 0;
  metadata_head = 0;
  metadata_tail = 0;
  lru_file_next = if ltb p 3 then p + 1 else 0;
  lru_file_prev = p - 1;
  address = 100;
}

abbrev some_heap : Heap
some_heap = record {
  entries = some_entry;
  keys = λ k. record { file = 5; data_offset = 1 + k * 2; levels_above = 0 };
  files = some_file;
  pages = λ p. record {
    contents = λ i. 0;
    erase_count = 0;
    next_log_block = 0;
    next_block_erases = 0;
    address = 0;
  };
  logs = λ p. record { next_page = 17; last_erases = 0; prev = 0; active = 0 };
  cache = record {
    max_size = 4;
    size = 2;
    table = λ i. if i == 1 then 1 else 0;
    lru_data_head = 1;
    lru_data_tail = 3;
  };
  lru_file_head = 1;
  lru_file_tail = 3;
  fresh = 9;
  freed = [];
}

three_entries : IsDll (lru_data some_heap) (1 ∷ 2 ∷ 3 ∷ [])
unfolding lru_data
three_entries = record {
  distinct = (((λ e. omega arith), ((λ e. omega arith), tt)), (((λ e. omega arith), tt), (tt, tt)));
  nonnull = ((λ e. omega arith), ((λ e. omega arith), ((λ e. omega arith), tt)));
  chained = (refl, refl, (refl, refl, (refl, refl, (refl, refl))));
}

three_files : IsDll (lru_files some_heap) (1 ∷ 2 ∷ 3 ∷ [])
unfolding lru_files
three_files = record {
  distinct = three_entries.distinct;
  nonnull = three_entries.nonnull;
  chained = (refl, refl, (refl, refl, (refl, refl, (refl, refl))));
}

cache_remove_data_page_from_lru-IsDll_example :
    (h' : Heap) × (cache_remove_data_page_from_lru some_heap 2 ≡ some h')
    × IsDll (lru_data h') (1 ∷ 3 ∷ [])
cache_remove_data_page_from_lru-IsDll_example =
    cache_remove_data_page_from_lru-IsDll some_heap (1 ∷ []) 2 (3 ∷ []) three_entries

cache_update_data_lru_head_back_example :
    ((cache_update_data_lru_head some_heap 3).cache.lru_data_head ≡ 3)
    × Leads (lru_data (cache_update_data_lru_head some_heap 3)).next 3 (3 ∷ 1 ∷ 2 ∷ []) 0
    × (((cache_update_data_lru_head some_heap 3).entries 2).lru_data_prev ≡ 3)
    × (◌≢◌ {A = ℕ} 3 1)
cache_update_data_lru_head_back_example =
    cache_update_data_lru_head_back some_heap [] 1 2 3 [] three_entries

fs_remove_file_from_lru-IsDll_example :
    (h' : Heap) × (fs_remove_file_from_lru some_heap 1 ≡ some h')
    × IsDll (lru_files h') (2 ∷ 3 ∷ [])
    × (h'.freed ≡ 3 ∷ [])
fs_remove_file_from_lru-IsDll_example =
    fs_remove_file_from_lru-IsDll some_heap [] 1 (2 ∷ 3 ∷ []) three_files

number_text_lem_example : number_text 1000 ≡ none
number_text_lem_example =
    number_text_lem 3 1000 (omega arith) (omega arith) (omega arith) (omega arith)

texts :
    (number_text (key_number some_heap 1) ≡ some (49 ∷ 48 ∷ 51 ∷ []))
    × (number_text (key_number some_heap 3) ≡ some (49 ∷ 48 ∷ 55 ∷ []))
unfolding number_text key_number digits ceil_log10
texts = (refl, refl)

key_cmp-key_number_example :
    (key_cmp some_heap 1 3 ≡ some Ordering.eq → key_number some_heap 1 ≡ key_number some_heap 3)
    × (key_number some_heap 1 ≡ key_number some_heap 3 → key_cmp some_heap 1 3 ≡ some Ordering.eq)
key_cmp-key_number_example =
    key_cmp-key_number some_heap 1 3 (49 ∷ 48 ∷ 51 ∷ []) (49 ∷ 48 ∷ 55 ∷ []) texts.0 texts.1

two_entries : Bin some_heap.entries (some_heap.cache.table 1) (1 ∷ 3 ∷ [])
two_entries = (
  refl,
  (λ e. omega arith),
  (λ e. omega arith),
  (refl, (λ e. omega arith), (λ e. omega arith), refl),
)

comparisons :
    (cache_hash some_heap 10 ≡ some 1)
    × (cache_hash some_heap 3 ≡ some 1)
    × (key_cmp some_heap 10 1 ≡ some Ordering.gt)
    × (key_cmp some_heap 10 3 ≡ some Ordering.gt)
    × (key_cmp some_heap 1 3 ≡ some Ordering.lt)
    × (key_cmp some_heap 3 1 ≡ some Ordering.gt)
unfolding cache_hash key_cmp key_number number_text digits ceil_log10 hash_text strcmp
comparisons = (refl, refl, refl, refl, refl, refl)

cache_remove-Bin_example :
    (h' : Heap) × (cache_remove some_heap 3 ≡ some h')
    × Bin h'.entries (h'.cache.table 1) (1 ∷ 3 ∷ [])
    × (h'.freed ≡ 3 ∷ [])
    × (h'.cache.size ≡ add32 2 minus_one)
cache_remove-Bin_example =
    cache_remove-Bin some_heap 3 1 1 (3 ∷ []) Ordering.lt Ordering.gt (λ e. omega arith)
      (λ e. omega arith) comparisons.1 two_entries comparisons.4 refl comparisons.5 refl

placed : IsPlaced some_heap 10 1 (1 ∷ 3 ∷ []) []
placed = record {
  hashed = comparisons.0;
  listed = two_entries;
  apart = (((λ e. omega arith), tt), (tt, tt));
  before = (comparisons.2, (comparisons.3, tt));
  counted = omega arith;
}

cache_get-cache_set_example :
    (h' : Heap) × (cache_set some_heap 10 77 ≡ some (9, h'))
    × (cache_get h' 10 ≡ some 9)
    × ((h'.entries 9).wp ≡ 77)
cache_get-cache_set_example =
    cache_get-cache_set some_heap 10 1 77 (1 ∷ 3 ∷ []) [] placed tt (omega arith, omega arith)
      ((λ e. omega arith), ((λ e. omega arith), tt)) (λ e. omega arith) (λ e. omega arith)

no_page : IsDll (file_data some_heap 5) []
unfolding file_data
no_page = record { distinct = tt; nonnull = tt; chained = (refl, refl) }

new_page : IsNewPage some_heap 10 1 (1 ∷ 3 ∷ []) [] (1 ∷ 2 ∷ 3 ∷ []) [] (1 ∷ 2 ∷ 3 ∷ [])
new_page = record {
  placed = placed;
  missing = tt;
  room = (omega arith, omega arith);
  keyed = λ e. omega arith;
  level = refl;
  pages = three_entries;
  file_pages = no_page;
  files = three_files;
  file = λ e. omega arith;
  file_new = ((λ e. omega arith), ((λ e. omega arith), ((λ e. omega arith), tt)));
  few = omega arith;
  fresh = λ e. omega arith;
  fresh_entry = ((λ e. omega arith), ((λ e. omega arith), tt));
  fresh_page = ((λ e. omega arith), ((λ e. omega arith), ((λ e. omega arith), tt)));
  fresh_file_page = tt;
}

put_page_into_cache-IsDll_example :
    (h' : Heap) × (put_page_into_cache some_heap 77 10 ≡ some (9, h'))
    × (cache_get h' 10 ≡ some 9)
    × IsDll (lru_data h') (9 ∷ 1 ∷ 2 ∷ 3 ∷ [])
    × IsDll (file_data h' 5) (9 ∷ [])
    × IsDll (lru_files h') (5 ∷ 1 ∷ 2 ∷ 3 ∷ [])
put_page_into_cache-IsDll_example =
    put_page_into_cache-IsDll some_heap 10 1 77 (1 ∷ 3 ∷ []) [] (1 ∷ 2 ∷ 3 ∷ []) [] (1 ∷ 2 ∷ 3 ∷ [])
      new_page

-- a store of four blocks in which page 17 leads to itself
abbrev cyclic_store : Nand
cyclic_store = record {
  file =
      λ i. if i == 0 then 4 else if i == 1 then 67112 else if i == 4196 + 262 + 257 then 17 else 0;
  features = four_blocks;
}

abbrev cyclic_lists : FreeList
cyclic_lists = record {
  partial_head = 17;
  partial_head_erases = 0;
  partial_tail = 17;
  complete_head = 0;
  complete_head_erases = 0;
  complete_tail = 0;
}

cyclic_store-IsLinked : IsLinked working cyclic_store partially_free
unfolding page_of
cyclic_store-IsLinked = record {
  formatted = four_blocks-IsFormatted;
  reads = refl;
  links = λ k h. ground arith;
}

abbrev cyclic_run : Shown
cyclic_run = record {
  nand = cyclic_store;
  page = inode_page;
  lists = cyclic_lists;
  block_stat = λ b. 0;
  output = [];
}

show_free_list-ends_example :
    (s' : Shown) × (show_free_list working cyclic_run partially_free ≡ some s')
unfolding get_free_list_head
show_free_list-ends_example =
    show_free_list-ends working cyclic_run partially_free (λ e. omega arith) cyclic_store-IsLinked
      (omega arith)
