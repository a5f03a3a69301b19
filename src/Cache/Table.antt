-- ===== src/Cache/Table.antt =====
-- The table of fuse-3.0.2/example/cache_code/cache.c: bins of entries, each a list through `next` that
-- is ordered by keyCmp. `none` is a step through the null pointer, a key without text, or a bin that is
-- longer than the number of entries which the cache counts.
use Prim.Native.Nat.{Ordering}
use cycology.Base.{
  ℕ, zero, suc, ◌+◌, Bool, true, false, Option, none, some, not, ◌||◌, ltb, ◌==◌, if◌then◌else◌,
  ◌>>=◌, add32, minus_one, slt, store,
}
use cycology.Cache.Structs.{CacheEntry, AddressCache, Heap, set_entry, set_cache, free}
use cycology.Cache.Keys.{key_cmp, cache_hash}

-- `none` is the null pointer; `table` is what `malloc` returns for the array
unfoldable pub cache_create : (ℕ → ℕ) → ℕ → Option AddressCache
cache_create table size =
    if slt size 1
    then none
    else some (record {
      max_size = size;
      size = 0;
      table = λ i. if ltb i size then 0 else table i;
      lru_data_head = 0;
      lru_data_tail = 0;
    })

abbrev pub new_entry : ℕ → ℕ → CacheEntry
new_entry key wp = record {
  key = key;
  wp = wp;
  next = 0;
  dirty = 0;
  lru_data_next = 0;
  lru_data_prev = 0;
  file_data_next = 0;
  file_data_prev = 0;
  file_metadata_next = 0;
  file_metadata_prev = 0;
}

-- the new entry, or the null pointer when the cache is full
unfoldable pub cache_new_entry : Heap → ℕ → ℕ → ℕ × Heap
cache_new_entry h key wp = if not (slt h.cache.size h.cache.max_size) then (0, h) else (
  h.fresh,
  record h {
    entries = store h.entries h.fresh (new_entry key wp);
    cache = record h.cache { size = add32 h.cache.size 1 };
    fresh = h.fresh + 1;
  },
)

abbrev pub is_gt : Ordering → Bool
is_gt o = elim o [ Ordering.gt ↦ true | _ ↦ false ]

abbrev pub is_eq : Ordering → Bool
is_eq o = elim o [ Ordering.eq ↦ true | _ ↦ false ]

-- `p` is null or its key is
unfoldable pub ended : Heap → ℕ → Bool
ended h p = (p == 0) || ((h.entries p).key == 0)

-- The walk along a bin while the keys are greater, from `p` on: where it ends, and the entry before
-- that. The first argument bounds the steps.
unfoldable pub walk : ℕ → Heap → ℕ → ℕ → ℕ → Option (ℕ × ℕ)
walk zero h key last p = none
walk (suc f) h key last p =
    let rest = walk f h key p (h.entries p).next in
    if ended h p
    then some (last, p)
    else key_cmp h key (h.entries p).key >>= λ order. if is_gt order then rest else some (last, p)

-- whether the entry has the key
unfoldable pub found : Heap → ℕ → ℕ → Option Bool
found h key p =
    if ended h p
    then some false
    else key_cmp h key (h.entries p).key >>= λ order. some (is_eq order)

unfoldable pub set_next : Heap → ℕ → ℕ → Option Heap
set_next h p next =
    if p == 0 then none else some (set_entry h p (record (h.entries p) { next = next }))

unfoldable pub set_bin : Heap → ℕ → ℕ → Heap
set_bin h bin p = set_cache h (record h.cache { table = store h.cache.table bin p })

-- the new entry `p` goes between `last` and `next`
unfoldable pub link_entry : Heap → ℕ → ℕ → ℕ → ℕ → Option Heap
link_entry h bin last next p =
    if next == h.cache.table bin
    then (set_next h p next >>= λ h'. some (set_bin h' bin p))
    else if next == 0
    then set_next h last p
    else (set_next h p next >>= λ h'. set_next h' last p)

unfoldable pub replace_page : Heap → ℕ → ℕ → Heap
replace_page h p wp =
    let entry = h.entries p in set_entry (free h entry.wp) p (record entry { wp = wp })

unfoldable pub cache_set : Heap → ℕ → ℕ → Option (ℕ × Heap)
cache_set h key wp = cache_hash h key >>= λ bin.
    walk (suc h.cache.size) h key 0 (h.cache.table bin) >>= λ (last, next).
    found h key next >>= λ same.
    if same
    then some (next, replace_page h next wp)
    else (let (p, h') = cache_new_entry h key wp in
        link_entry h' bin last next p >>= λ h''. some (p, h''))

-- the entry or the null pointer
unfoldable pub cache_get : Heap → ℕ → Option ℕ
cache_get h key = cache_hash h key >>= λ bin.
    walk (suc h.cache.size) h key 0 (h.cache.table bin) >>= λ (last, pair).
    found h key pair >>= λ same. if same then some pair else some 0

-- the loop of cache_remove, which stops at once where `prev` is null
unfoldable pub remove_walk : ℕ → Heap → ℕ → ℕ → ℕ → Option (ℕ × ℕ)
remove_walk zero h key prev cur = none
remove_walk (suc f) h key prev cur =
    let rest = remove_walk f h key cur (h.entries cur).next in
    if ended h prev
    then some (prev, cur)
    else key_cmp h key (h.entries cur).key >>= λ order.
        if is_gt order then rest else some (prev, cur)

-- takes an entry that is not the first out of its bin, or prints ERROR
unfoldable pub remove_inner : Heap → ℕ → ℕ → ℕ → Option Heap
remove_inner h key entry first = remove_walk (suc h.cache.size) h key 0 first >>= λ (prev, cur).
    key_cmp h key (h.entries cur).key >>= λ order.
    if is_eq order then set_next h prev (h.entries entry).next else some h

unfoldable pub cache_remove : Heap → ℕ → Option Heap
cache_remove h entry =
    let key = (h.entries entry).key in
    (if (entry == 0) || (key == 0) then none else cache_hash h key) >>= λ bin.
    let cur = h.cache.table bin in
    (if ended h cur then none else key_cmp h (h.entries cur).key key) >>= λ order.
    (if is_eq order
      then some (set_bin h bin (h.entries entry).next)
      else remove_inner h key entry cur)
    >>= λ h'.
        let h'' = free h' entry in
        some (set_cache h'' (record h''.cache { size = add32 h''.cache.size minus_one }))
