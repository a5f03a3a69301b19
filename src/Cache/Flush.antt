-- ===== src/Cache/Flush.antt =====
-- Flushes of fuse-3.0.2/example/cache_code/filesystem.c, lines 390 to 449. The first argument of a loop
-- over a list bounds its rounds: the entries of a list were all allocated.
use cycology.Base.{ℕ, zero, suc, ◌+◌, ◌-◌, Option, none, some, ◌==◌, if◌then◌else◌, ◌>>=◌, is_neg}
use cycology.Cache.Structs.{Heap}
use cycology.Cache.Table.{cache_remove}
use cycology.Cache.Queues.{
  open_file_remove_data_page, open_file_remove_metadata_page, fs_remove_file_from_lru,
}
use cycology.Cache.Tree.{allocate_free_page}

-- the rest of the list, from `current` on
unfoldable pub flush_data : ℕ → Heap → ℕ → ℕ → Option Heap
flush_data zero h file current = none
flush_data (suc f) h file current =
    let next = (h.entries current).file_data_next in
    let rest = open_file_remove_data_page h file current >>= λ h1.
    cache_remove h1 current >>= λ h2. flush_data f h2 file next in
    if current == 0 then some h else rest

unfoldable pub fs_flush_data_pages : Heap → ℕ → Option Heap
fs_flush_data_pages h file =
    if file == 0 then none else flush_data h.fresh h file (h.files file).data_head

-- A dirty page gets an address.
unfoldable pub write_out : Heap → ℕ → Option Heap
write_out h current =
    let entry = h.entries current in
    if entry.dirty == 0
    then some h
    else allocate_free_page h entry.wp (h.files (h.keys entry.key).file).main_extent_log

-- the pages of one level, from `current` on
unfoldable pub flush_level : ℕ → Heap → ℕ → ℕ → ℕ → Option Heap
flush_level zero h file level current = none
flush_level (suc f) h file level current =
    let entry = h.entries current in
    let next = entry.file_metadata_next in
    let flushed = write_out h current >>= λ h1.
    open_file_remove_metadata_page h1 file current >>= λ h2.
    cache_remove h2 current >>= λ h3. flush_level f h3 file level next in
    let kept = flush_level f h file level next in
    if current == 0
    then some h
    else if entry.key == 0
    then none
    else if (h.keys entry.key).levels_above == level
    then flushed
    else kept

-- `rounds` levels from `level` on
unfoldable pub flush_levels : ℕ → Heap → ℕ → ℕ → Option Heap
flush_levels zero h file level = some h
flush_levels (suc rounds) h file level =
    flush_level h.fresh h file level (h.files file).metadata_head >>= λ h'.
    flush_levels rounds h' file (level + 1)

unfoldable pub fs_flush_metadata_pages : Heap → ℕ → Option Heap
fs_flush_metadata_pages h file =
    let max_level = (h.files file).tree_height in
    if file == 0
    then none
    else flush_levels (if is_neg max_level then 0 else max_level - 1) h file 1

unfoldable pub fs_evict_lru_file : Heap → Option Heap
fs_evict_lru_file h =
    let file = h.lru_file_tail in
    fs_flush_data_pages h file >>= λ h1.
    fs_flush_metadata_pages h1 file >>= λ h2. fs_remove_file_from_lru h2 file
