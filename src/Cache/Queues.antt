-- ===== src/Cache/Queues.antt =====
-- The lists of entries and of files of fuse-3.0.2/example/cache_code: the fields of the structs that
-- hold each list, and the functions of cache.c, openFile.c and filesystem.c that change them.
use cycology.Base.{
  ℕ, zero, suc, Option, none, some, Bool, true, false, ◌==◌, if◌then◌else◌, ◌>>=◌, store,
}
use cycology.Dll.{Dll, add_to_head, move_to_head, add_to_tail, append_to_tail, unlink}
use cycology.Cache.Structs.{Heap, free}

-- the global list of data pages by their use
unfoldable pub lru_data : Heap → Dll
lru_data h = record {
  head = h.cache.lru_data_head;
  tail = h.cache.lru_data_tail;
  next = λ p. (h.entries p).lru_data_next;
  prev = λ p. (h.entries p).lru_data_prev;
}

unfoldable pub with_lru_data : Heap → Dll → Heap
with_lru_data h d = record h {
  entries = λ p. record (h.entries p) { lru_data_next = d.next p; lru_data_prev = d.prev p };
  cache = record h.cache { lru_data_head = d.head; lru_data_tail = d.tail };
}

-- a file's list of data pages
unfoldable pub file_data : Heap → ℕ → Dll
file_data h file = record {
  head = (h.files file).data_head;
  tail = (h.files file).data_tail;
  next = λ p. (h.entries p).file_data_next;
  prev = λ p. (h.entries p).file_data_prev;
}

unfoldable pub with_file_data : Heap → ℕ → Dll → Heap
with_file_data h file d = record h {
  entries = λ p. record (h.entries p) { file_data_next = d.next p; file_data_prev = d.prev p };
  files = store h.files file (record (h.files file) { data_head = d.head; data_tail = d.tail });
}

-- a file's list of metadata pages
unfoldable pub file_metadata : Heap → ℕ → Dll
file_metadata h file = record {
  head = (h.files file).metadata_head;
  tail = (h.files file).metadata_tail;
  next = λ p. (h.entries p).file_metadata_next;
  prev = λ p. (h.entries p).file_metadata_prev;
}

unfoldable pub with_file_metadata : Heap → ℕ → Dll → Heap
with_file_metadata h file d = record h {
  entries =
      λ p. record (h.entries p) { file_metadata_next = d.next p; file_metadata_prev = d.prev p };
  files =
      store h.files file (record (h.files file) { metadata_head = d.head; metadata_tail = d.tail });
}

-- the global list of files by their use
unfoldable pub lru_files : Heap → Dll
lru_files h = record {
  head = h.lru_file_head;
  tail = h.lru_file_tail;
  next = λ p. (h.files p).lru_file_next;
  prev = λ p. (h.files p).lru_file_prev;
}

unfoldable pub with_lru_files : Heap → Dll → Heap
with_lru_files h d = record h {
  files = λ p. record (h.files p) { lru_file_next = d.next p; lru_file_prev = d.prev p };
  lru_file_head = d.head;
  lru_file_tail = d.tail;
}

unfoldable pub cache_update_data_lru_head : Heap → ℕ → Heap
cache_update_data_lru_head h entry = with_lru_data h (move_to_head (lru_data h) entry)

unfoldable pub cache_add_data_page_to_lru : Heap → ℕ → Heap
cache_add_data_page_to_lru h entry = with_lru_data h (add_to_head (lru_data h) entry)

unfoldable pub cache_remove_data_page_from_lru : Heap → ℕ → Option Heap
cache_remove_data_page_from_lru h current =
    unlink (lru_data h) current >>= λ d. some (with_lru_data h d)

unfoldable pub open_file_add_data_page : Heap → ℕ → ℕ → Heap
open_file_add_data_page h file entry = with_file_data h file (add_to_tail (file_data h file) entry)

unfoldable pub open_file_remove_data_page : Heap → ℕ → ℕ → Option Heap
open_file_remove_data_page h file entry =
    unlink (file_data h file) entry >>= λ d. some (with_file_data h file d)

unfoldable pub open_file_add_metadata_page : Heap → ℕ → ℕ → Heap
open_file_add_metadata_page h file entry =
    with_file_metadata h file (append_to_tail (file_metadata h file) entry)

unfoldable pub open_file_remove_metadata_page : Heap → ℕ → ℕ → Option Heap
open_file_remove_metadata_page h file entry =
    unlink (file_metadata h file) entry >>= λ d. some (with_file_metadata h file d)

unfoldable pub update_lru_file_head : Heap → ℕ → Heap
update_lru_file_head h file = with_lru_files h (move_to_head (lru_files h) file)

unfoldable pub add_file_to_lru : Heap → ℕ → Heap
add_file_to_lru h file = with_lru_files h (add_to_head (lru_files h) file)

-- The first argument bounds the steps; `none`: it does not suffice.
unfoldable pub lru_contains : ℕ → Heap → ℕ → ℕ → Option Bool
lru_contains zero h cur file = none
lru_contains (suc f) h cur file =
    let rest = lru_contains f h (h.files cur).lru_file_next file in
    if cur == 0 then some false else if cur == file then some true else rest

-- All files of the list were allocated, so there are fewer than `fresh` of them.
unfoldable pub fs_update_file_in_lru : Heap → ℕ → Option Heap
fs_update_file_in_lru h file = lru_contains h.fresh h h.lru_file_head file >>= λ listed.
    some (if listed then update_lru_file_head h file else add_file_to_lru h file)

-- What is freed is not the file but what was the last one in the list.
unfoldable pub fs_remove_file_from_lru : Heap → ℕ → Option Heap
fs_remove_file_from_lru h file =
    unlink (lru_files h) file >>= λ d. some (free (with_lru_files h d) h.lru_file_tail)
