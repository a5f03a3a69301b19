-- ===== src/Cache/Tree.antt =====
-- Reads and writes of fuse-3.0.2/example/cache_code/filesystem.c, lines 127 to 380: a page that is not in
-- the cache is read through its parent, the page of the file's tree that holds its address.
use Prim.Native.Nat.{bit_xor}
use cycology.Base.{
  ℕ, zero, suc, ◌+◌, ◌-◌, Option, none, some, not, ◌&&◌, ◌||◌, ltb, ◌==◌, if◌then◌else◌, ◌>>=◌,
  add32, mul32, neg32, div32, is_neg, minus_one, sign_bit, word_mod, slt, store,
}
use cycology.Cache.Structs.{PageKey, WriteablePage, ActiveLog, Heap, set_entry}
use cycology.Cache.Table.{cache_set, cache_get}
use cycology.Cache.Queues.{
  open_file_add_data_page, cache_add_data_page_to_lru, open_file_add_metadata_page,
  fs_update_file_in_lru,
}

-- `PAGESIZE`, `INDIRECT_PAGES`, `DIRECT_PAGES` and `POINTER_SIZE`
abbrev pub page_size : ℕ
page_size = 1024

abbrev pub indirect_pages : ℕ
indirect_pages = 128

abbrev pub direct_pages : ℕ
direct_pages = 16

abbrev pub pointer_size : ℕ
pointer_size = 8

-- C's `/`; `none`: the divisor is 0, or the quotient is too large
unfoldable pub quotient : ℕ → ℕ → Option ℕ
quotient w m =
    if (m == 0) || ((w == sign_bit) && (m == minus_one))
    then none
    else if is_neg m
    then some (neg32 (div32 w (neg32 m)))
    else some (div32 w m)

-- The key of the parent. `^` is the exclusive or.
unfoldable pub get_parent_key : Heap → ℕ → Option (ℕ × Heap)
get_parent_key h child =
    let key = h.keys child in
    let level = add32 key.levels_above 1 in
    quotient key.data_offset (mul32 page_size (bit_xor indirect_pages level)) >>= λ index.
    let parent : PageKey = record {
      file = key.file;
      data_offset = mul32 index pointer_size;
      levels_above = level;
    } in
    some (h.fresh, record h { keys = store h.keys h.fresh parent; fresh = h.fresh + 1 })

-- `none` besides what cache_set gives: the entry that goes into a list is null
unfoldable pub put_page_into_cache : Heap → ℕ → ℕ → Option (ℕ × Heap)
put_page_into_cache h page key = cache_set h key page >>= λ (entry, h').
    let file = (h'.keys key).file in
    let listed =
      if (h'.keys key).levels_above == 0
      then cache_add_data_page_to_lru (open_file_add_data_page h' file entry) entry
      else open_file_add_metadata_page h' file entry in
    if entry == 0 then none else fs_update_file_in_lru listed file >>= λ h''. some (entry, h'')

-- The page that stands for what the store holds: a few bytes for three addresses, and else what
-- `malloc` returns.
unfoldable pub read_wp_from_disk : Heap → ℕ → ℕ × Heap
read_wp_from_disk h address =
    let page = h.pages h.fresh in
    let contents =
      if address == 300
      then store page.contents 0 1
      else if address == 600
      then store page.contents 1016 2
      else if address == 1
      then store page.contents 0 3
      else page.contents in
    (
      h.fresh,
      record h {
        pages = store h.pages h.fresh (record page { contents = contents });
        fresh = h.fresh + 1;
      },
    )

unfoldable pub get_index_in_inode : ℕ → ℕ → Option ℕ
get_index_in_inode offset height =
    quotient offset (mul32 direct_pages (bit_xor indirect_pages (add32 height (neg32 2))))

unfoldable pub get_index_in_parent : ℕ → ℕ → ℕ
get_index_in_parent child parent = div32 (add32 child (neg32 parent)) indirect_pages

-- a `char` as an `int`
unfoldable pub of_char : ℕ → ℕ
of_char byte = if ltb byte 128 then byte else word_mod - 256 + byte

-- `directPage[i]`; `none`: past its end
unfoldable pub direct_address : Heap → ℕ → ℕ → Option ℕ
direct_address h file i = if ltb i direct_pages then some ((h.files file).direct_page i) else none

-- the byte of a page that is taken for the address
unfoldable pub indirect_address : Heap → ℕ → ℕ → Option ℕ
indirect_address h parent i =
    if (parent == 0) || not (ltb i page_size)
    then none
    else some (of_char ((h.pages (h.entries parent).wp).contents i))

-- The entry of a page, which is read if the cache does not have it, or null if the tree is not that
-- high. The second argument bounds the calls below one another; past the bound `past` stands for the call.
unfoldable pub get_page : (Heap → ℕ → Option (ℕ × Heap)) → ℕ → Heap → ℕ → Option (ℕ × Heap)
get_page past zero h key = past h key
get_page past (suc f) h key =
    let desired = h.keys key in
    let height = (h.files desired.file).tree_height in
    let top = get_index_in_inode desired.data_offset height >>= λ i.
    direct_address h desired.file i >>= λ address. some (address, h) in
    let inner = get_parent_key h key >>= λ (parent_key, h1).
    get_page past f h1 parent_key >>= λ (parent, h2).
    indirect_address h2 parent
      (get_index_in_parent desired.data_offset (h2.keys parent_key).data_offset)
    >>= λ address. some (address, h2) in
    let missing =
      (if desired.levels_above == add32 height minus_one then top else inner) >>= λ (address, h3).
      let (wp, h4) = read_wp_from_disk h3 address in put_page_into_cache h4 wp key in
    if not (slt desired.levels_above height)
    then some (0, h)
    else cache_get h key >>= λ entry. if entry == 0 then missing else some (entry, h)

unfoldable pub fs_get_page : ℕ → Heap → ℕ → Option (ℕ × Heap)
fs_get_page f h key = get_page (λ h' key'. none) f h key

unfoldable pub consume_free_block : ℕ
consume_free_block = 0

unfoldable pub first_page_ops : WriteablePage → ActiveLog → WriteablePage × ActiveLog
first_page_ops page log = (
  record page { erase_count = log.last_erases },
  record log { next_page = add32 log.next_page 1 },
)

unfoldable pub third_to_last_page_ops : ActiveLog → ActiveLog
third_to_last_page_ops log = record log { next_page = add32 (mul32 log.prev 16) 15 }

unfoldable pub second_to_last_page_ops : WriteablePage → ActiveLog → WriteablePage
second_to_last_page_ops page log = record page {
  next_log_block = consume_free_block;
  next_block_erases = log.last_erases;
}

unfoldable pub last_page_ops : WriteablePage → ActiveLog → WriteablePage
last_page_ops page log = record page { next_block_erases = log.last_erases }

-- The page gets the log's next address, which stays the next one. `none`: there is no log.
unfoldable pub allocate_free_page : Heap → ℕ → ℕ → Option Heap
allocate_free_page h page log =
    let l = h.logs log in
    if log == 0
    then none
    else some (record h {
      pages = store h.pages page (record (h.pages page) { address = l.next_page });
      logs = store h.logs log (record l { active = add32 l.active 1 });
    })

unfoldable pub prepare_writeable_page : Heap → ℕ → (ℕ → ℕ) → Option (ℕ × Heap)
prepare_writeable_page h key bytes =
    allocate_free_page (record h { fresh = h.fresh + 1 }) h.fresh
      (h.files (h.keys key).file).main_extent_log
    >>= λ h'. some (
      h.fresh,
      record h' { pages = store h'.pages h.fresh (record (h'.pages h.fresh) { contents = bytes }) },
    )

-- The calls below a level of the tree end at its height.
unfoldable pub levels_left : Heap → ℕ → ℕ
levels_left h key = (h.files (h.keys key).file).tree_height + 1

unfoldable pub fs_update_parent_page : Heap → ℕ → ℕ → Option Heap
fs_update_parent_page h child dirty = get_parent_key h child >>= λ (parent_key, h1).
    fs_get_page (levels_left h1 parent_key) h1 parent_key >>= λ (parent, h2).
    if parent == 0
    then some h2
    else some (set_entry h2 parent (record (h2.entries parent) { dirty = dirty }))

unfoldable pub fs_write_data : Heap → ℕ → (ℕ → ℕ) → Option (ℕ × Heap)
fs_write_data h key bytes = prepare_writeable_page h key bytes >>= λ (page, h1).
    put_page_into_cache h1 page key >>= λ (entry, h2).
    fs_update_parent_page h2 key 1 >>= λ h3. some (page, h3)
