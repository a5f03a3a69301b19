-- ===== src/Show.antt =====
-- The utility fuse-3.0.2/example/showNAND.c, which walks the free lists with a mark for each block and
-- prints what the store holds. What it prints is a list of lines with their numbers.
pub mod Ends
use cycology.Base.{
  ℕ, zero, suc, ◌+◌, ◌-◌, ◌*◌, ◌/◌, ◌%◌, Bool, true, false, Option, none, some, not, ◌&&◌, ◌||◌,
  List, [], ◌∷◌, ◌++◌, ltb, ◌==◌, if◌then◌else◌, ◌>>=◌, store, add32, mul32, neg32, div32,
  minus_one, is_neg, slt,
}
use cycology.Disk.{
  block_size, contents_words, ptype_inode, FullPage, FreeList, SuperPage, AddrMap, Inode,
}
use cycology.Disk.Images.{Image, header_of, super_of, map_of}
use cycology.Nand.{Features, Nand, Io, init_nand, read_nand}

abbrev pub unmarked : ℕ
unmarked = 0

abbrev pub completely_free : ℕ
completely_free = 1

abbrev pub partially_free : ℕ
partially_free = 2

abbrev pub used : ℕ
used = 3

pub data Line : Type 0 where
  page_number : ℕ → Line
  new_line : Line
  cycle : Line
  both_lists : Line
  bad_tail : Line
  list_ends : ℕ → ℕ → Line
  blocks : ℕ → ℕ → Line
  map_page : ℕ → Line
  map_size : ℕ → Line
  mapping : ℕ → ℕ → Line
  free_entry : ℕ → Line
  no_free_entry : Line
  used_block : ℕ → Line
  used_page : ℕ → Line
  inode : Inode → Line

-- The static variables: the store, the page buffer, the free lists of the super block and the marks.
pub record Shown : Type 0 where
  pub nand : Nand
  pub page : FullPage
  pub lists : FreeList
  pub block_stat : ℕ → ℕ
  pub output : List Line

unfoldable pub print : Shown → List Line → Shown
print s lines = record s { output = s.output ++ lines }

unfoldable pub get_free_list_head : Shown → ℕ → ℕ
get_free_list_head s free_list_type =
    if free_list_type == completely_free then s.lists.complete_head else s.lists.partial_head

unfoldable pub print_page_number : ℕ → ℕ → List Line
print_page_number block_ptr position =
    page_number block_ptr ∷ (if position % 10 == 9 then new_line ∷ [] else [])

-- The result and the state. The second test assigns the type of the list, which is not 0, so it holds.
-- `none`: the block has no mark.
unfoldable pub mark_block_statistics : Shown → ℕ → ℕ → Option (ℕ × Shown)
mark_block_statistics s free_list_type free_block_ptr =
    let b = div32 free_block_ptr block_size in
    if not (ltb b s.nand.features.num_blocks)
    then none
    else if s.block_stat b == unmarked
    then some (0, record s { block_stat = store s.block_stat b free_list_type })
    else if not (free_list_type == 0)
    then some (1, print s (cycle ∷ []))
    else some (1, print s (both_lists ∷ []))

unfoldable pub get_next_log_block : Io → Shown → ℕ → ℕ → Option (ℕ × Shown)
get_next_log_block io s free_list_type free_block_ptr =
    let k =
      if free_list_type == completely_free
      then add32 free_block_ptr (block_size - 1)
      else free_block_ptr in
    read_nand io s.nand s.page k >>= λ r. some (r.1.next_log_block, record s { page = r.1 })

unfoldable pub is_valid_tail : Shown → ℕ → ℕ → Bool
is_valid_tail s previous free_list_type =
    if not (previous == 0)
    then (if free_list_type == completely_free
        then previous == s.lists.complete_tail
        else previous == s.lists.partial_tail)
    else true

-- The loop of showFreeList; returns `previous`. The first argument bounds the rounds, `none` besides:
-- it does not suffice.
unfoldable pub show_loop : ℕ → Io → Shown → ℕ → ℕ → ℕ → ℕ → Option (ℕ × Shown)
show_loop zero io s free_list_type count previous free_block_ptr = none
show_loop (suc f) io s free_list_type count previous free_block_ptr =
    let printed = print s (print_page_number free_block_ptr (count + 1)) in
    if free_block_ptr == 0
    then some (previous, s)
    else mark_block_statistics printed free_list_type free_block_ptr >>= λ (error, s1).
        if not (error == 0)
        then some (previous, s1)
        else get_next_log_block io s1 free_list_type free_block_ptr >>= λ (next, s2).
            show_loop f io s2 free_list_type (count + 1) free_block_ptr next

-- A round marks a block or is the last, so there is one round more than blocks at most.
unfoldable pub show_free_list : Io → Shown → ℕ → Option Shown
show_free_list io s free_list_type =
    show_loop (suc (suc s.nand.features.num_blocks)) io s free_list_type 0 0
      (get_free_list_head s free_list_type)
    >>= λ (previous, s'). some (
        if is_valid_tail s' previous free_list_type
        then print s' (new_line ∷ [])
        else print s' (bad_tail ∷ new_line ∷ []))

unfoldable pub print_free_lists : Io → Shown → Option Shown
print_free_lists io s =
    let lists = s.lists in
    let features = s.nand.features in
    show_free_list io
      (print s (
        blocks features.num_blocks features.mem_size
        ∷ list_ends lists.complete_head lists.complete_tail
        ∷ []))
      completely_free
    >>= λ s1.
        show_free_list io (print s1 (list_ends lists.partial_head lists.partial_tail ∷ []))
          partially_free
        >>= λ s2. some (print s2 (new_line ∷ []))

-- the page that holds the address map
unfoldable pub get_vaddr_map : Io → Shown → Option Shown
get_vaddr_map io s = read_nand io s.nand s.page block_size >>= λ r. some (record s { page = r.1 })

-- An entry of the address map in the page buffer; `none`: past its end.
unfoldable pub map_entry : AddrMap → ℕ → Option ℕ
map_entry map i = if ltb i (contents_words - 2) then some (map.map i) else none

-- The loop from `i` on, whose first value the code does not set. The first argument bounds the rounds.
unfoldable pub print_active_mappings : ℕ → AddrMap → ℕ → Option (List Line)
print_active_mappings zero map i = none
print_active_mappings (suc f) map i =
    let rest = print_active_mappings f map (add32 i 1) in
    if not (slt i map.size)
    then some []
    else map_entry map i >>= λ address.
        rest >>= λ lines. some (if slt 0 address then mapping i address ∷ lines else lines)

-- the loop over the free entries from `free_pos` on; the first argument bounds the rounds
unfoldable pub print_free_entries : ℕ → AddrMap → ℕ → Option (List Line)
print_free_entries zero map free_pos = none
print_free_entries (suc f) map free_pos =
    if slt 0 free_pos
    then (map_entry map free_pos >>= λ entry.
        print_free_entries f map (neg32 entry) >>= λ lines. some (free_entry free_pos ∷ lines))
    else some []

unfoldable pub print_free_positions : ℕ → AddrMap → Option (List Line)
print_free_positions rounds map =
    if map.free_ptr == 0
    then some (no_free_entry ∷ [])
    else print_free_entries rounds map map.free_ptr

unfoldable pub print_page_info : FullPage → List Line
print_page_info page =
    if page.page_type == ptype_inode then inode (header_of page.contents).f_inode ∷ [] else []

-- the `n` last pages of a block, up to the first erased one
unfoldable pub print_pages : ℕ → Io → Shown → ℕ → Option Shown
print_pages zero io s block = some s
print_pages (suc n) io s block =
    let k = add32 (mul32 block block_size) (block_size - suc n) in
    read_nand io s.nand s.page k >>= λ r.
    let s' = record s { page = r.1 } in
    if r.1.page_type == 0
    then some s'
    else print_pages n io (print s' (used_page k ∷ print_page_info r.1)) block

unfoldable pub print_block : Io → Shown → ℕ → Option Shown
print_block io s block = print_pages block_size io s block

-- the `n` last blocks, of which `b` is the first
unfoldable pub update_block_stat : ℕ → Io → Shown → ℕ → Option Shown
update_block_stat zero io s b = some s
update_block_stat (suc n) io s b =
    (if s.block_stat b == unmarked
      then print_block io
          (print (record s { block_stat = store s.block_stat b used }) (used_block b ∷ [])) b
      else some s)
    >>= λ s'. update_block_stat n io s' (b + 1)

-- `i` is what the variable holds that printActiveMappings does not set.
unfoldable pub print_vaddr_map : ℕ → Io → SuperPage → Shown → ℕ → Option Shown
print_vaddr_map rounds io super s i =
    get_vaddr_map io (print s (map_page super.latest_vaddr_map ∷ [])) >>= λ s1.
    let map = map_of s1.page.contents in
    print_active_mappings rounds map i >>= λ active. print_free_positions rounds map >>= λ free.
    let n = s1.nand.features.num_blocks in
    update_block_stat (if is_neg n then 0 else n - 2) io
      (print s1 (map_size map.size ∷ active ++ free)) 2

-- The result and what is printed. `old`, `page` and `super_page` are what the static variables hold
-- first; the result of a run that prints is 0.
unfoldable pub show_nand :
    ℕ → Io → Bool → Image → Features → FullPage → FullPage → ℕ → ℕ → Option (ℕ × List Line)
show_nand rounds io opened file old page super_page i argc =
    let n : Nand = record { file = file; features = init_nand opened io file old } in
    let run = read_nand io n super_page 0 >>= λ r.
    let super = super_of r.1.contents in
    print_free_lists io (record {
      nand = n;
      page = page;
      lists = super.free_lists;
      block_stat = λ b. unmarked;
      output = [];
    })
    >>= λ s1. print_vaddr_map rounds io super s1 i >>= λ s2. some (0, s2.output) in
    if ltb 1 argc then some (minus_one, []) else run
