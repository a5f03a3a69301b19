-- ===== src/Makefs.antt =====
-- The two utilities that prepare a store: fuse-3.0.2/example/makeVirtualNAND.c creates the file,
-- fuse-3.0.2/example/makefs.c writes an empty file system on it.
pub mod Link
pub mod Format
use cycology.Base.{
  ℕ, zero, suc, ◌+◌, ◌-◌, ◌*◌, ◌/◌, ◌%◌, Bool, false, Option, none, some, [], ◌∷◌, ◌==◌, ltb, ◌&&◌,
  if◌then◌else◌, ◌>>=◌, is_neg, mul32, neg32, minus_one, word_mod,
}
use cycology.Disk.{
  block_size, block_bytes, features_bytes, ptype_super, ptype_addrmap, ptype_nextlink, FullPage,
  SuperPage, AddrMap,
}
use cycology.Disk.Images.{Image, words_over, super_image, map_image}
use cycology.Nand.{Nand, Features, Io, write_nand}

-- `features` of makeVirtualNAND for the number of blocks of its argument, which is not negative
unfoldable pub new_features : ℕ → Features
new_features num_blocks = record {
  num_blocks = num_blocks;
  mem_size = (features_bytes + block_bytes * num_blocks) % word_mod;
}

-- `old` is what the file held: zeros where it did not reach. `opened` and `written` tell whether the
-- file could be opened and the features written. At last one zero byte is written behind the blocks.
unfoldable pub make_virtual_nand : Bool → Bool → Image → ℕ → Option Image
make_virtual_nand opened written old num_blocks =
    let end = (features_bytes + block_bytes * num_blocks) / 4 in
    let f = new_features num_blocks in
    let file : Image = if written then words_over (f.num_blocks ∷ f.mem_size ∷ []) old else old in
    if opened then some (λ i. if i == end then file i / 256 * 256 else file i) else none

-- clearPage
unfoldable pub cleared_page : FullPage
cleared_page = record {
  contents = λ _. 0;
  erase_count = 0;
  next_log_block = 0;
  next_block_erases = 0;
  meta_inode = 0;
  meta_offset = 0;
  page_type = 0;
}

unfoldable pub initial_super : ℕ → SuperPage
initial_super num_blocks = record {
  free_lists = record {
    partial_head = block_size * 2;
    partial_head_erases = 0;
    partial_tail = mul32 block_size (num_blocks + word_mod - 1);
    complete_head = 0;
    complete_head_erases = 0;
    complete_tail = 0;
  };
  latest_journal = 0;
  latest_vaddr_map = block_size;
  prev_vaddr_map = 0;
  prev_journal = 0;
}

abbrev pub super_page : ℕ → FullPage
super_page num_blocks = record cleared_page {
  contents = super_image (initial_super num_blocks) cleared_page.contents;
  erase_count = minus_one;
  page_type = ptype_super;
}

-- The results of writeNAND are not looked at.
unfoldable pub write_out_super_block : Io → Nand → Option Nand
write_out_super_block io n = do
  (_, n') ← write_nand io n (super_page n.features.num_blocks) 0 false
  some n'

-- `PAGEDATASIZE/4 - 2`
abbrev pub map_size : ℕ
map_size = 254

-- the entries after the loop: `-(i + 1)` from 1 to `size - 2`, and 0 in the last one
unfoldable pub initial_map : AddrMap
initial_map = record {
  size = map_size;
  free_ptr = 1;
  map = λ i. if ltb 0 i && ltb i (map_size - 1) then neg32 (i + 1) else 0;
}

abbrev pub vaddr_page : FullPage
vaddr_page = record cleared_page {
  contents = map_image initial_map cleared_page.contents;
  page_type = ptype_addrmap;
}

unfoldable pub write_out_vaddr_map : Io → Nand → Option Nand
write_out_vaddr_map io n = do (_, n') ← write_nand io n vaddr_page block_size false; some n'

abbrev pub link_page : ℕ → FullPage
link_page i = record cleared_page {
  page_type = ptype_nextlink;
  next_log_block = mul32 (i + 1) block_size;
}

-- the loop of linkFreeBlocks from `i` on, with the rounds that are left; `calls i` is how the file
-- system treats the write to block `i`
unfoldable pub link_loop : (ℕ → Io) → ℕ → ℕ → Nand → Option Nand
link_loop calls zero i n = some n
link_loop calls (suc rounds) i n =
    write_nand (calls i) n (link_page i) (mul32 i block_size) false >>= λ r.
    link_loop calls rounds (i + 1) r.1

-- `i < numBlocks - 1` from 2 on
unfoldable pub link_free_blocks : (ℕ → Io) → Nand → Option Nand
link_free_blocks calls n =
    link_loop calls (if is_neg n.features.num_blocks then 0 else n.features.num_blocks - 3) 2 n

-- `main`; the first two writes are the calls 0 and 1
unfoldable pub makefs : (ℕ → Io) → Nand → Option Nand
makefs calls n = do
  n ← write_out_super_block (calls 0) n
  n ← write_out_vaddr_map (calls 1) n
  link_free_blocks calls n
