-- ===== src/Nand.antt =====
-- The virtual NAND: fuse-3.0.2/example/vNANDlib.c. The store is one file, here an image of words
-- from its first byte on; `page_image` and `page_of` are the transfers of a `struct fullPage`.
pub mod Layout
pub mod Pages
pub mod Write
pub mod Erase
pub mod Chain
use cycology.Base.{
  ℕ, ◌+◌, ◌-◌, ◌*◌, ◌/◌, ◌%◌, Bool, not, ◌&&◌, ◌||◌, Option, none, some, ◌==◌, if◌then◌else◌,
  is_neg, add32, div32, rem32, slt, minus_one, word_mod,
}
use cycology.Disk.{
  block_size, page_bytes, page_words, block_bytes, block_words, features_bytes, FullPage,
}
use cycology.Disk.Images.{Image, paste, shift, page_image, page_of}

-- `struct nandFeatures`
pub record Features : Type 0 where
  pub num_blocks : ℕ
  pub mem_size : ℕ

-- The open file and the static `features` of vNANDlib.c.
pub record Nand : Type 0 where
  pub file : Image
  pub features : Features

-- Whether the calls of `read` and `write` succeed. A call that succeeds moves all bytes, one that
-- fails returns -1 and moves none.
pub record Io : Type 0 where
  pub read_ok : Bool
  pub write_ok : Bool

-- POST of initNAND: the file's first bytes are the features. `old` is what the static variable held.
unfoldable pub init_nand : Bool → Io → Image → Features → Features
init_nand opened io file old =
    if opened && io.read_ok then record { num_blocks = file 0; mem_size = file 1 } else old

-- the byte at which page `k` starts, as the `int` that readNAND computes
unfoldable pub page_offset : ℕ → ℕ
page_offset k =
    (features_bytes + div32 k block_size * block_bytes + rem32 k block_size * page_bytes) % word_mod

-- the byte at which the block of page `k` starts
unfoldable pub block_offset : ℕ → ℕ
block_offset k = (features_bytes + div32 k block_size * block_bytes) % word_mod

-- the byte that eraseNAND takes for the erase count of block `b`
unfoldable pub erase_offset : ℕ → ℕ
erase_offset b = (features_bytes + (b + 1) % word_mod * (block_bytes - 4)) % word_mod

-- the two guards of each operation: past the end of the file; an `lseek` to a negative offset fails,
-- and where the transfer then happens is not followed
unfoldable pub beyond : Features → ℕ → Bool
beyond f off = not (slt off f.mem_size)

-- Returns the result and what the buffer then holds.
unfoldable pub read_nand : Io → Nand → FullPage → ℕ → Option (ℕ × FullPage)
read_nand io n buf k =
    let off = page_offset k in
    if beyond n.features off
    then some (minus_one, buf)
    else if is_neg off
    then none
    else if io.read_ok
    then some (page_bytes, page_of (shift (off / 4) n.file))
    else some (minus_one, buf)

-- `curBlock` after the page of index `i` in it is replaced and its counter moved on
abbrev next_page_word : ℕ
next_page_word = 4192

abbrev erase_count_word : ℕ
erase_count_word = 4193

unfoldable pub program_block : Image → FullPage → ℕ → Bool → Image
program_block block buf i random_access w =
    if (w == next_page_word) && not random_access
    then add32 (block next_page_word) 1
    else paste block (i * page_words) page_words (page_image buf) w

-- the byte of the second `lseek` of writeNAND, to an `off_t`, which does not wrap, for a page that is not
-- negative
unfoldable pub write_offset : ℕ → ℕ
write_offset k = features_bytes + k / block_size * block_bytes

-- `none` besides: the `memcpy` of a random access to a negative page writes outside `curBlock`, and the
-- second `lseek` to a negative offset fails.
unfoldable pub write_nand : Io → Nand → FullPage → ℕ → Bool → Option (ℕ × Nand)
write_nand io n buf k random_access =
    let off = block_offset k in
    let block = shift (off / 4) n.file in
    let i = rem32 k block_size in
    if beyond n.features off
    then some (minus_one, n)
    else if is_neg off
    then none
    else if not io.read_ok
    then some (minus_one, n)
    else if not random_access && not (i == block next_page_word)
    then some (minus_one, n)
    else if is_neg i
    then none
    else if not io.write_ok
    then some (minus_one, n)
    else if is_neg k
    then none
    else some (
      block_bytes,
      record n {
        file =
            paste n.file (write_offset k / 4) block_words (program_block block buf i random_access);
      },
    )

-- the block that eraseNAND writes
unfoldable pub erased_block : ℕ → Image
erased_block erase_count w = if w == erase_count_word then erase_count else 0

-- `k` is a block address here. The second `lseek` is to an `off_t`, which does not wrap.
unfoldable pub erase_nand : Io → Nand → ℕ → Option (ℕ × Nand)
erase_nand io n b =
    let off = erase_offset b in
    let erase_count = add32 (n.file (off / 4)) 1 in
    if beyond n.features off
    then some (minus_one, n)
    else if is_neg off || is_neg b
    then none
    else if not io.read_ok
    then some (minus_one, n)
    else if not io.write_ok
    then some (minus_one, n)
    else some (
      erase_count,
      record n {
        file =
            paste n.file ((features_bytes + b * block_bytes) / 4) block_words
              (erased_block erase_count);
      },
    )
