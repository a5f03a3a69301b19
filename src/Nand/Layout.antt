-- ===== src/Nand/Layout.antt =====
-- Where pages, counters and blocks lie in the file of a formatted NAND: the `int` offsets of
-- vNANDlib.c do not wrap, and the guards let through exactly the pages of the NAND.
use cycology.Base.{
  ℕ, ◌+◌, ◌*◌, ◌/◌, ◌%◌, ◌<◌, ◌≡◌, false, arith, is_neg, sign_bit, rem32, div32_nonneg,
  rem32_nonneg, slt_nonneg,
}
use cycology.Disk.{block_bytes, features_bytes}
use cycology.Nand.{Features, page_offset, block_offset, write_offset, beyond}

pub record IsFormatted (f : Features) : Type 0 where
  pub size : f.mem_size ≡ features_bytes + f.num_blocks * block_bytes
  pub small : f.mem_size < sign_bit

-- the words at which a block and a page start
abbrev pub block_word : ℕ → ℕ
block_word b = 2 + b * 4194

abbrev pub page_word : ℕ → ℕ
page_word k = 2 + k / 16 * 4194 + k % 16 * 262

module _ {f : Features} (v : IsFormatted f) (k : ℕ) (inside : k < f.num_blocks * 16) where
  word_of_inside : k < sign_bit
  word_of_inside = omega arith

  -- the byte offset is four times the word offset
  pub page_offset_lem : page_offset k ≡ page_word k * 4
  unfolding page_offset
  page_offset_lem =
      rw (div32_nonneg k 16 word_of_inside, rem32_nonneg k 16 word_of_inside) (omega arith)

  pub block_offset_lem : block_offset k ≡ block_word (k / 16) * 4
  unfolding block_offset
  block_offset_lem = rw (div32_nonneg k 16 word_of_inside) (omega arith)

  pub write_offset_lem : write_offset k ≡ block_word (k / 16) * 4
  unfolding write_offset
  write_offset_lem = omega arith

  pub page_number_nonneg : is_neg k ≡ false
  page_number_nonneg = let small = word_of_inside in ground arith

  pub page_not_beyond : beyond f (page_word k * 4) ≡ false
  unfolding beyond
  page_not_beyond =
      rw (slt_nonneg (page_word k * 4) f.mem_size (omega arith) v.small) (ground arith)

  pub block_not_beyond : beyond f (block_word (k / 16) * 4) ≡ false
  unfolding beyond
  block_not_beyond =
      rw (slt_nonneg (block_word (k / 16) * 4) f.mem_size (omega arith) v.small) (ground arith)

  pub page_nonneg : is_neg (page_word k * 4) ≡ false
  page_nonneg = ground arith

  pub block_nonneg : is_neg (block_word (k / 16) * 4) ≡ false
  block_nonneg = ground arith

  pub index_lem : rem32 k 16 ≡ k % 16
  index_lem = rem32_nonneg k 16 word_of_inside

pub times_four : (a : ℕ) → a * 4 / 4 ≡ a
times_four a = omega arith

pub index_nonneg : (k : ℕ) → is_neg (k % 16) ≡ false
index_nonneg k = ground arith
