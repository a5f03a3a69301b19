-- ===== src/Nand/Erase.antt =====
-- eraseNAND of a formatted NAND. The word that it takes for the erase count of block `b` lies
-- `b` words before the erase count.
use cycology.Base.{
  ℕ, ◌+◌, ◌*◌, ◌/◌, ◌%◌, ◌<◌, ◌≡◌, ◌≢◌, refl, ap, some, false, arith, ◌==◌, if◌then◌else◌, add32,
  slt_nonneg, is_neg,
}
use cycology.Disk.{FullPage, features_bytes, block_bytes}
use cycology.Disk.Images.{paste, page_of}
use cycology.Nand.{Nand, Features, erase_nand, erase_offset, erased_block, beyond}
use cycology.Nand.Layout.{IsFormatted, block_word, page_word, times_four}
use cycology.Nand.Pages.{page_at, next_page_at, erase_count_at, SamePage}
use cycology.Nand.Write.{working}

abbrev pub erased_page : FullPage
erased_page = record {
  contents = λ _. 0;
  erase_count = 0;
  next_log_block = 0;
  next_block_erases = 0;
  meta_inode = 0;
  meta_offset = 0;
  page_type = 0;
}

-- `n'` is `n` with block `b` erased and its erase count at `count`
pub record Erased (n : Nand) (b count : ℕ) (n' : Nand) : Type 0 where
  pub features : n'.features ≡ n.features
  pub pages : (k : ℕ) → k / 16 ≡ b → SamePage (page_at n' k) erased_page
  pub others : (k : ℕ) → k / 16 ≢ b → SamePage (page_at n' k) (page_at n k)
  pub next_page : (c : ℕ) → next_page_at n' c ≡ (if c == b then 0 else next_page_at n c)
  pub erases : (c : ℕ) → erase_count_at n' c ≡ (if c == b then count else erase_count_at n c)

unfoldable pub erased : Nand → ℕ → ℕ → Nand
erased n b count = record n { file = paste n.file (block_word b) 4194 (erased_block count) }

-- the word that eraseNAND reads
abbrev pub count_read : Nand → ℕ → ℕ
count_read n b = n.file (2 + (b + 1) * 4193)

module _ {f : Features} (v : IsFormatted f) (b : ℕ) (inside : b < f.num_blocks) where
  erase_offset_lem : erase_offset b ≡ (2 + (b + 1) * 4193) * 4
  unfolding erase_offset
  erase_offset_lem = omega arith

  erase_not_beyond : beyond f ((2 + (b + 1) * 4193) * 4) ≡ false
  unfolding beyond
  erase_not_beyond =
      rw (slt_nonneg ((2 + (b + 1) * 4193) * 4) f.mem_size (omega arith) v.small) (ground arith)

  erase_nonneg : is_neg ((2 + (b + 1) * 4193) * 4) ≡ false
  erase_nonneg = ground arith

  block_number_nonneg : is_neg b ≡ false
  block_number_nonneg = ground arith

  block_start : (features_bytes + b * block_bytes) / 4 ≡ block_word b
  block_start = omega arith

module _ (n : Nand) (b count : ℕ) where
  word_zero :
      (k : ℕ) → k / 16 ≡ b → (i : ℕ) → i < 262 → (erased n b count).file (page_word k + i) ≡ 0
  unfolding erased erased_block
  word_zero k e i h = ground arith

  word_kept :
      (k : ℕ)
      → k / 16 ≢ b
      → (i : ℕ) → i < 262
      → (erased n b count).file (page_word k + i) ≡ n.file (page_word k + i)
  unfolding erased erased_block
  word_kept k e i h = ground arith

  erased-Erased : Erased n b count (erased n b count)
  unfolding erased erased_block page_of
  erased-Erased = record {
    features = refl;
    pages = λ k e. record {
      contents = λ i h. word_zero k e i (omega arith);
      erase_count = word_zero k e 256 (omega arith);
      next_log_block = word_zero k e 257 (omega arith);
      next_block_erases = word_zero k e 258 (omega arith);
      meta_inode = word_zero k e 259 (omega arith);
      meta_offset = word_zero k e 260 (omega arith);
      page_type = ap (λ w. w % 256) (word_zero k e 261 (omega arith));
    };
    others = λ k e. record {
      contents = λ i h. word_kept k e i (omega arith);
      erase_count = word_kept k e 256 (omega arith);
      next_log_block = word_kept k e 257 (omega arith);
      next_block_erases = word_kept k e 258 (omega arith);
      meta_inode = word_kept k e 259 (omega arith);
      meta_offset = word_kept k e 260 (omega arith);
      page_type = ap (λ w. w % 256) (word_kept k e 261 (omega arith));
    };
    next_page = λ c. ground arith;
    erases = λ c. ground arith;
  }

module _ (n : Nand) (v : IsFormatted n.features) (b : ℕ) (inside : b < n.features.num_blocks) where
  erase_nand_lem :
      erase_nand working n b
      ≡ some (add32 (count_read n b) 1, erased n b (add32 (count_read n b) 1))
  unfolding erase_nand erased
  erase_nand_lem = rw (
    erase_offset_lem v b inside,
    erase_not_beyond v b inside,
    erase_nonneg v b inside,
    block_number_nonneg v b inside,
    block_start v b inside,
    times_four,
  )

  -- An erasure of a block of the NAND returns one more than the word that it takes for the erase
  -- count, makes every page of the block read as erased, resets its counter of pages, stores the
  -- number returned as its erase count, and changes no other block.
  pub erase_nand-Erased :
      (n' : Nand) × (erase_nand working n b ≡ some (add32 (count_read n b) 1, n'))
      × Erased n b (add32 (count_read n b) 1) n'
  erase_nand-Erased = (
    erased n b (add32 (count_read n b) 1),
    erase_nand_lem,
    erased-Erased n b (add32 (count_read n b) 1),
  )

-- The erase count after an erasure: in block 0 it is one more than before; in block 1 it is one more
-- than the number of pages written since the last erasure, whatever the erase count was.
pub erase_nand_counts :
    (n : Nand)
    → IsFormatted n.features
    → 1 < n.features.num_blocks
    → (first second : Nand) × (erase_nand working n 0 ≡ some (add32 (erase_count_at n 0) 1, first))
      × (erase_count_at first 0 ≡ add32 (erase_count_at n 0) 1)
      × (erase_nand working n 1 ≡ some (add32 (next_page_at n 1) 1, second))
      × (erase_count_at second 1 ≡ add32 (next_page_at n 1) 1)
erase_nand_counts n v h =
    let zeroth = erase_nand-Erased n v 0 (omega arith) in
    let next = erase_nand-Erased n v 1 h in
    (zeroth.0, next.0, zeroth.1, zeroth.2.erases 0, next.1, next.2.erases 1)
