-- ===== src/Nand/Pages.antt =====
-- A formatted NAND as an array of pages with two counters for each block, and what a read and a
-- write do to it.
use cycology.Base.{
  ℕ, ◌+◌, ◌*◌, ◌/◌, ◌%◌, ◌<◌, ◌≡◌, ◌≢◌, refl, ap, ◌∙◌, inl, inr, Bool, not, ◌&&◌, ◌||◌, some, arith,
  ◌==◌, if◌then◌else◌, Bool-cases, add32, minus_one,
}
use cycology.Disk.{page_bytes, block_bytes, FullPage}
use cycology.Disk.Images.{paste, shift, page_image, page_of}
use cycology.Nand.{Nand, Io, program_block, read_nand, write_nand}
use cycology.Nand.Layout.{
  IsFormatted, block_word, page_word, page_offset_lem, block_offset_lem, write_offset_lem,
  page_number_nonneg,
}
use cycology.Nand.Layout.{
  page_not_beyond, block_not_beyond, page_nonneg, block_nonneg, index_lem, times_four, index_nonneg,
}

abbrev pub page_at : Nand → ℕ → FullPage
page_at n k = page_of (shift (page_word k) n.file)

abbrev pub next_page_at : Nand → ℕ → ℕ
next_page_at n b = n.file (block_word b + 4192)

abbrev pub erase_count_at : Nand → ℕ → ℕ
erase_count_at n b = n.file (block_word b + 4193)

-- equal as far as a `struct fullPage` goes: 256 words of contents and the fields behind them
pub record SamePage (p q : FullPage) : Type 0 where
  pub contents : (i : ℕ) → i < 256 → p.contents i ≡ q.contents i
  pub erase_count : p.erase_count ≡ q.erase_count
  pub next_log_block : p.next_log_block ≡ q.next_log_block
  pub next_block_erases : p.next_block_erases ≡ q.next_block_erases
  pub meta_inode : p.meta_inode ≡ q.meta_inode
  pub meta_offset : p.meta_offset ≡ q.meta_offset
  pub page_type : p.page_type ≡ q.page_type

pub SamePage-trans : {p q r : FullPage} → SamePage p q → SamePage q r → SamePage p r
SamePage-trans a b = record {
  contents = λ i h. a.contents i h ∙ b.contents i h;
  erase_count = a.erase_count ∙ b.erase_count;
  next_log_block = a.next_log_block ∙ b.next_log_block;
  next_block_erases = a.next_block_erases ∙ b.next_block_erases;
  meta_inode = a.meta_inode ∙ b.meta_inode;
  meta_offset = a.meta_offset ∙ b.meta_offset;
  page_type = a.page_type ∙ b.page_type;
}

pub SamePage-refl : (p : FullPage) → SamePage p p
SamePage-refl p = record {
  contents = λ i h. refl;
  erase_count = refl;
  next_log_block = refl;
  next_block_erases = refl;
  meta_inode = refl;
  meta_offset = refl;
  page_type = refl;
}

unfoldable pub written : Nand → FullPage → ℕ → Bool → Nand
written n buf k random_access = record n {
  file =
      paste n.file (block_word (k / 16)) 4194
        (program_block (shift (block_word (k / 16)) n.file) buf (k % 16) random_access);
}

module _ (n : Nand) (v : IsFormatted n.features) (io : Io) (buf : FullPage) (k : ℕ) where
  pub read_nand_lem :
      k < n.features.num_blocks * 16
      → read_nand io n buf k
        ≡ some (if io.read_ok then (page_bytes, page_at n k) else (minus_one, buf))
  unfolding read_nand
  read_nand_lem h =
      rw (page_offset_lem v k h, page_not_beyond v k h, page_nonneg v k h, times_four)
        (elim (Bool-cases io.read_ok) [ inl e ↦ rw e | inr e ↦ rw e ])

  pub write_nand_lem :
      (random_access : Bool)
      → k < n.features.num_blocks * 16
      → write_nand io n buf k random_access
        ≡ some (
            if io.read_ok && (random_access || (k % 16 == next_page_at n (k / 16))) && io.write_ok
            then (block_bytes, written n buf k random_access)
            else (minus_one, n))
  unfolding write_nand written
  write_nand_lem random_access h =
      rw
        (
          block_offset_lem v k h,
          block_not_beyond v k h,
          block_nonneg v k h,
          times_four,
          index_lem v k h,
          index_nonneg k,
          write_offset_lem v k h,
          page_number_nonneg v k h,
          times_four,
        )
        (ground arith)

module _ (n : Nand) (buf : FullPage) (k : ℕ) (random_access : Bool) where
  pub features-written : (written n buf k random_access).features ≡ n.features
  unfolding written
  features-written = refl

  pub page_at-written_self :
      buf.page_type < 256 → SamePage (page_at (written n buf k random_access) k) buf
  unfolding written program_block page_of page_image
  page_at-written_self h = record {
    contents = λ i hi. ground arith;
    erase_count = ground arith;
    next_log_block = ground arith;
    next_block_erases = ground arith;
    meta_inode = ground arith;
    meta_offset = ground arith;
    page_type = ground arith;
  }

  word_at-written_ne :
      (j i : ℕ)
      → j ≢ k
      → i < 262
      → (written n buf k random_access).file (page_word j + i) ≡ n.file (page_word j + i)
  unfolding written program_block
  word_at-written_ne j i h hi = ground arith

  pub page_at-written_ne :
      (j : ℕ) → j ≢ k → SamePage (page_at (written n buf k random_access) j) (page_at n j)
  unfolding page_of
  page_at-written_ne j h = record {
    contents = λ i hi. word_at-written_ne j i h (omega arith);
    erase_count = word_at-written_ne j 256 h (omega arith);
    next_log_block = word_at-written_ne j 257 h (omega arith);
    next_block_erases = word_at-written_ne j 258 h (omega arith);
    meta_inode = word_at-written_ne j 259 h (omega arith);
    meta_offset = word_at-written_ne j 260 h (omega arith);
    page_type = ap (λ w. w % 256) (word_at-written_ne j 261 h (omega arith));
  }

  pub next_page_at-written :
      (b : ℕ)
      → next_page_at (written n buf k random_access) b ≡ (
          if (b == k / 16) && not random_access
          then add32 (next_page_at n b) 1
          else next_page_at n b)
  unfolding written program_block
  next_page_at-written b = ground arith

  pub erase_count_at-written :
      (b : ℕ) → erase_count_at (written n buf k random_access) b ≡ erase_count_at n b
  unfolding written program_block
  erase_count_at-written b = ground arith
