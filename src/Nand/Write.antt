-- ===== src/Nand/Write.antt =====
-- writeNAND and readNAND of a formatted NAND: the rule that a block is written page by page, and
-- what a later read returns.
use cycology.Base.{
  ℕ, ◌*◌, ◌/◌, ◌%◌, ◌<◌, ◌≡◌, ◌≢◌, Bool, true, false, some, arith, ◌==◌, if◌then◌else◌, add32,
  minus_one, eq→==, ne→==,
}
use cycology.Disk.{page_bytes, block_bytes, FullPage}
use cycology.Nand.{Nand, Io, read_nand, write_nand}
use cycology.Nand.Layout.{IsFormatted}
use cycology.Nand.Pages.{
  page_at, next_page_at, erase_count_at, SamePage, written, read_nand_lem, write_nand_lem,
  page_at-written_self, page_at-written_ne, next_page_at-written, erase_count_at-written,
  features-written,
}

abbrev pub working : Io
working = record { read_ok = true; write_ok = true }

-- `n'` is `n` with page `k` replaced by `buf` and the counter of its block at `counter`
pub record Programmed (n : Nand) (buf : FullPage) (k counter : ℕ) (n' : Nand) : Type 0 where
  pub features : n'.features ≡ n.features
  pub page : SamePage (page_at n' k) buf
  pub others : (j : ℕ) → j ≢ k → SamePage (page_at n' j) (page_at n j)
  pub next_page : (b : ℕ) → next_page_at n' b ≡ (if b == k / 16 then counter else next_page_at n b)
  pub erases : (b : ℕ) → erase_count_at n' b ≡ erase_count_at n b

module _ (n : Nand) (v : IsFormatted n.features) (buf : FullPage) (k : ℕ)
    (inside : k < n.features.num_blocks * 16) where
  -- A sequential write to the next free page of a block succeeds: the page then holds the buffer, the
  -- counter of the block moves on by one, and no other page, counter or erase count changes.
  pub write_nand-Programmed :
      buf.page_type < 256
      → k % 16 ≡ next_page_at n (k / 16)
      → (n' : Nand) × (write_nand working n buf k false ≡ some (block_bytes, n'))
        × Programmed n buf k (add32 (next_page_at n (k / 16)) 1) n'
  write_nand-Programmed t e = (
    written n buf k false,
    rw (write_nand_lem n v working buf k false inside, eq→== _ _ e),
    record {
      features = features-written n buf k false;
      page = page_at-written_self n buf k false t;
      others = page_at-written_ne n buf k false;
      next_page = λ b. ground (arith, next_page_at-written n buf k false b);
      erases = erase_count_at-written n buf k false;
    },
  )

  -- A random access succeeds wherever the counter stands, replaces the page and leaves all counters.
  pub write_nand-random_access :
      buf.page_type < 256
      → (n' : Nand) × (write_nand working n buf k true ≡ some (block_bytes, n'))
        × Programmed n buf k (next_page_at n (k / 16)) n'
  write_nand-random_access t = (
    written n buf k true,
    rw (write_nand_lem n v working buf k true inside),
    record {
      features = features-written n buf k true;
      page = page_at-written_self n buf k true t;
      others = page_at-written_ne n buf k true;
      next_page = λ b. ground (arith, next_page_at-written n buf k true b);
      erases = erase_count_at-written n buf k true;
    },
  )

  -- A sequential write to a page that is not the next free one of its block is refused with -1, and
  -- the store is unchanged, whether the calls of the file system would succeed or not.
  pub write_nand_out_of_order :
      (io : Io)
      → k % 16 ≢ next_page_at n (k / 16)
      → write_nand io n buf k false ≡ some (minus_one, n)
  write_nand_out_of_order io e =
      rw (write_nand_lem n v io buf k false inside, ne→== _ _ e) (ground arith)

  write_nand-eq-ok :
      (random_access : Bool) (n' : Nand)
      → write_nand working n buf k random_access ≡ some (block_bytes, n')
      → written n buf k random_access ≡ n'
  write_nand-eq-ok random_access n' e =
      ground (arith, write_nand_lem n v working buf k random_access inside)

  -- What a successful write puts on a page, a later read of it returns.
  pub read_nand-write_nand :
      (random_access : Bool) (n' : Nand) (old : FullPage)
      → buf.page_type < 256
      → write_nand working n buf k random_access ≡ some (block_bytes, n')
      → (p : FullPage) × (read_nand working n' old k ≡ some (page_bytes, p)) × SamePage p buf
  read_nand-write_nand random_access n' old t e =
      let same = write_nand-eq-ok random_access n' e in
      let kept = features-written n buf k random_access in
      rw (← same) (
        page_at (written n buf k random_access) k,
        read_nand_lem (written n buf k random_access) (rw kept v) working old k (rw kept inside),
        page_at-written_self n buf k random_access t,
      )
