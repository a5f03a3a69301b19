-- ===== src/Paged/Parts.antt =====
-- Which part of each page xmp_read of JuliaRehaanExample/fusexmp_fh.c reads.
use cycology.Base.{ℕ, ◌+◌, ◌-◌, ◌*◌, ◌/◌, ◌%◌, ◌^◌, ◌<◌, ◌≤◌, ◌≡◌, arith, ltb, ◌==◌, if◌then◌else◌}
use cycology.Paged.{page_size, span, part}

-- the pages that the bytes from a position on lie in
abbrev pub pages_in : ℕ → ℕ → ℕ
pages_in size offset = (offset % page_size + (page_size - 1) + size) / page_size

-- how many bytes the first turns of the loop read
abbrev pub done : ℕ → ℕ → ℕ → ℕ
done size offset i =
    if i == 0
    then 0
    else if ltb i (pages_in size offset)
    then i * page_size - offset % page_size
    else size

module _ (size offset : ℕ) (small : offset + size + page_size < 2 ^ 31) where
  pub num_pages_lem : (span size offset).num_pages ≡ pages_in size offset
  unfolding span
  num_pages_lem = ground arith

  pub start_page_lem : (span size offset).start_page ≡ offset / page_size
  unfolding span
  start_page_lem = ground arith

  end_deviation_lem : (span size offset).end_deviation ≡ (size + offset) % page_size
  unfolding span
  end_deviation_lem = ground arith

  pub done_all : done size offset (pages_in size offset) ≡ size
  done_all = ground arith

  pub done_le : (i : ℕ) → done size offset i ≤ size
  done_le i = ground arith

  pub part_start :
      (i : ℕ)
      → i < pages_in size offset
      → (offset / page_size + i) * page_size + (part (span size offset) i).0
        ≡ offset + done size offset i
  unfolding part span
  part_start i h = ground arith

  pub part_length :
      (i : ℕ)
      → i < pages_in size offset
      → done size offset (i + 1) ≡ done size offset i + (part (span size offset) i).1
  unfolding part span
  part_length i h = ground arith

  pub part_fits :
      (i : ℕ)
      → i < pages_in size offset
      → (part (span size offset) i).0 + (part (span size offset) i).1 ≤ page_size
  unfolding part span
  part_fits i h = ground arith
