-- ===== src/Handlers/Buffer.antt =====
-- prepBuffer and xmp_write of fuse-3.0.2/example/passthroughBlocked_fh.c. The calls of the host are
-- commented out, with 0 as their result.
use cycology.Base.{
  ℕ, zero, suc, ◌+◌, ◌-◌, ◌/◌, ◌%◌, ◌^◌, Option, none, some, not, ◌&&◌, ◌||◌, ltb, leb, ◌==◌,
  if◌then◌else◌, ◌>>=◌, add32, mul32, neg32, slt, is_neg, minus_one, word_mod,
}
use cycology.Handlers.{to_long}
use cycology.Handlers.Attributes.{unimplemented}

-- The buffer of a page, or `none` for the null pointer. `start` and `end` are at most 1024.
unfoldable pub prep_buffer : (ℕ → ℕ) → ℕ → ℕ → ℕ → ℕ → ℕ → Option (ℕ → ℕ)
prep_buffer buf page_no start end file_size_in_pages file_size =
    let to_read =
      if page_no == add32 file_size_in_pages minus_one
      then add32 file_size (neg32 (mul32 page_no 1024))
      else 1024 in
    let bytes_read : ℕ = 0 in
    if not (slt page_no file_size_in_pages)
    then some (λ i. if ltb i start || not (ltb i end || leb 1024 i) then 0 else buf i)
    else if not (slt 0 start || slt end 1024)
    then some buf
    else if not (bytes_read == to_read)
    then none
    else some (λ i. if ltb i 1024 then 0 else buf i)

-- what xmp_write computes before its loop
pub record Segment : Type 0 where
  pub last_byte : ℕ
  pub start_page : ℕ
  pub num_pages : ℕ
  pub file_size : ℕ
  pub file_size_in_pages : ℕ
  pub final_file_size : ℕ

-- C's `/` by 1024 on an `int`
abbrev whole_pages : ℕ → ℕ
whole_pages n = if is_neg n then neg32 (neg32 n / 1024) else n / 1024

unfoldable pub segment : ℕ → ℕ → ℕ → Segment
segment file_size size offset = record {
  last_byte = (offset + size) % 2 ^ 64;
  start_page = offset / 1024 % word_mod;
  num_pages = (offset % 1024 + size + 1024 + (2 ^ 64 - 1)) % 2 ^ 64 / 1024 % word_mod;
  file_size = file_size;
  file_size_in_pages = whole_pages (add32 file_size 1023);
  final_file_size =
      if ltb (to_long file_size) ((offset + size) % 2 ^ 64)
      then (offset + size) % word_mod
      else file_size;
}

-- `memcpy` of `n` bytes of `buf`, from `moved` on, to the place `start` of a page
abbrev moved_in : (ℕ → ℕ) → ℕ → (ℕ → ℕ) → ℕ → ℕ → ℕ → ℕ
moved_in page start buf moved n i =
    if leb start i && ltb i (start + n) then buf (moved + (i - start)) else page i

-- the loop with the number of turns that are left first, and the bytes that `buf` has moved by; `none`:
-- memcpy to the null pointer, or with a negative length
unfoldable pub write_turns : ℕ → ℕ → Segment → (ℕ → ℕ) → (ℕ → ℕ) → ℕ → ℕ → ℕ → ℕ → Option ℕ
write_turns zero errno s temp_buf buf moved i start res = some res
write_turns (suc left) errno s temp_buf buf moved i start res =
    let page_no = add32 s.start_page i in
    let end = if add32 i 1 == s.num_pages then s.last_byte % 1024 else 1024 in
    let data_to_move = add32 end (neg32 start) in
    let to_write =
      if slt s.final_file_size (mul32 (add32 page_no 1) 1024)
      then add32 s.final_file_size (neg32 (mul32 page_no 1024))
      else 1024 in
    let written : ℕ = 0 in
    prep_buffer temp_buf page_no start end s.file_size_in_pages s.file_size >>= λ buf_ptr.
    let rest =
      write_turns left errno s (moved_in buf_ptr start buf moved data_to_move) buf
        (moved + data_to_move) (i + 1) 0 (add32 res data_to_move) in
    if is_neg data_to_move
    then none
    else if not (written == to_write)
    then some (neg32 errno)
    else rest

-- `temp_buf` and `st_size` are what the array and the field hold, which nothing sets.
unfoldable pub xmp_write : ℕ → ℕ → (ℕ → ℕ) → ℕ → (ℕ → ℕ) → ℕ → ℕ → Option ℕ
xmp_write errno flag temp_buf st_size buf size offset = unimplemented >>= λ bad.
    let s = segment (st_size % word_mod) size offset in
    if flag % 4 == 0
    then some minus_one
    else write_turns (if is_neg s.num_pages then 0 else s.num_pages) errno s temp_buf buf 0 0
        (offset % 1024) 0
