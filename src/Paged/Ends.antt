-- ===== src/Paged/Ends.antt =====
-- xmp_write of JuliaRehaanExample/fusexmp_fh.c for data that ends where a page ends.
use cycology.Base.{
  ℕ, ◌+◌, ◌-◌, ◌*◌, ◌%◌, ◌^◌, ◌<◌, ◌≤◌, ◌≡◌, refl, ap, ◌∙◌, inl, inr, some, arith, add32, mul32,
  neg32, inside-cases, word_mod,
}
use cycology.Paged.{
  LogSysCon, File, Host, page_size, memcpy, to_size, turns, size_in_pages, cache_loop,
}
use cycology.Paged.Coherent.{Working, IsCopy, Coherent, NotFirst, Fetched-IsCopy, pages_of}
use cycology.Paged.Fetch.{cache_loop-Fetched}
use cycology.Paged.Write.{
  Written, Target, target, end_within_page, to_write, move_and_write, write_loop, xmp_write,
}
use cycology.Paged.Shares.{turn_run, written_ok}
use cycology.Paged.Splice.{pwrite_inside, pwrite_outside}

-- The bytes that the file had are those it has.
pub record IsUnwritten (file : File) (w : Written) : Type 0 where
  pub res : w.res ≡ 0
  pub kept : (j : ℕ) → j < file.st_size → w.file.bytes j ≡ file.bytes j

module _ (host : Host) (file : File) (path : ℕ) (buf : ℕ → ℕ) (page_num fuel : ℕ)
    (works : Working host) (small : page_num * page_size + page_size * 2 < 2 ^ 31)
    (small' : file.st_size + page_size < 2 ^ 31)
    (within : page_num * page_size ≤ file.st_size) where
  abbrev t : Target
  t = target file.st_size buf page_size (page_num * page_size)

  fields :
      (t.num_pages ≡ 1)
      × (t.start_page ≡ page_num)
      × (t.file_size_in_pages ≡ pages_of file)
      × (end_within_page t 0 ≡ 0)
      × (to_size (to_write t page_num) ≡ page_size)
      × (to_size (mul32 page_num page_size) ≡ page_num * page_size)
  unfolding target end_within_page to_write to_size size_in_pages
  fields = (ground arith, ground arith, ground arith, ground arith, ground arith, ground arith)

  -- The page that is written is the one that was read.
  nothing_moved : (page : ℕ → ℕ) (i : ℕ) → memcpy page 0 buf 0 0 i ≡ page i
  unfolding memcpy
  nothing_moved page i = ground arith

  page_kept :
      (w : Written) (con : LogSysCon) (buffer : ℕ)
      → IsCopy (con.buffers buffer) file (page_num * page_size)
      → w.file ≡ file
      → (j : ℕ) → j < file.st_size
      → (move_and_write host w con buffer buf 0 0 0 page_size (page_num * page_size)).file.bytes j
        ≡ file.bytes j
  unfolding move_and_write
  page_kept w con buffer copy e j h =
      let at = page_num * page_size in
      let page = memcpy (con.buffers buffer) 0 buf 0 0 in
      rw e (elim (inside-cases at (at + page_size) j) [
        | inl (low, high) ↦
            let place : at + (j - at) ≡ j = omega arith in
            pwrite_inside host file page page_size at (works.writes page_size at) within j low high
            ∙ nothing_moved (con.buffers buffer) (j - at)
            ∙ copy (j - at) (omega arith) (omega arith)
            ∙ ap file.bytes place
        | inr out ↦
            pwrite_outside host file page page_size at (works.writes page_size at) within j out h
      ])

  -- A write of a whole page returns 0, and the bytes that the file had are those it has.
  pub xmp_write_page_end :
      (c : LogSysCon)
      → Coherent c file path
      → NotFirst c path page_num
      → c.fresh ≤ fuel
      → (w : Written) × (xmp_write host fuel file c path buf page_size (page_num * page_size)
          ≡ some w)
        × IsUnwritten file w
  unfolding xmp_write write_loop turns target move_and_write
  xmp_write_page_end c v first enough =
      let (pages, start_page, counted, ends, shares, place) = fields in
      let start : Written = record { res = 0; file = file; con = c } in
      let (buffer, con, e, f) =
        cache_loop-Fetched host c file path page_num (pages_of file) fuel works (omega arith)
          (λ h. omega arith) (omega arith) v first enough in
      let copy : IsCopy (con.buffers buffer) file (page_num * page_size) =
        Fetched-IsCopy c con file path page_num buffer f in
      let whole : file.st_size % word_mod ≡ file.st_size = omega arith in
      let aligned : page_num * page_size % page_size ≡ 0 = omega arith in
      let once : turns t.num_pages ≡ 1 = ap turns pages in
      let w = move_and_write host start con buffer buf 0 0 0 page_size (page_num * page_size) in
      (
        w,
        rw whole (
            written_ok host.stat_ok _ _ (some w) works.stat (
              ap
                (λ (k : ℕ).
                  write_loop host path t k fuel 0 (page_num * page_size % page_size) 0 start)
                once
              ∙ turn_run host path t start 0 fuel 0 _ 0 page_num 0 0 page_size
                  (page_num * page_size) buffer con (ap (add32 0) start_page ∙ omega arith) aligned
                  (ap (λ k. add32 k (neg32 0)) ends)
                  (ap (cache_loop host fuel file c path page_num) counted ∙ e) place shares refl
                  (works.writes page_size (page_num * page_size)))),
        record { res = refl; kept = page_kept start con buffer copy refl },
      )
