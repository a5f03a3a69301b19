-- ===== src/Paged/Write.antt =====
-- xmp_write of JuliaRehaanExample/fusexmp_fh.c.
use cycology.Base.{
  ℕ, zero, suc, ◌+◌, ◌-◌, ◌/◌, ◌%◌, ◌^◌, Option, none, some, not, ltb, ◌==◌, if◌then◌else◌, ◌>>=◌,
  add32, mul32, neg32, slt, is_neg, word_mod, store,
}
use cycology.Paged.{
  LogSysCon, File, Host, page_size, memcpy, pwrite, to_size, turns, size_in_pages, cache_loop,
}

pub record Written : Type 0 where
  pub res : ℕ
  pub file : File
  pub con : LogSysCon

-- what xmp_write computes before its loop
pub record Target : Type 0 where
  pub buf : ℕ → ℕ
  pub last_byte : ℕ
  pub final_file_size : ℕ
  pub num_pages : ℕ
  pub start_page : ℕ
  pub file_size_in_pages : ℕ

unfoldable pub target : ℕ → (ℕ → ℕ) → ℕ → ℕ → Target
target file_size buf size offset = record {
  buf = buf;
  last_byte = (offset + size) % 2 ^ 64;
  final_file_size =
      if ltb (to_size file_size) ((offset + size) % 2 ^ 64)
      then (offset + size) % word_mod
      else file_size;
  num_pages =
      (offset % page_size + size + page_size + (2 ^ 64 - 1)) % 2 ^ 64 / page_size % word_mod;
  start_page = offset / page_size % word_mod;
  file_size_in_pages = size_in_pages file_size;
}

unfoldable pub end_within_page : Target → ℕ → ℕ
end_within_page t relative_page_num =
    if add32 relative_page_num 1 == t.num_pages then t.last_byte % page_size else page_size

unfoldable pub to_write : Target → ℕ → ℕ
to_write t page_num =
    if slt t.final_file_size (mul32 (add32 page_num 1) page_size)
    then add32 t.final_file_size (neg32 (mul32 page_num page_size))
    else page_size

-- the buffer of a page after data has moved into it, and the file after it is written
unfoldable pub move_and_write :
    Host → Written → LogSysCon → ℕ → (ℕ → ℕ) → ℕ → ℕ → ℕ → ℕ → ℕ → Written
move_and_write host w con buf_ptr buf moved start_within_page data_to_move n at =
    let page = memcpy (con.buffers buf_ptr) start_within_page buf moved data_to_move in
    record {
      res = add32 w.res data_to_move;
      file = pwrite host w.file page n at;
      con = record con { buffers = store con.buffers buf_ptr page };
    }

-- the first number is how many turns are left, the others the fuel, `relativePageNum`,
-- `startWithinPage` and how far `buf` has moved; `none` besides: memcpy with a negative length
unfoldable pub write_loop : Host → ℕ → Target → ℕ → ℕ → ℕ → ℕ → ℕ → Written → Option Written
write_loop host path t zero fuel relative_page_num start_within_page moved w = some w
write_loop host path t (suc left) fuel relative_page_num start_within_page moved w =
    let page_num = add32 relative_page_num t.start_page in
    let data_to_move = add32 (end_within_page t relative_page_num) (neg32 start_within_page) in
    let n = to_size (to_write t page_num) in
    let at = to_size (mul32 page_num page_size) in
    cache_loop host fuel w.file w.con path page_num t.file_size_in_pages >>= λ (buf_ptr, con).
    if is_neg data_to_move
    then none
    else (let w' =
          move_and_write host w con buf_ptr t.buf moved start_within_page data_to_move n at in
        let rest =
          write_loop host path t left fuel (relative_page_num + 1) 0 (moved + data_to_move) w' in
        if host.bytes_written n at == n then rest else some (record w' { res = neg32 host.errno }))

-- `offset` is not negative and `size` below 2 ^ 64.
unfoldable pub xmp_write : Host → ℕ → File → LogSysCon → ℕ → (ℕ → ℕ) → ℕ → ℕ → Option Written
xmp_write host fuel file c path buf size offset =
    let t = target (file.st_size % word_mod) buf size offset in
    if not host.stat_ok
    then some (record { res = neg32 host.errno; file = file; con = c })
    else write_loop host path t (turns t.num_pages) fuel 0 (offset % page_size) 0
        (record { res = 0; file = file; con = c })
