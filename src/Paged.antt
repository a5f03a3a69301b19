-- ===== src/Paged.antt =====
-- The first prototype: JuliaRehaanExample/pageCache.c, and xmp_init, xmp_read and xmp_write of
-- JuliaRehaanExample/fusexmp_fh.c, which call it. A pointer is a number, the null pointer 0; the
-- nodes and the buffers of pages each have their own. A path is a number too, and strcmp returns 0
-- for equal ones. Each function that calls cacheLoop takes fuel for its loop, which may not end.
pub mod Nodes
pub mod Search
pub mod Coherent
pub mod Fetch
pub mod Parts
pub mod Plain
pub mod Stuck
pub mod Write
pub mod Spliced
pub mod Splice
pub mod Shares
pub mod Store
pub mod Back
pub mod Ends
pub mod Empty
use cycology.Base.{
  ℕ, zero, suc, ◌+◌, ◌-◌, ◌*◌, ◌/◌, ◌%◌, ◌^◌, Bool, Option, none, some, not, ◌&&◌, ◌||◌, ltb, leb,
  ◌==◌, if◌then◌else◌, ◌>>=◌, add32, mul32, div32, neg32, slt, is_neg, minus_one, word_mod, store,
}

abbrev pub page_size : ℕ
page_size = 1023

-- The list of nodes with the memory. `malloc` does not fail and hands out `fresh` as the next node and
-- the next buffer.
pub record LogSysCon : Type 0 where
  pub head : ℕ
  pub next : ℕ → ℕ
  pub prev : ℕ → ℕ
  pub path : ℕ → ℕ
  pub page_num : ℕ → ℕ
  pub page : ℕ → ℕ
  pub buffers : ℕ → ℕ → ℕ
  pub fresh : ℕ

-- the file behind a handle
pub record File : Type 0 where
  pub st_size : ℕ
  pub bytes : ℕ → ℕ

-- what the system's calls do: whether fstat succeeds, and how many bytes `pread` and `pwrite` of a
-- length at a position transfer
pub record Host : Type 0 where
  pub stat_ok : Bool
  pub errno : ℕ
  pub bytes_read : File → ℕ → ℕ → ℕ
  pub bytes_written : ℕ → ℕ → ℕ

unfoldable pub pread : Host → File → (ℕ → ℕ) → ℕ → ℕ → ℕ → ℕ
pread host file buffer n at i =
    if ltb i (host.bytes_read file n at) then file.bytes (at + i) else buffer i

-- bytes between the end of the file and the position become 0
unfoldable pub pwrite : Host → File → (ℕ → ℕ) → ℕ → ℕ → File
pwrite host file buffer n at =
    let written = host.bytes_written n at in
    if written == 0 then file else record {
      st_size = if ltb file.st_size (at + written) then at + written else file.st_size;
      bytes = λ j.
          if leb at j && ltb j (at + written)
          then buffer (j - at)
          else if leb file.st_size j
          then 0
          else file.bytes j;
    }

unfoldable pub memcpy : (ℕ → ℕ) → ℕ → (ℕ → ℕ) → ℕ → ℕ → ℕ → ℕ
memcpy dest at src from n j = if leb at j && ltb j (at + n) then src (from + (j - at)) else dest j

-- a word as a number of 64 bits
unfoldable pub to_size : ℕ → ℕ
to_size w = if is_neg w then w + (2 ^ 64 - word_mod) else w

unfoldable pub xmp_init : LogSysCon → LogSysCon
xmp_init memory = record memory { head = 0 }

unfoldable pub new_node : LogSysCon → ℕ → ℕ → ℕ → LogSysCon
new_node c path page_num page =
    let filled_node = c.fresh in
    record c {
      path = store c.path filled_node path;
      page_num = store c.page_num filled_node page_num;
      page = store c.page filled_node page;
      fresh = filled_node + 1;
    }

-- the search of cacheLoop: a node, or 0 behind the last one
unfoldable pub find : ℕ → LogSysCon → ℕ → ℕ → ℕ → Option ℕ
find zero c path page_num finger = none
find (suc fuel) c path page_num finger =
    let rest = find fuel c path page_num (c.next finger) in
    if finger == 0
    then some 0
    else if (path == c.path finger) && (page_num == c.page_num finger)
    then some finger
    else rest

unfoldable pub move_to_head : LogSysCon → ℕ → LogSysCon
move_to_head c finger =
    let current_head = c.head in
    let next =
      if c.prev finger == 0 then c.next else store c.next (c.prev finger) (c.next finger) in
    let prev = if next finger == 0 then c.prev else store c.prev (next finger) (c.prev finger) in
    let prev = if current_head == 0 then prev else store prev current_head finger in
    record c { head = finger; next = store next finger current_head; prev = store prev finger 0 }

-- the buffer for a page that is not in the list
unfoldable pub read_page : Host → File → (ℕ → ℕ) → ℕ → ℕ → ℕ → ℕ
read_page host file buffer page_num file_size_in_pages =
    if not (slt page_num file_size_in_pages)
    then (λ _. 0)
    else if page_num == file_size_in_pages
    then (λ _. 0)
    else pread host file buffer page_size (to_size (mul32 page_num page_size))

unfoldable pub add_page : Host → File → LogSysCon → ℕ → ℕ → ℕ → LogSysCon
add_page host file c path page_num file_size_in_pages =
    let buffer = c.fresh in
    let new_head = c.fresh in
    let contents = read_page host file (c.buffers buffer) page_num file_size_in_pages in
    let c' =
      new_node (record c { buffers = store c.buffers buffer contents }) path page_num buffer in
    record c' {
      head = new_head;
      next = store c'.next new_head c.head;
      prev = store (if c.head == 0 then c'.prev else store c'.prev c.head new_head) new_head 0;
    }

-- the buffer that the code returns, and the list; `none`: the loop has not ended
unfoldable pub cache_loop : Host → ℕ → File → LogSysCon → ℕ → ℕ → ℕ → Option (ℕ × LogSysCon)
cache_loop host fuel file c path page_num file_size_in_pages =
    find fuel c path page_num c.head >>= λ finger.
    if finger == 0
    then some (c.fresh, add_page host file c path page_num file_size_in_pages)
    else some (c.page finger, move_to_head c finger)

pub record Read : Type 0 where
  pub res : ℕ
  pub buf : ℕ → ℕ
  pub con : LogSysCon

-- what xmp_read computes before its loop; the two lengths are numbers of 64 bits
pub record Span : Type 0 where
  pub size : ℕ
  pub start_deviation : ℕ
  pub end_deviation : ℕ
  pub num_pages : ℕ
  pub start_page : ℕ

unfoldable pub span : ℕ → ℕ → Span
span size offset = record {
  size = size;
  start_deviation = offset % page_size;
  end_deviation = (size + offset) % 2 ^ 64 % page_size;
  num_pages =
      (offset % page_size + page_size + size + (2 ^ 64 - 1)) % 2 ^ 64 / page_size % word_mod;
  start_page = offset / page_size % word_mod;
}

-- the first byte of page `i` that is read, and how many are
unfoldable pub part : Span → ℕ → ℕ × ℕ
part s i =
    if s.num_pages == 1
    then (s.start_deviation, s.size % word_mod)
    else if i == 0
    then (s.start_deviation, page_size - s.start_deviation)
    else if (add32 i 1 == s.num_pages) && not (s.end_deviation == 0)
    then (0, s.end_deviation)
    else (0, page_size)

-- the first number is how many turns are left, the others the fuel, `i` and how far `buf` has moved
unfoldable pub read_loop : Host → File → ℕ → Span → ℕ → ℕ → ℕ → ℕ → ℕ → Read → Option Read
read_loop host file path s file_size_in_pages zero fuel i moved r = some r
read_loop host file path s file_size_in_pages (suc left) fuel i moved r =
    let (start_within_page, to_read) = part s i in
    cache_loop host fuel file r.con path (add32 s.start_page i) file_size_in_pages
    >>= λ (buf_read, con).
        read_loop host file path s file_size_in_pages left fuel (i + 1) (moved + to_read) (record {
          res = add32 r.res to_read;
          buf = memcpy r.buf moved (con.buffers buf_read) start_within_page to_read;
          con = con;
        })

-- how often a loop runs whose counter goes from 0 up to an `int`
unfoldable pub turns : ℕ → ℕ
turns n = if is_neg n then 0 else n

unfoldable pub size_in_pages : ℕ → ℕ
size_in_pages file_size = div32 (add32 (add32 file_size page_size) minus_one) page_size

-- `offset` is not negative and `size` below 2 ^ 64.
unfoldable pub xmp_read : Host → ℕ → File → LogSysCon → ℕ → (ℕ → ℕ) → ℕ → ℕ → Option Read
xmp_read host fuel file c path buf size offset =
    let file_size = file.st_size % word_mod in
    let size =
      if ltb (to_size file_size) ((offset + size) % 2 ^ 64)
      then (to_size file_size + 2 ^ 64 - offset) % 2 ^ 64
      else size in
    let s = span size offset in
    let read =
      read_loop host file path s (size_in_pages file_size) (turns s.num_pages) fuel 0 0
        (record { res = 0; buf = buf; con = c }) in
    if not host.stat_ok
    then some (record { res = neg32 host.errno; buf = buf; con = c })
    else if is_neg file_size || ltb file_size offset
    then some (record { res = 0; buf = buf; con = c })
    else read >>= λ r. some (if r.res == minus_one then record r { res = neg32 host.errno } else r)
