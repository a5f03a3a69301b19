-- ===== src/Paged/Stuck.antt =====
-- cacheLoop of JuliaRehaanExample/pageCache.c on a list whose first node is for the page: what
-- xmp_read of JuliaRehaanExample/fusexmp_fh.c does then, and after it.
use mathlib.Core.Path.{subst}
use cycology.Base.{
  ℕ, zero, suc, ◌+◌, ◌-◌, ◌*◌, ◌/◌, ◌%◌, ◌^◌, ◌<◌, ◌≤◌, ◌≡◌, ◌≢◌, refl, sym, ap, ◌∙◌, inl, inr,
  none, some, add32, minus_one, arith, ne→==, eq→==, eq-cases, List, [], ◌∷◌, AllNe,
}
use cycology.Paged.{
  LogSysCon, File, Host, Read, page_size, find, move_to_head, cache_loop, span, part, read_loop,
  turns, memcpy, xmp_read,
}
use cycology.Dll.Chained.{Chained}
use cycology.Paged.Coherent.{bounded, Working, Coherent, pages_of}
use cycology.Paged.Plain.{IsPlain, plain_count, xmp_read_within, memcpy-IsPlain}
use cycology.Paged.Parts.{pages_in, num_pages_lem, start_page_lem}

-- The first node leads to itself.
abbrev pub IsLoop : LogSysCon → Type 0
IsLoop c = (c.head ≢ 0) × (c.next c.head ≡ c.head)

-- No search for another page ends then.
find_loop :
    (c : LogSysCon) (path page_num x fuel : ℕ)
    → x ≢ 0
    → c.next x ≡ x
    → (path ≡ c.path x → page_num ≢ c.page_num x)
    → find fuel c path page_num x ≡ none
unfolding find
find_loop c path page_num x zero nz loop ne = refl
find_loop c path page_num x (suc fuel) nz loop ne =
    rw (loop, ne→== x 0 nz)
      (elim (eq-cases path (c.path x)) [
        | inl p ↦
            rw (eq→== path (c.path x) p, ne→== page_num (c.page_num x) (ne p))
              (find_loop c path page_num x fuel nz loop ne)
        | inr np ↦ rw (ne→== path (c.path x) np) (find_loop c path page_num x fuel nz loop ne)
      ])

module _ (host : Host) (file : File) (c : LogSysCon) (path : ℕ) (buf : ℕ → ℕ) (size offset fuel : ℕ)
    (w : Working host) (small : file.st_size + page_size < 2 ^ 31)
    (inside : offset + size ≤ file.st_size) (some_bytes : 0 < size) where
  count_lem : plain_count file size offset ≡ size
  count_lem = ground arith

  -- The loop runs at least once.
  turns-suc :
      turns (span (plain_count file size offset) offset).num_pages ≡ suc (pages_in size offset - 1)
  unfolding turns
  turns-suc =
      ap (λ n. turns (span n offset).num_pages) count_lem
      ∙ ap turns (num_pages_lem size offset (omega arith))
      ∙ ground arith

  first_page : add32 (span (plain_count file size offset) offset).start_page 0 ≡ offset / page_size
  first_page =
      ap (λ n. add32 (span n offset).start_page 0) count_lem
      ∙ ap (λ n. add32 n 0) (start_page_lem size offset (omega arith))
      ∙ omega arith

  -- A read that starts at another page than the first node's does not end.
  pub read_forever :
      IsLoop c
      → (path ≡ c.path c.head → offset / page_size ≢ c.page_num c.head)
      → xmp_read host fuel file c path buf size offset ≡ none
  unfolding read_loop cache_loop
  read_forever (nz, loop) ne =
      xmp_read_within host file c path buf size offset fuel w small (omega arith) (omega arith) none
        (rw (turns-suc, first_page, find_loop c path (offset / page_size) c.head fuel nz loop ne)
          refl)

-- The first node is one of the nodes.
head_there :
    (next prev : ℕ → ℕ) (before start : ℕ) (xs : List ℕ) (tail : ℕ)
    → start ≢ 0
    → Chained next prev before start xs tail 0
    → ¬ AllNe start xs
head_there next prev before start [] tail nz c ne = nz c.0
head_there next prev before start (x ∷ xs) tail nz c ne = ne.0 (sym c.0)

find_first :
    (c : LogSysCon) (path page_num fuel : ℕ)
    → c.head ≢ 0
    → path ≡ c.path c.head
    → page_num ≡ c.page_num c.head
    → find (suc fuel) c path page_num c.head ≡ some c.head
unfolding find
find_first c path page_num fuel nz p q =
    rw (ne→== c.head 0 nz, eq→== path (c.path c.head) p, eq→== page_num (c.page_num c.head) q) refl

-- A search that stops at the first node makes it lead to itself.
move_first-IsLoop : (c : LogSysCon) → c.head ≢ 0 → IsLoop (move_to_head c c.head)
unfolding move_to_head
move_first-IsLoop c nz = (nz, ground arith)

-- the bytes in the buffer and the list, after a read in the page of the first node
module _ (host : Host) (file : File) (c : LogSysCon) (path : ℕ) (buf : ℕ → ℕ) (size offset fuel : ℕ)
    (w : Working host) (small : file.st_size + page_size < 2 ^ 31)
    (inside : offset + size ≤ file.st_size) (some_bytes : 0 < size)
    (one_page : offset % page_size + size ≤ page_size) (v : Coherent c file path) (nz : c.head ≢ 0)
    (p : path ≡ c.path c.head) (q : offset / page_size ≡ c.page_num c.head) where
  in_list : c.head < c.fresh
  in_list =
      bounded c file path v c.head
        (head_there c.next c.prev 0 c.head v.nodes v.tail nz v.linked.chained)

  one_part : part (span (plain_count file size offset) offset) 0 ≡ (offset % page_size, size)
  unfolding part span
  one_part = ground arith

  abbrev again : Read
  again = record {
    res = size;
    buf = memcpy buf 0 (c.buffers c.head) (offset % page_size) size;
    con = move_to_head c c.head;
  }

  one_turn : turns (span (plain_count file size offset) offset).num_pages ≡ 1
  one_turn =
      turns-suc host file c path buf size offset fuel w small inside some_bytes
      ∙ ap suc (omega arith)

  again_loop :
      (let s = span (plain_count file size offset) offset in
        read_loop host file path s
          (pages_of file)
          (turns s.num_pages)
          (suc fuel)
          0
          0
          (record { res = 0; buf = buf; con = c }))
      ≡ some again
  unfolding read_loop cache_loop move_to_head
  again_loop =
      let sum : add32 0 size ≡ size = omega arith in
      rw
        (
          one_turn,
          first_page host file c path buf size offset fuel w small inside some_bytes,
          find_first c path (offset / page_size) fuel nz p q,
          ne→== c.head 0 nz,
          one_part,
          v.own c.head in_list nz,
          sum,
        )
        refl

  again-IsPlain : IsPlain file offset size again.buf
  again-IsPlain =
      subst (λ n. IsPlain file offset n again.buf) (omega arith)
        (memcpy-IsPlain file offset 0 (offset % page_size) size (offset / page_size * page_size) buf
          (c.buffers c.head) (omega arith) one_page (omega arith)
          (rw q (v.agrees c.head in_list nz p)) (λ j h. absurd (omega arith)))

  -- A read within the page of the first node gives the bytes of the file; but no later read that starts
  -- in another page ends.
  pub xmp_read_stuck :
      (path' : ℕ) (buf' : ℕ → ℕ) (size' offset' fuel' : ℕ)
      → 0 < size'
      → offset' + size' ≤ file.st_size
      → (path' ≡ path → offset' / page_size ≢ offset / page_size)
      → (r : Read) × (xmp_read host (suc fuel) file c path buf size offset ≡ some r)
        × (r.res ≡ size)
        × IsPlain file offset size r.buf
        × (xmp_read host fuel' file r.con path' buf' size' offset' ≡ none)
  unfolding move_to_head
  xmp_read_stuck path' buf' size' offset' fuel' h h' ne = (
    again,
    xmp_read_within host file c path buf size offset (suc fuel) w small (omega arith) (omega arith)
          (some again) again_loop
        ∙ rw (ne→== size minus_one (omega arith)) refl,
    refl,
    again-IsPlain,
    read_forever host file again.con path' buf' size' offset' fuel' w small h' h
        (move_first-IsLoop c nz) (λ p' q'. ne (p' ∙ sym p) (q' ∙ sym q)),
  )
