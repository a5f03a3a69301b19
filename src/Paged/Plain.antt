-- ===== src/Paged/Plain.antt =====
-- xmp_read of JuliaRehaanExample/fusexmp_fh.c gives what a plain read of the file gives.
use mathlib.Core.Path.{subst}
use cycology.Base.{
  ℕ, zero, suc, ◌+◌, ◌-◌, ◌*◌, ◌/◌, ◌%◌, ◌^◌, ◌<◌, ◌≤◌, ◌≡◌, ◌≢◌, refl, sym, ap, ◌∙◌, inl, inr,
  Bool, Option, neg32, some, true, false, not, arith, ltb, leb, ◌==◌, if◌then◌else◌, ◌>>=◌, add32,
  is_neg, ne→==, lt→ltb, minus_one, word_mod, lt-cases,
}
use cycology.Paged.{
  LogSysCon, File, Host, Read, page_size, memcpy, span, part, read_loop, turns, size_in_pages,
  to_size, xmp_read,
}
use cycology.Paged.Coherent.{Working, IsCopy, Coherent, NotFirst, Fetched-IsCopy, pages_of}
use cycology.Paged.Fetch.{cache_loop-Fetched}
use cycology.Paged.Parts.{
  pages_in, done, num_pages_lem, start_page_lem, done_all, done_le, part_start, part_length,
  part_fits,
}

-- the bytes of the file, in a buffer of which a part is filled
abbrev pub IsPlain : File → ℕ → ℕ → (ℕ → ℕ) → Type 0
IsPlain file offset n buf = (j : ℕ) → j < n → buf j ≡ file.bytes (offset + j)

-- A copy of a part of a page goes behind the bytes that are there.
pub memcpy-IsPlain :
    (file : File) (offset m a len at : ℕ) (buf page : ℕ → ℕ)
    → at + a ≡ offset + m
    → a + len ≤ page_size
    → offset + m + len ≤ file.st_size
    → IsCopy page file at
    → IsPlain file offset m buf
    → IsPlain file offset (m + len) (memcpy buf m page a len)
unfolding memcpy
memcpy-IsPlain file offset m a len at buf page start fits inside copy plain j h =
    elim (lt-cases j m) [
      | inl below ↦ let before : leb m j ≡ false = ground arith in rw before (plain j below)
      | inr above ↦
          let k = a + (j - m) in
          let e : at + k ≡ offset + j = omega arith in
          let behind : leb m j ≡ true = ground arith in
          rw (behind, lt→ltb j (m + len) h) (copy k (omega arith) (omega arith) ∙ ap file.bytes e)
    ]

-- what a read gives, and the list after it
pub record IsRead (file : File) (path offset n : ℕ) (r : Read) : Type 0 where
  pub res : r.res ≡ n
  pub plain : IsPlain file offset n r.buf
  pub coherent : Coherent r.con file path

module _ (host : Host) (file : File) (path size offset fuel : ℕ) (w : Working host)
    (inside : offset + size ≤ file.st_size) (small : file.st_size + page_size < 2 ^ 31) where
  -- one turn
  turn :
      (i left : ℕ) (r : Read)
      → i < pages_in size offset
      → IsRead file path offset (done size offset i) r
      → NotFirst r.con path (offset / page_size + i)
      → r.con.fresh ≤ fuel
      → (r' : Read) × (read_loop host file path
            (span size offset)
            (pages_of file)
            (suc left)
            fuel
            i
            (done size offset i)
            r
          ≡ read_loop host file path
              (span size offset)
              (pages_of file)
              left
              fuel
              (i + 1)
              (done size offset (i + 1))
              r')
        × IsRead file path offset (done size offset (i + 1)) r'
        × NotFirst r'.con path (offset / page_size + (i + 1))
        × (r'.con.fresh ≤ suc r.con.fresh)
  unfolding read_loop
  turn i left r h v first enough =
      let bound : offset + size + page_size < 2 ^ 31 = omega arith in
      let s = span size offset in
      let page_num = offset / page_size + i in
      let a = (part s i).0 in
      let len = (part s i).1 in
      let m = done size offset i in
      let (buffer, con, e, f) =
        cache_loop-Fetched host r.con file path page_num (pages_of file) fuel w (omega arith)
          (λ h'. omega arith) (omega arith) v.coherent first enough in
      let named : add32 s.start_page i ≡ page_num =
        ap (λ x. add32 x i) (start_page_lem size offset bound) ∙ omega arith in
      let next : done size offset (i + 1) ≡ m + len = part_length size offset bound i h in
      let top : m + len ≤ size = subst (λ k. k ≤ size) next (done_le size offset bound (i + 1)) in
      let copy : IsCopy (con.buffers buffer) file (page_num * page_size) =
        Fetched-IsCopy r.con con file path page_num buffer f in
      (
        record {
          res = add32 r.res len;
          buf = memcpy r.buf m (con.buffers buffer) a len;
          con = con;
        },
        rw (named, e, next) refl,
        record {
          res = ap (λ x. add32 x len) v.res ∙ omega arith ∙ sym next;
          plain = rw next (
              memcpy-IsPlain file offset m a len (page_num * page_size) r.buf (con.buffers buffer)
                (part_start size offset bound i h) (part_fits size offset bound i h) (omega arith)
                copy v.plain);
          coherent = f.coherent;
        },
        (λ _ _ q. omega (arith, q, f.head_page)),
        f.grown,
      )

  loop :
      (left i : ℕ) (r : Read)
      → i + left ≡ pages_in size offset
      → IsRead file path offset (done size offset i) r
      → NotFirst r.con path (offset / page_size + i)
      → r.con.fresh + left ≤ fuel
      → (r' : Read) × (read_loop host file path
            (span size offset)
            (pages_of file)
            left
            fuel
            i
            (done size offset i)
            r
          ≡ some r')
        × IsRead file path offset size r'
  unfolding read_loop
  loop zero i r e v first enough =
      let last : i ≡ pages_in size offset = omega (arith, e) in
      let all : done size offset i ≡ size =
        ap (done size offset) last ∙ done_all size offset (omega arith) in
      (r, refl, subst (λ n. IsRead file path offset n r) all v)
  loop (suc left) i r e v first enough =
      let (r', step, v', first', grown) = turn i left r (omega (arith, e)) v first (omega arith) in
      let (r'', run, v'') = loop left (i + 1) r' (omega (arith, e)) v' first' (omega arith) in
      (r'', step ∙ run, v'')

-- how many bytes a plain read gets
abbrev pub plain_count : File → ℕ → ℕ → ℕ
plain_count file size offset =
    if ltb (file.st_size - offset) size then file.st_size - offset else size

-- what xmp_read makes of the result of its loop
abbrev pub checked : ℕ → Read → Option Read
checked errno r = some (if r.res == minus_one then record r { res = neg32 errno } else r)

chosen :
    (ok : Bool) (errno : ℕ) (failed read result : Option Read)
    → ok ≡ true
    → read ≡ result
    → (if not ok then failed else (read >>= checked errno)) ≡ (result >>= checked errno)
chosen ok errno failed read result e run = rw (e, run) refl

module _ (host : Host) (file : File) (c : LogSysCon) (path : ℕ) (buf : ℕ → ℕ) (size offset fuel : ℕ)
    (w : Working host) (small : file.st_size + page_size < 2 ^ 31) where
  whole_size : file.st_size % word_mod ≡ file.st_size
  whole_size = omega arith

  size_in_pages_lem : size_in_pages file.st_size ≡ pages_of file
  unfolding size_in_pages
  size_in_pages_lem = ground arith

  cut_off :
      offset + size < 2 ^ 64
      → offset ≤ file.st_size
      → (if ltb (to_size file.st_size) ((offset + size) % 2 ^ 64)
          then (to_size file.st_size + 2 ^ 64 - offset) % 2 ^ 64
          else size)
        ≡ plain_count file size offset
  unfolding to_size
  cut_off wide within = ground arith

  -- Within the file xmp_read is its loop for the bytes that the file has.
  pub xmp_read_within :
      offset + size < 2 ^ 64
      → offset ≤ file.st_size
      → (result : Option Read)
      → (let s = span (plain_count file size offset) offset in
          read_loop host file path s
            (pages_of file)
            (turns s.num_pages)
            fuel
            0
            0
            (record { res = 0; buf = buf; con = c }))
        ≡ result
      → xmp_read host fuel file c path buf size offset ≡ (result >>= checked host.errno)
  unfolding xmp_read
  xmp_read_within wide within result e =
      let forwards : is_neg file.st_size ≡ false = ground arith in
      let started : ltb file.st_size offset ≡ false = ground arith in
      rw (whole_size, forwards, started, cut_off wide within, size_in_pages_lem)
        (chosen host.stat_ok host.errno _ _ result w.stat e)

module _ (host : Host) (file : File) (c : LogSysCon) (path : ℕ) (buf : ℕ → ℕ) (size offset fuel : ℕ)
    (w : Working host) (small : file.st_size + page_size < 2 ^ 31) (v : Coherent c file path)
    (first : NotFirst c path (offset / page_size)) where
  -- what xmp_read does once it has cut off what lies behind the end of the file
  inner :
      (n : ℕ)
      → offset + n ≤ file.st_size
      → c.fresh + (n + 1) ≤ fuel
      → (r : Read) × (read_loop host file path
            (span n offset)
            (pages_of file)
            (turns (span n offset).num_pages)
            fuel
            0
            0
            (record { res = 0; buf = buf; con = c })
          ≡ some r)
        × IsRead file path offset n r
  unfolding turns
  inner n inside enough =
      let counted : turns (span n offset).num_pages ≡ pages_in n offset =
        ap turns (num_pages_lem n offset (omega arith)) ∙ ground arith in
      let (r, run, v') =
        loop host file path n offset fuel w inside small (pages_in n offset) 0
          (record { res = 0; buf = buf; con = c }) (omega arith)
          (record { res = refl; plain = λ j h. absurd (omega arith); coherent = v })
          (λ nz p q. first nz p (omega (arith, q))) (omega arith) in
      (
        r,
        ap
              (λ (t : ℕ).
                read_loop host file path (span n offset) (pages_of file) t fuel 0 0
                  (record { res = 0; buf = buf; con = c }))
              counted
            ∙ run,
        v',
      )

  pub xmp_read-IsRead :
      offset + size < 2 ^ 64
      → c.fresh + (size + 1) ≤ fuel
      → (r : Read) × (xmp_read host fuel file c path buf size offset ≡ some r)
        × IsRead file path offset (plain_count file size offset) r
  unfolding xmp_read
  xmp_read-IsRead wide enough = elim (lt-cases file.st_size offset) [
    | inl beyond ↦
        let forwards : is_neg file.st_size ≡ false = ground arith in
        let none_left : plain_count file size offset ≡ 0 = ground arith in
        (
          record { res = 0; buf = buf; con = c },
          rw
              (
                w.stat,
                whole_size host file c path buf size offset fuel w small,
                forwards,
                lt→ltb file.st_size offset beyond,
              )
              refl,
          rw none_left (record { res = refl; plain = λ j h. absurd (omega arith); coherent = v }),
        )
    | inr within ↦
        let n = plain_count file size offset in
        let (r, run, v') = inner n (ground arith) (ground arith) in
        let bounded : n ≤ file.st_size = ground arith in
        let good : r.res ≢ minus_one = λ e. omega (arith, e, v'.res) in
        (
          r,
          xmp_read_within host file c path buf size offset fuel w small wide within (some r) run
              ∙ rw (ne→== r.res minus_one good) refl,
          v',
        )
  ]
