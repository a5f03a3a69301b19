-- ===== src/Paged/Store.antt =====
-- xmp_write of JuliaRehaanExample/fusexmp_fh.c for data that ends within a page.
use mathlib.Core.Path.{subst}
use cycology.Base.{
  ℕ, zero, suc, ◌+◌, ◌*◌, ◌/◌, ◌%◌, ◌^◌, ◌<◌, ◌≤◌, ◌≡◌, ◌≢◌, ◌⊎◌, refl, sym, ap, ◌∙◌, inl, inr,
  some, arith, ◌==◌, false, if◌then◌else◌, add32, mul32, neg32, is_neg, word_mod,
}
use cycology.Paged.{LogSysCon, File, Host, page_size, to_size, span, part, turns, cache_loop}
use cycology.Paged.Coherent.{Working, Coherent, NotFirst, Fetched, pages_of}
use cycology.Paged.Fetch.{cache_loop-Fetched}
use cycology.Paged.Parts.{pages_in, done, done_all, done_le, part_start, part_length, part_fits}
use cycology.Paged.Write.{Written, target, end_within_page, move_and_write, write_loop, xmp_write}
use cycology.Paged.Shares.{
  share, write_pages_lem, write_start_lem, start_lem, move_lem, page_full, share_lem,
  write_size_lem, counted_lem, share_bounds, turn_run, written_ok,
}
use cycology.Paged.Spliced.{Spliced, Spliced-trans, Spliced-refl}
use cycology.Paged.Splice.{written-Spliced, written-Coherent}

-- what a write has done to the file after `m` of its bytes, and the list then
pub record IsWritten (file : File) (path : ℕ) (buf : ℕ → ℕ) (offset m : ℕ) (w : Written)
    : Type 0 where
  pub res : w.res ≡ m
  pub spliced : Spliced file buf 0 offset m w.file
  pub coherent : Coherent w.con w.file path

module _ (host : Host) (file : File) (path : ℕ) (buf : ℕ → ℕ) (size offset fuel : ℕ)
    (works : Working host) (small : offset + size + page_size < 2 ^ 31)
    (small' : file.st_size + page_size < 2 ^ 31) (within : offset ≤ file.st_size)
    (ends : (offset + size) % page_size ≢ 0) where
  place_lem : (q : ℕ) → q * page_size < 2 ^ 31 → to_size (mul32 q page_size) ≡ q * page_size
  unfolding to_size
  place_lem q h = ground arith

  forwards_lem : (len : ℕ) → len ≤ page_size → is_neg len ≡ false
  forwards_lem len h = ground arith

  -- what a turn makes of the page that cacheLoop has found
  step :
      (i : ℕ) (w : Written) (con : LogSysCon) (buffer : ℕ)
      → i < pages_in size offset
      → IsWritten file path buf offset (done size offset i) w
      → Fetched w.con con w.file path (offset / page_size + i) buffer
      → (let q = offset / page_size + i in
          let (a, len) = part (span size offset) i in
          let n = share buf size offset file.st_size small small' within ends q in
          let w' =
            move_and_write host w con buffer buf (done size offset i) a len n (q * page_size) in
          IsWritten file path buf offset (done size offset (i + 1)) w'
          × NotFirst w'.con path (offset / page_size + (i + 1))
          × (1 < i + 1 → NotFirst w'.con path (offset / page_size))
          × (w'.con.fresh ≤ suc w.con.fresh))
  unfolding move_and_write
  step i w con buffer h v f =
      let s = span size offset in
      let q = offset / page_size + i in
      let a = (part s i).0 in
      let len = (part s i).1 in
      let m = done size offset i in
      let n = share buf size offset file.st_size small small' within ends q in
      let w' = move_and_write host w con buffer buf m a len n (q * page_size) in
      let start = part_start size offset small i h in
      let next : done size offset (i + 1) ≡ m + len = part_length size offset small i h in
      let top : m + len ≤ size = subst (λ k. k ≤ size) next (done_le size offset small (i + 1)) in
      let fits = part_fits size offset small i h in
      let full : (a + len ≡ page_size) ⊎ (m + len ≡ size) =
        elim (page_full buf size offset file.st_size small small' within ends i h) [
          | inl f' ↦ inl f'
          | inr f' ↦ inr (sym next ∙ f')
        ] in
      let (b1, b2, b3, b4, b5) =
        share_bounds buf size offset file.st_size small small' within ends q a len m w.file.st_size
          start top fits full v.spliced.size in
      (
        record {
          res = ap (λ x. add32 x len) v.res ∙ omega arith ∙ sym next;
          spliced = rw next (
              Spliced-trans file w.file w'.file buf offset m len within v.spliced (
                subst (λ k. Spliced w.file buf m k len w'.file) start
                  (written-Spliced host w w.con con path q buffer buf m a len n
                    (works.writes n (q * page_size)) f fits b1 b2 b3 b4 b5)));
          coherent =
              written-Coherent host w w.con con path q buffer buf m a len n
                (works.writes n (q * page_size)) f fits b1 b2 b3 b4 b5;
        },
        (λ _ _ e. omega (arith, e, f.head_page)),
        (λ h' _ _ e. omega (arith, e, f.head_page)),
        f.grown,
      )

  -- one turn
  turn :
      (i left : ℕ) (w : Written)
      → i < pages_in size offset
      → IsWritten file path buf offset (done size offset i) w
      → NotFirst w.con path (offset / page_size + i)
      → w.con.fresh ≤ fuel
      → (w' : Written) × (write_loop host path
            (target file.st_size buf size offset)
            (suc left)
            fuel
            i
            (if i == 0 then offset % page_size else 0)
            (done size offset i)
            w
          ≡ write_loop host path
              (target file.st_size buf size offset)
              left
              fuel
              (i + 1)
              0
              (done size offset (i + 1))
              w')
        × IsWritten file path buf offset (done size offset (i + 1)) w'
        × NotFirst w'.con path (offset / page_size + (i + 1))
        × (1 < i + 1 → NotFirst w'.con path (offset / page_size))
        × (w'.con.fresh ≤ suc w.con.fresh)
  unfolding target
  turn i left w h v first enough =
      let q = offset / page_size + i in
      let (buffer, con, e, f) =
        cache_loop-Fetched host w.con w.file path q (pages_of file) fuel works (omega arith)
          (counted_lem buf size offset file.st_size small small' within ends i w.file.st_size h
            v.spliced.size)
          (omega arith) v.coherent first enough in
      let t' = target file.st_size buf size offset in
      let (a, len) = part (span size offset) i in
      let n = share buf size offset file.st_size small small' within ends q in
      let w' = move_and_write host w con buffer buf (done size offset i) a len n (q * page_size) in
      let (v', first', away', grown) = step i w con buffer h v f in
      let named : add32 i (target file.st_size buf size offset).start_page ≡ q =
        ap (add32 i) (write_start_lem buf size offset file.st_size small small' within ends)
        ∙ omega arith in
      let place : to_size (mul32 q page_size) ≡ q * page_size = place_lem q (omega arith) in
      let starts = start_lem buf size offset file.st_size small small' within ends i h in
      let starts_at = part_start size offset small i h in
      let top = done_le size offset small i in
      let fits = part_fits size offset small i h in
      let fetched : cache_loop host fuel w.file w.con path q t'.file_size_in_pages
          ≡ some (buffer, con) =
        ap (cache_loop host fuel w.file w.con path q)
          (write_size_lem buf size offset file.st_size small small' within ends)
        ∙ e in
      (
        w',
        turn_run host path t' w left fuel i _ (done size offset i) q a len n (q * page_size) buffer
              con named starts
              (ap (λ k. add32 (end_within_page t' i) (neg32 k)) (sym starts)
                ∙ move_lem buf size offset file.st_size small small' within ends i h)
              fetched place
              (share_lem buf size offset file.st_size small small' within ends q (omega arith)
                (ground arith))
              (forwards_lem len (omega arith)) (works.writes n (q * page_size))
            ∙ ap (λ k. write_loop host path t' left fuel (i + 1) 0 k w')
                (sym (part_length size offset small i h)),
        v',
        first',
        away',
        grown,
      )

  loop :
      (left i : ℕ) (w : Written)
      → i + left ≡ pages_in size offset
      → IsWritten file path buf offset (done size offset i) w
      → NotFirst w.con path (offset / page_size + i)
      → (1 < i → NotFirst w.con path (offset / page_size))
      → w.con.fresh + left ≤ fuel
      → (w' : Written) × (write_loop host path
            (target file.st_size buf size offset)
            left
            fuel
            i
            (if i == 0 then offset % page_size else 0)
            (done size offset i)
            w
          ≡ some w')
        × IsWritten file path buf offset size w'
        × (1 < pages_in size offset → NotFirst w'.con path (offset / page_size))
        × (w'.con.fresh ≤ w.con.fresh + left)
  unfolding write_loop
  loop zero i w e v first away enough =
      let last : i ≡ pages_in size offset = omega (arith, e) in
      let all : done size offset i ≡ size =
        ap (done size offset) last ∙ done_all size offset small in
      (
        w,
        refl,
        subst (λ n. IsWritten file path buf offset n w) all v,
        (λ h. away (omega arith)),
        omega arith,
      )
  loop (suc left) i w e v first away enough =
      let (w', run, v', first', away', grown) =
        turn i left w (omega (arith, e)) v first (omega arith) in
      let behind : (if i + 1 == 0 then offset % page_size else 0) ≡ 0 = ground arith in
      let (w'', rest, v'', away'', grown') =
        loop left (i + 1) w' (omega (arith, e)) v' first' away' (omega arith) in
      (
        w'',
        run
            ∙ ap
                (λ k.
                  write_loop host path (target file.st_size buf size offset) left fuel (i + 1) k
                    (done size offset (i + 1)) w')
                (sym behind)
            ∙ rest,
        v'',
        away'',
        omega arith,
      )

  -- The node of the last page is the first one then.
  pub xmp_write_away :
      (c : LogSysCon)
      → Coherent c file path
      → NotFirst c path (offset / page_size)
      → c.fresh + (size + 1) ≤ fuel
      → (w : Written) × (xmp_write host fuel file c path buf size offset ≡ some w)
        × IsWritten file path buf offset size w
        × (1 < pages_in size offset → NotFirst w.con path (offset / page_size))
        × (w.con.fresh ≤ c.fresh + (size + 1))
  unfolding xmp_write turns
  xmp_write_away c v first enough =
      let start : Written = record { res = 0; file = file; con = c } in
      let (w, run, v', away', grown) =
        loop (pages_in size offset) 0 start (omega arith)
          (record { res = refl; spliced = Spliced-refl file buf offset within; coherent = v })
          (λ nz p q. first nz p (omega (arith, q))) (λ h. absurd (omega arith)) (omega arith) in
      let whole : file.st_size % word_mod ≡ file.st_size = omega arith in
      let counted : turns (target file.st_size buf size offset).num_pages ≡ pages_in size offset =
        ap turns (write_pages_lem buf size offset file.st_size small small' within ends)
        ∙ ground arith in
      (
        w,
        rw whole (
            written_ok host.stat_ok _ _ (some w) works.stat (
              ap
                (λ (k : ℕ).
                  write_loop host path (target file.st_size buf size offset) k fuel 0
                    (offset % page_size) 0 start)
                counted
              ∙ run)),
        v',
        away',
        omega arith,
      )

  -- A write that starts within the file and does not end where a page ends, to a list whose first node
  -- is not for its first page: the file has the data in its place.
  pub xmp_write-IsWritten :
      (c : LogSysCon)
      → Coherent c file path
      → NotFirst c path (offset / page_size)
      → c.fresh + (size + 1) ≤ fuel
      → (w : Written) × (xmp_write host fuel file c path buf size offset ≡ some w)
        × IsWritten file path buf offset size w
  xmp_write-IsWritten c v first enough =
      let (w, run, v', _, _) = xmp_write_away c v first enough in (w, run, v')
