-- ===== src/Paged/Back.antt =====
-- xmp_write of JuliaRehaanExample/fusexmp_fh.c, then xmp_read of what was written.
use mathlib.Core.Path.{subst}
use cycology.Base.{
  ℕ, ◌+◌, ◌-◌, ◌*◌, ◌/◌, ◌%◌, ◌^◌, ◌<◌, ◌≤◌, ◌≡◌, ◌≢◌, ap, ◌∙◌, some, true, arith, leb, lt→ltb,
}
use cycology.Paged.{LogSysCon, File, Host, Read, page_size, xmp_read}
use cycology.Paged.Coherent.{Working, Coherent, NotFirst}
use cycology.Paged.Plain.{IsPlain, plain_count, xmp_read-IsRead}
use cycology.Paged.Spliced.{Spliced}
use cycology.Paged.Write.{Written, xmp_write}
use cycology.Paged.Store.{xmp_write_away}

-- A buffer has the data.
abbrev pub IsSame : ℕ → (ℕ → ℕ) → (ℕ → ℕ) → Type 0
IsSame n buf buf' = (j : ℕ) → j < n → buf' j ≡ buf j

-- what a plain read gets of the data that was put into a file
Spliced-data :
    (file file' : File) (buf buf' : ℕ → ℕ) (offset size : ℕ)
    → Spliced file buf 0 offset size file'
    → offset + size ≤ file'.st_size
    → IsPlain file' offset size buf'
    → IsSame size buf buf'
Spliced-data file file' buf buf' offset size v inside plain j h =
    let from : leb offset (offset + j) ≡ true = ground arith in
    let place : 0 + (offset + j - offset) ≡ j = omega arith in
    plain j h
    ∙ v.bytes (offset + j) (omega arith)
    ∙ rw (from, lt→ltb (offset + j) (offset + size) (omega arith)) (ap buf place)

module _ (host : Host) (file : File) (path : ℕ) (buf buf' : ℕ → ℕ) (size offset fuel : ℕ)
    (works : Working host) (small : offset + size + page_size < 2 ^ 31)
    (small' : file.st_size + page_size < 2 ^ 31) (within : offset ≤ file.st_size)
    (ends : (offset + size) % page_size ≢ 0) (spans : page_size < offset % page_size + size) where
  -- Data that spans several pages, starts within the file and does not end where a page ends is what a
  -- read of its place then gives.
  pub xmp_read-xmp_write :
      (c : LogSysCon)
      → Coherent c file path
      → NotFirst c path (offset / page_size)
      → c.fresh + (size + 1) * 2 ≤ fuel
      → (w : Written) × (r : Read) × (xmp_write host fuel file c path buf size offset ≡ some w)
        × (xmp_read host fuel w.file w.con path buf' size offset ≡ some r)
        × (w.res ≡ size)
        × (r.res ≡ size)
        × IsSame size buf r.buf
  xmp_read-xmp_write c v first enough =
      let (w, run, v', away, grown) =
        xmp_write_away host file path buf size offset fuel works small small' within ends c v first
          (omega arith) in
      let bound : w.file.st_size + page_size < 2 ^ 31 = ground (arith, v'.spliced.size) in
      let inside : offset + size ≤ w.file.st_size = ground (arith, v'.spliced.size) in
      let (r, run', read) =
        xmp_read-IsRead host w.file w.con path buf' size offset fuel works bound v'.coherent
          (away (omega arith)) (omega arith) (omega arith) in
      let whole : plain_count w.file size offset ≡ size = ground (arith, inside) in
      (
        w,
        r,
        run,
        run',
        v'.res,
        read.res ∙ whole,
        Spliced-data file w.file buf r.buf offset size v'.spliced inside
            (subst (λ n. IsPlain w.file offset n r.buf) whole read.plain),
      )
