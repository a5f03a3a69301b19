-- ===== src/Paged/Shares.antt =====
-- What xmp_write of JuliaRehaanExample/fusexmp_fh.c moves and writes in each turn of its loop.
use cycology.Base.{
  ℕ, suc, ◌+◌, ◌-◌, ◌*◌, ◌/◌, ◌%◌, ◌^◌, ◌<◌, ◌≤◌, ◌≡◌, ◌≢◌, ◌⊎◌, refl, inl, inr, Bool, Option, not,
  some, arith, ltb, ◌==◌, false, true, if◌then◌else◌, add32, mul32, neg32, is_neg, eq→==, lt-cases,
}
use cycology.Paged.{LogSysCon, Host, page_size, to_size, span, part, size_in_pages, cache_loop}
use cycology.Paged.Parts.{pages_in, done}
use cycology.Paged.Write.{
  Written, Target, target, end_within_page, to_write, move_and_write, write_loop,
}

module _ (buf : ℕ → ℕ) (size offset file_size : ℕ) (small : offset + size + page_size < 2 ^ 31)
    (small' : file_size + page_size < 2 ^ 31) (within : offset ≤ file_size)
    (ends : (offset + size) % page_size ≢ 0) where
  abbrev pub t : Target
  t = target file_size buf size offset

  abbrev pub final : ℕ
  final = if ltb file_size (offset + size) then offset + size else file_size

  pub final_lem : t.final_file_size ≡ final
  unfolding target to_size
  final_lem = ground arith

  pub write_pages_lem : t.num_pages ≡ pages_in size offset
  unfolding target
  write_pages_lem = ground arith

  pub write_start_lem : t.start_page ≡ offset / page_size
  unfolding target
  write_start_lem = ground arith

  abbrev pub start : ℕ → ℕ
  start i = if i == 0 then offset % page_size else 0

  pub start_lem : (i : ℕ) → i < pages_in size offset → start i ≡ (part (span size offset) i).0
  unfolding span part
  start_lem i h = ground arith

  pub move_lem :
      (i : ℕ)
      → i < pages_in size offset
      → add32 (end_within_page t i) (neg32 (start i)) ≡ (part (span size offset) i).1
  unfolding span part target end_within_page
  move_lem i h = ground arith

  pub page_full :
      (i : ℕ)
      → i < pages_in size offset
      → ((part (span size offset) i).0 + (part (span size offset) i).1 ≡ page_size)
        ⊎ (done size offset (i + 1) ≡ size)
  unfolding span part
  page_full i h = elim (lt-cases (i + 1) (pages_in size offset)) [
    | inl more ↦ inl (ground arith)
    | inr last ↦ inr (ground arith)
  ]

  -- how much of a page is written
  abbrev pub share : ℕ → ℕ
  share q = if ltb final ((q + 1) * page_size) then final - q * page_size else page_size

  pub share_lem :
      (q : ℕ)
      → q * page_size < 2 ^ 31 - page_size
      → q * page_size ≤ final
      → to_size (to_write t q) ≡ share q
  unfolding to_write to_size
  share_lem q h h' = rw final_lem (ground arith)

  pub write_size_lem : t.file_size_in_pages ≡ (file_size + (page_size - 1)) / page_size
  unfolding target size_in_pages
  write_size_lem = ground arith

  -- A page that the file reaches then is one that it had before.
  pub counted_lem :
      (i st : ℕ)
      → i < pages_in size offset
      → st ≡ (
          if ltb file_size (offset + done size offset i)
          then offset + done size offset i
          else file_size)
      → (offset / page_size + i) * page_size < st
      → offset / page_size + i < (file_size + (page_size - 1)) / page_size
  counted_lem i st h e h' = ground arith

  -- What is written of a page goes up to the end of its data or of the file.
  pub share_bounds :
      (q a len m st : ℕ)
      → q * page_size + a ≡ offset + m
      → m + len ≤ size
      → a + len ≤ page_size
      → (a + len ≡ page_size) ⊎ (m + len ≡ size)
      → st ≡ (if ltb file_size (offset + m) then offset + m else file_size)
      → (q * page_size + a ≤ st)
        × (a + len ≤ share q)
        × (share q ≤ page_size)
        × (q * page_size + share q
            ≤ (if ltb st (q * page_size + a + len) then q * page_size + a + len else st))
        × ((share q ≡ page_size)
            ⊎ ((if ltb st (q * page_size + a + len) then q * page_size + a + len else st)
                ≤ q * page_size + share q))
  share_bounds q a len m st start top fits full e = (
    ground arith,
    ground arith,
    ground arith,
    elim full [ inl f ↦ ground arith | inr f ↦ ground arith ],
    elim (lt-cases final ((q + 1) * page_size)) [
      | inl less ↦ inr (ground arith)
      | inr all ↦ inl (ground arith)
    ],
  )

pub written_ok :
    (ok : Bool) (failed written result : Option Written)
    → ok ≡ true
    → written ≡ result
    → (if not ok then failed else written) ≡ result
written_ok ok failed written result e run = rw (e, run) refl

-- A turn in which everything succeeds.
pub turn_run :
    (host : Host) (path : ℕ) (t : Target) (w : Written)
    (left fuel i start m q a len n at buffer : ℕ) (con : LogSysCon)
    → add32 i t.start_page ≡ q
    → start ≡ a
    → add32 (end_within_page t i) (neg32 a) ≡ len
    → cache_loop host fuel w.file w.con path q t.file_size_in_pages ≡ some (buffer, con)
    → to_size (mul32 q page_size) ≡ at
    → to_size (to_write t q) ≡ n
    → is_neg len ≡ false
    → host.bytes_written n at ≡ n
    → write_loop host path t (suc left) fuel i start m w
      ≡ write_loop host path t left fuel
          (i + 1)
          0
          (m + len)
          (move_and_write host w con buffer t.buf m a len n at)
unfolding write_loop
turn_run host path t w left fuel i start m q a len n at buffer con e1 e2 e3 e4 e5 e6 e7 e8 =
    rw (e1, e4, e2, e3, e7, e5, e6, e8, eq→== n n refl) refl
