-- ===== src/Paged/Spliced.antt =====
-- A change of some bytes of a file that may grow, as xmp_write of
-- JuliaRehaanExample/fusexmp_fh.c makes it.
use mathlib.Core.Path.{subst}
use cycology.Base.{
  ℕ, ◌+◌, ◌-◌, ◌<◌, ◌≤◌, ◌≡◌, true, false, inside-cases, ap, ◌∙◌, inl, inr, arith, ltb, leb, ◌&&◌,
  if◌then◌else◌, lt→ltb,
}
use cycology.Paged.{File}

-- `len` bytes of `src` from `moved` on stand in the file from `at` on, which may have grown.
pub record Spliced (file : File) (src : ℕ → ℕ) (moved at len : ℕ) (file' : File) : Type 0 where
  pub size : file'.st_size ≡ (if ltb file.st_size (at + len) then at + len else file.st_size)
  pub bytes :
      (j : ℕ)
      → j < file'.st_size
      → file'.bytes j
        ≡ (if leb at j && ltb j (at + len) then src (moved + (j - at)) else file.bytes j)

-- Two parts that follow each other are one.
both_parts :
    (file file' : File) (src : ℕ → ℕ) (at m len j : ℕ)
    → Spliced file src 0 at m file'
    → at ≤ file.st_size
    → j < (if ltb file'.st_size (at + m + len) then at + m + len else file'.st_size)
    → (if leb (at + m) j && ltb j (at + m + len) then src (m + (j - (at + m))) else file'.bytes j)
      ≡ (if leb at j && ltb j (at + (m + len)) then src (0 + (j - at)) else file.bytes j)
both_parts file file' src at m len j v within h = elim (inside-cases (at + m) (at + m + len) j) [
  | inl (low, high) ↦
      let from : leb (at + m) j ≡ true = ground arith in
      let from' : leb at j ≡ true = ground arith in
      let place : m + (j - (at + m)) ≡ 0 + (j - at) = omega arith in
      rw (from, from', lt→ltb j (at + m + len) high, lt→ltb j (at + (m + len)) (omega arith))
        (ap src place)
  | inr out ↦
      let apart : leb (at + m) j && ltb j (at + m + len) ≡ false = ground arith in
      let before : j < file'.st_size = ground (arith, v.size) in
      let same : leb at j && ltb j (at + m) ≡ leb at j && ltb j (at + (m + len)) = ground arith in
      rw (apart, ← same) (v.bytes j before)
]

pub Spliced-trans :
    (file file' file'' : File) (src : ℕ → ℕ) (at m len : ℕ)
    → at ≤ file.st_size
    → Spliced file src 0 at m file'
    → Spliced file' src m (at + m) len file''
    → Spliced file src 0 at (m + len) file''
Spliced-trans file file' file'' src at m len within v v' = record {
  size = v'.size ∙ ap (λ n. if ltb n (at + m + len) then at + m + len else n) v.size ∙ ground arith;
  bytes = λ j h.
      v'.bytes j h ∙ both_parts file file' src at m len j v within (subst (λ n. j < n) v'.size h);
}

pub Spliced-refl :
    (file : File) (src : ℕ → ℕ) (at : ℕ) → at ≤ file.st_size → Spliced file src 0 at 0 file
Spliced-refl file src at within = record { size = ground arith; bytes = λ j h. ground arith }
