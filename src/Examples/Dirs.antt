-- ===== src/Examples/Dirs.antt =====
-- The theorem on xmp_readdir at a directory of two entries and buffers for one.
use cycology.Base.{
  ℕ, ◌+◌, ◌≡◌, refl, Bool, true, false, none, some, List, [], ◌∷◌, arith, ◌==◌, if◌then◌else◌,
}
use cycology.Handlers.Dirs.{Dirent, XmpDirp, Filled, DirHost, xmp_opendir}
use cycology.Handlers.Listing.{all_filled, listing, listing-all_filled}

abbrev some_dirent : ℕ → Dirent
some_dirent i = record { d_name = (97 + i) ∷ []; d_ino = 10 + i; d_type = 8 }

abbrev one_at_a_time : List Filled → Filled → Bool
one_at_a_time [] f = false
one_at_a_time (x ∷ xs) f = true

-- the positions are 0, 5 and 9
abbrev dir_host : DirHost
dir_host = record {
  readdir = λ pos.
      if pos == 0
      then some (some_dirent 0, 5)
      else if pos == 5
      then some (some_dirent 1, 9)
      else none;
  fstatat = λ e. none;
  filler = one_at_a_time;
}

listing-all_filled_example :
    (d' : XmpDirp) × (listing 2 dir_host 3 (xmp_opendir 0) 0
      ≡ some (d', all_filled dir_host ((some_dirent 0, 5) ∷ (some_dirent 1, 9) ∷ [])))
listing-all_filled_example =
    listing-all_filled dir_host (λ f. refl) 2 0 ((some_dirent 0, 5) ∷ (some_dirent 1, 9) ∷ []) 2
      (refl, (refl, refl)) (omega arith) (omega arith)
