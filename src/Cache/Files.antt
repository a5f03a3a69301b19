-- ===== src/Cache/Files.antt =====
-- fs_updateFileInLru.
use cycology.Base.{
  ℕ, zero, suc, ◌<◌, ◌≡◌, refl, false, some, List, [], ◌∷◌, arith, length, AllNe, ne→==,
}
use cycology.Dll.Chained.{Chained, IsDll}
use cycology.Cache.Structs.{Heap}
use cycology.Cache.Queues.{lru_files, lru_contains, add_file_to_lru, fs_update_file_in_lru}

module _ (h : Heap) (file : ℕ) where
  lru_contains_missing :
      (f before start : ℕ) (xs : List ℕ) (last : ℕ)
      → length xs < f
      → AllNe 0 xs
      → AllNe file xs
      → Chained (lru_files h).next (lru_files h).prev before start xs last 0
      → lru_contains f h start file ≡ some false
  unfolding lru_contains lru_files
  lru_contains_missing zero before start xs last fuel nz ne c = absurd (omega arith)
  lru_contains_missing (suc f) before start [] last fuel nz ne (e, e') = rw e refl
  lru_contains_missing (suc f) before start (x ∷ xs) last fuel nz ne (e, p, c) =
      rw (e, ne→== x 0 nz.0, ne→== x file ne.0)
        (lru_contains_missing f x ((lru_files h).next x) xs last (omega arith) nz.1 ne.1 c)

  pub fs_update_file_in_lru_new :
      (xs : List ℕ)
      → IsDll (lru_files h) xs
      → length xs < h.fresh
      → AllNe file xs
      → fs_update_file_in_lru h file ≡ some (add_file_to_lru h file)
  unfolding fs_update_file_in_lru lru_files
  fs_update_file_in_lru_new xs v short ne =
      rw
        (lru_contains_missing h.fresh 0 h.lru_file_head xs h.lru_file_tail short v.nonnull ne
          v.chained)
        refl
