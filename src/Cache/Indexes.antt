-- ===== src/Cache/Indexes.antt =====
-- getIndexInInode and fs_getPage of fuse-3.0.2/example/cache_code/filesystem.c on the pages of a file with
-- one level, whose addresses the inode holds: `128 ^ -1` is -129.
use cycology.Base.{
  ℕ, suc, ◌/◌, ◌<◌, ◌≤◌, ◌≡◌, refl, ap, none, some, arith, false, ltb, if◌then◌else◌, sign_bit,
  neg32, div32_nonneg, ne→==, inl, inr, lt-cases, lt→ltb, ge→ltb,
}
use cycology.Cache.Structs.{Heap}
use cycology.Cache.Table.{cache_get}
use cycology.Cache.Tree.{
  quotient, get_index_in_inode, direct_address, read_wp_from_disk, put_page_into_cache, get_page,
  fs_get_page,
}

index_one : (w : ℕ) → w < sign_bit → get_index_in_inode w 1 ≡ some (neg32 (w / 2064))
unfolding get_index_in_inode quotient
index_one w small =
    rw (ne→== w sign_bit (λ e. omega arith)) (ap (λ q. some (neg32 q)) (div32_nonneg w 2064 small))

first_index : (w : ℕ) → w < 2064 → neg32 (w / 2064) ≡ 0
first_index w small = ground arith

far_index : (w : ℕ) → 2064 ≤ w → w < sign_bit → ltb (neg32 (w / 2064)) 16 ≡ false
far_index w far small = ground arith

module _ (f : ℕ) (h : Heap) (key : ℕ) (level : (h.keys key).levels_above ≡ 0)
    (height : (h.files (h.keys key).file).tree_height ≡ 1)
    (missing : cache_get h key ≡ some 0) where
  pub fs_get_page_near :
      (h.keys key).data_offset < 2064
      → fs_get_page (suc f) h key ≡ (
          let (wp, h') = read_wp_from_disk h ((h.files (h.keys key).file).direct_page 0) in
          put_page_into_cache h' wp key)
  unfolding fs_get_page get_page direct_address
  fs_get_page_near near =
      rw
        (
          level,
          height,
          missing,
          index_one (h.keys key).data_offset (omega arith),
          first_index (h.keys key).data_offset near,
        )
        refl

  fs_get_page_far :
      2064 ≤ (h.keys key).data_offset
      → (h.keys key).data_offset < sign_bit
      → fs_get_page (suc f) h key ≡ none
  unfolding fs_get_page get_page direct_address
  fs_get_page_far far small =
      rw
        (
          level,
          height,
          missing,
          index_one (h.keys key).data_offset small,
          far_index (h.keys key).data_offset far small,
        )
        refl

-- fs_getPage with a data page that the cache does not have, of a file with one level of pages: below
-- 2064 bytes, so for the first three pages, the page is read from the first address of the inode; from
-- there on the index lies outside of the inode's addresses.
pub fs_get_page_one_level :
    (f : ℕ) (h : Heap) (key : ℕ)
    → (h.keys key).levels_above ≡ 0
    → (h.files (h.keys key).file).tree_height ≡ 1
    → (h.keys key).data_offset < sign_bit
    → cache_get h key ≡ some 0
    → fs_get_page (suc f) h key ≡ (
        let (wp, h') = read_wp_from_disk h ((h.files (h.keys key).file).direct_page 0) in
        if ltb (h.keys key).data_offset 2064 then put_page_into_cache h' wp key else none)
fs_get_page_one_level f h key level height small missing =
    elim (lt-cases (h.keys key).data_offset 2064) [
      | inl near ↦
          rw (lt→ltb (h.keys key).data_offset 2064 near)
            (fs_get_page_near f h key level height missing near)
      | inr far ↦
          rw (ge→ltb (h.keys key).data_offset 2064 far)
            (fs_get_page_far f h key level height missing far small)
    ]
