-- ===== src/Cache/Levels.antt =====
-- The calls of fs_getPage in fuse-3.0.2/example/cache_code/filesystem.c below one another, of which a tree
-- has no more than levels.
use Prim.Native.Nat.{bit_xor}
use cycology.Base.{
  ℕ, zero, suc, ◌+◌, ◌<◌, ◌≤◌, ◌≡◌, ◌≢◌, inl, inr, refl, ap, ◌∙◌, sym, true, false, Option, none,
  some, ◌>>=◌, arith, ◌==◌, if◌then◌else◌, sign_bit, minus_one, add32, mul32, slt, slt_nonneg,
  lt→ltb, ge→ltb, lt-cases, eq-cases, eq→==, ne→==, store_same,
}
use cycology.Cache.Structs.{PageKey, Heap}
use cycology.Cache.Table.{cache_get}
use cycology.Cache.Written.{with_key}
use cycology.Cache.Tree.{
  page_size, indirect_pages, pointer_size, quotient, get_parent_key, get_index_in_parent,
  indirect_address, read_wp_from_disk, put_page_into_cache, get_page, fs_get_page,
}

-- the key of the parent at an index
abbrev parent_at : Heap → ℕ → ℕ → PageKey
parent_at h child index = record {
  file = (h.keys child).file;
  data_offset = mul32 index pointer_size;
  levels_above = add32 (h.keys child).levels_above 1;
}

parents :
    {A : Type 0} (q : Option ℕ) (p : ℕ → ℕ × Heap) (F G : ℕ × Heap → Option A)
    → ((index : ℕ) → F (p index) ≡ G (p index))
    → ((q >>= λ index. some (p index)) >>= F) ≡ ((q >>= λ index. some (p index)) >>= G)
parents none p F G same = refl
parents (some index) p F G same = same index

via_parent :
    {A : Type 0} (h : Heap) (child : ℕ) (F G : ℕ × Heap → Option A)
    → ((index : ℕ)
        → F (h.fresh, with_key h (parent_at h child index))
          ≡ G (h.fresh, with_key h (parent_at h child index)))
    → (get_parent_key h child >>= F) ≡ (get_parent_key h child >>= G)
unfolding get_parent_key
via_parent h child F G same =
    parents
      (quotient (h.keys child).data_offset
        (mul32 page_size (bit_xor indirect_pages (add32 (h.keys child).levels_above 1))))
      (λ index. (h.fresh, with_key h (parent_at h child index))) F G same

-- the address of a page in its parent
abbrev in_parent : ℕ → ℕ → Option (ℕ × Heap) → Option (ℕ × Heap)
in_parent offset parent_key found = found >>= λ (parent, h2).
    indirect_address h2 parent (get_index_in_parent offset (h2.keys parent_key).data_offset)
    >>= λ address. some (address, h2)

not_top :
    (level height : ℕ)
    → level < height
    → height < sign_bit
    → level ≢ add32 height minus_one
    → level + 1 < height
not_top level height below high inner = ground (arith, below, high, inner)

get_page_above :
    (past : Heap → ℕ → Option (ℕ × Heap)) (f : ℕ) (h : Heap) (key : ℕ)
    → slt (h.keys key).levels_above (h.files (h.keys key).file).tree_height ≡ false
    → get_page past (suc f) h key ≡ some (0, h)
unfolding get_page
get_page_above past f h key above = rw above refl

-- Two bounds that are both large enough: what stands for the calls past them does not matter.
get_page_same :
    (past past' : Heap → ℕ → Option (ℕ × Heap)) (f f' : ℕ) (h : Heap) (key : ℕ)
    → (h.files (h.keys key).file).tree_height < sign_bit
    → (h.keys key).levels_above < sign_bit
    → 0 < f
    → 0 < f'
    → (h.files (h.keys key).file).tree_height ≤ (h.keys key).levels_above + f
    → (h.files (h.keys key).file).tree_height ≤ (h.keys key).levels_above + f'
    → get_page past f h key ≡ get_page past' f' h key
unfolding get_page
get_page_same past past' zero f' h key high small pos pos' enough enough' = absurd (omega arith)
get_page_same past past' (suc f) zero h key high small pos pos' enough enough' =
    absurd (omega arith)
get_page_same past past' (suc f) (suc f') h key high small pos pos' enough enough' =
    let level : ℕ = (h.keys key).levels_above in
    let height : ℕ = (h.files (h.keys key).file).tree_height in
    elim (lt-cases level height) [
      | inr above ↦
          let out : slt level height ≡ false =
            slt_nonneg level height small high ∙ ge→ltb level height above in
          get_page_above past f h key out ∙ sym (get_page_above past' f' h key out)
      | inl below ↦
          let inside : slt level height ≡ true =
            slt_nonneg level height small high ∙ lt→ltb level height below in
          elim (eq-cases level (add32 height minus_one)) [
            | inl top ↦ rw (inside, eq→== level (add32 height minus_one) top) refl
            | inr inner ↦
                rw (inside, ne→== level (add32 height minus_one) inner)
                  (ap
                    (λ r. cache_get h key >>= λ entry.
                      if entry == 0
                      then (r >>= λ (address, h3).
                          let (wp, h4) = read_wp_from_disk h3 address in
                          put_page_into_cache h4 wp key)
                      else some (entry, h))
                    (via_parent h key _ _ λ index.
                      (let h1 : Heap = with_key h (parent_at h key index) in
                        let own : h1.keys h.fresh ≡ parent_at h key index =
                          store_same h.keys h.fresh (parent_at h key index) in
                        let level1 : (h1.keys h.fresh).levels_above ≡ level + 1 =
                          ap (λ k. k.levels_above) own ∙ omega (arith, small, below, high) in
                        let height1 : (h1.files (h1.keys h.fresh).file).tree_height ≡ height =
                          ap (λ k. (h.files k.file).tree_height) own in
                        let apart : level + 1 < height = not_top level height below high inner in
                        ap (in_parent (h.keys key).data_offset h.fresh) (
                          get_page_same past past' f f' h1 h.fresh (rw height1 high)
                            (rw level1 (omega (arith, apart, high))) (omega (arith, apart, enough))
                            (omega (arith, apart, enough'))
                            (rw (height1, level1) (omega (arith, enough)))
                            (rw (height1, level1) (omega (arith, enough')))))))
          ]
    ]

-- With a key of a level that is not negative, of a file whose tree is not negatively high, let the calls of
-- fs_getPage below one another, the first among them, have a bound that is not 0 and reaches from the
-- level to the height. The result is then the same whatever stands for a call past the bound, and is that
-- with any larger bound.
pub fs_get_page_levels :
    (past : Heap → ℕ → Option (ℕ × Heap)) (f more : ℕ) (h : Heap) (key : ℕ)
    → (h.files (h.keys key).file).tree_height < sign_bit
    → (h.keys key).levels_above < sign_bit
    → 0 < f
    → (h.files (h.keys key).file).tree_height ≤ (h.keys key).levels_above + f
    → get_page past f h key ≡ fs_get_page (f + more) h key
unfolding fs_get_page
fs_get_page_levels past f more h key high small pos enough =
    get_page_same past (λ h' key'. none) f (f + more) h key high small pos (omega arith) enough
      (omega arith)
