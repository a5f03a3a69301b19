-- ===== src/Cache/Lookup.antt =====
-- cache_get and cache_set on a bin.
use Prim.Native.Nat.{Ordering}
use cycology.Base.{
  ℕ, zero, suc, ◌≤◌, ◌≡◌, refl, false, Option, some, List, [], ◌∷◌, ◌++◌, arith, length, Distinct,
  ne→==,
}
use cycology.Cache.Structs.{CacheEntry, Heap}
use cycology.Cache.Keys.{key_cmp, cache_hash}
use cycology.Cache.Table.{is_eq, ended, walk, found, replace_page, cache_set, cache_get}
use cycology.Cache.Bins.{Bin, Compared, Stops, first_of, last_of, Bin-append, walk-Bin}

-- The key belongs to the bin `ys ++ zs`, and the keys of `ys` are less. The cache counts the entries.
pub record IsPlaced (h : Heap) (key bin : ℕ) (ys zs : List ℕ) : Type 0 where
  pub hashed : cache_hash h key ≡ some bin
  pub listed : Bin h.entries (h.cache.table bin) (ys ++ zs)
  pub apart : Distinct (ys ++ zs)
  pub before : Compared Ordering.gt (key_cmp h key) h.entries ys
  pub counted : length (ys ++ zs) ≤ h.cache.size

-- the first entry, if there is one, has a greater key
abbrev pub Missing : (ℕ → Option Ordering) → (ℕ → CacheEntry) → List ℕ → Type 0
Missing cmp e [] = Unit {0}
Missing cmp e (x ∷ xs) = cmp (e x).key ≡ some Ordering.lt

length-append_bound : (ys zs : List ℕ) (n : ℕ) → length (ys ++ zs) ≤ n → length ys ≤ n
length-append_bound [] zs n h = omega arith
length-append_bound (y ∷ ys) zs zero h = absurd (omega arith)
length-append_bound (y ∷ ys) zs (suc n) h =
    let rest = length-append_bound ys zs n (omega arith) in omega arith

module _ (h : Heap) (key bin : ℕ) (ys : List ℕ) where
  pub walk_lem :
      (zs : List ℕ)
      → IsPlaced h key bin ys zs
      → Stops (key_cmp h key) h.entries zs
      → walk (suc h.cache.size) h key 0 (h.cache.table bin) ≡ some (last_of 0 ys, first_of zs)
  walk_lem zs v s =
      walk-Bin h key (suc h.cache.size) 0 (h.cache.table bin) ys zs
        (let small = length-append_bound ys zs h.cache.size v.counted in omega arith) v.listed
        v.before s

  pub Missing-Stops :
      (zs : List ℕ) → Missing (key_cmp h key) h.entries zs → Stops (key_cmp h key) h.entries zs
  Missing-Stops [] m = tt
  Missing-Stops (z ∷ zs) m = (Ordering.lt, m, refl)

  found_lem :
      (z : ℕ) (zs : List ℕ) (o : Ordering)
      → IsPlaced h key bin ys (z ∷ zs)
      → key_cmp h key (h.entries z).key ≡ some o
      → found h key z ≡ some (is_eq o)
  unfolding found ended
  found_lem z zs o v compared =
      let (_, nz, keyed, _) = Bin-append h.entries (h.cache.table bin) ys (z ∷ zs) v.listed in
      rw (ne→== z 0 nz, ne→== (h.entries z).key 0 keyed, compared) refl

  pub found-Missing :
      (zs : List ℕ)
      → IsPlaced h key bin ys zs
      → Missing (key_cmp h key) h.entries zs
      → found h key (first_of zs) ≡ some false
  unfolding found ended
  found-Missing [] v m = refl
  found-Missing (z ∷ zs) v m = found_lem z zs Ordering.lt v m

  pub cache_get-Missing :
      (zs : List ℕ)
      → IsPlaced h key bin ys zs
      → Missing (key_cmp h key) h.entries zs
      → cache_get h key ≡ some 0
  unfolding cache_get
  cache_get-Missing zs v m =
      rw (v.hashed, walk_lem zs v (Missing-Stops zs m), found-Missing zs v m) refl

  pub cache_get_present :
      (z : ℕ) (zs : List ℕ)
      → IsPlaced h key bin ys (z ∷ zs)
      → key_cmp h key (h.entries z).key ≡ some Ordering.eq
      → cache_get h key ≡ some z
  unfolding cache_get
  cache_get_present z zs v same =
      rw
        (v.hashed, walk_lem (z ∷ zs) v (Ordering.eq, same, refl), found_lem z zs Ordering.eq v same)
        refl

  -- an entry with the key gets the new page
  pub cache_set_present :
      (z : ℕ) (zs : List ℕ) (wp : ℕ)
      → IsPlaced h key bin ys (z ∷ zs)
      → key_cmp h key (h.entries z).key ≡ some Ordering.eq
      → cache_set h key wp ≡ some (z, replace_page h z wp)
  unfolding cache_set
  cache_set_present z zs wp v same =
      rw
        (v.hashed, walk_lem (z ∷ zs) v (Ordering.eq, same, refl), found_lem z zs Ordering.eq v same)
        refl
