-- ===== src/Cache/Apart.antt =====
-- cache_set of fuse-3.0.2/example/cache_code/cache.c and the other keys of the cache.
use Prim.Native.Nat.{Ordering}
use mathlib.Core.Path.{subst}
use cycology.Base.{
  ℕ, ◌+◌, ◌≤◌, ◌≡◌, ◌≢◌, inl, inr, ap, ◌∙◌, sym, Option, some, List, [], ◌∷◌, ◌++◌, arith, length,
  store_other, AllNe, AllNe-append, Distinct, Distinct-middle, eq-cases,
}
use cycology.Cache.Structs.{CacheEntry, Heap}
use cycology.Cache.Keys.{key_number, key_cmp, cache_hash}
use cycology.Cache.Table.{new_entry, cache_set, cache_get}
use cycology.Cache.Bins.{Bin, Compared, last_of, last_of_ne}
use cycology.Cache.Order.{
  append_insert, append_behind, Compared-split, Compared-between, behind-above, Bin-same,
  placed_cases,
}
use cycology.Cache.Lookup.{IsPlaced, Missing, cache_get_present}
use cycology.Cache.Link.{HasRoom, links, grown}
use cycology.Cache.Insert.{IsStored, cache_set_new}

nonnull : (e : ℕ → CacheEntry) (p : ℕ) (xs : List ℕ) → Bin e p xs → AllNe 0 xs
nonnull e p [] b = tt
nonnull e p (x ∷ xs) (start, nz, keyed, b) = (nz, nonnull e (e x).next xs b)

last_apart : (y : ℕ) (ys xs : List ℕ) → Distinct (y ∷ ys ++ xs) → AllNe (last_of y ys) xs
last_apart y ys [] d = tt
last_apart y ys (x ∷ xs) d =
    let (out, _, rest) = Distinct-middle (y ∷ ys) x xs d in
    ((λ e. last_of_ne x y ys out (sym e)), last_apart y ys xs rest)

-- the entries that do not change their places in their bin
module _ (h : Heap) (key bin wp : ℕ) (ys zs : List ℕ) (entries : ℕ → CacheEntry) (table : ℕ → ℕ)
    (v : IsStored h key bin wp ys zs entries table) where
  kept_key : (x : ℕ) → x ≢ h.fresh → (entries x).key ≡ (h.entries x).key
  kept_key x ne =
      ap (λ l. l.key) (v.same x ∙ ap links (store_other h.entries h.fresh (new_entry key wp) x ne))

  Bin-kept :
      (p : ℕ) (xs : List ℕ)
      → AllNe h.fresh xs
      → AllNe (last_of 0 ys) xs
      → Bin h.entries p xs
      → Bin entries p xs
  Bin-kept p [] new apart b = b
  Bin-kept p (x ∷ xs) new apart (start, nz, keyed, b) = (
    start,
    nz,
    rw (kept_key x new.0) keyed,
    rw (v.nexts x new.0 apart.0) (Bin-kept (h.entries x).next xs new.1 apart.1 b),
  )

  Compared-kept :
      (o : Ordering) (cmp : ℕ → Option Ordering) (xs : List ℕ)
      → AllNe h.fresh xs
      → Compared o cmp h.entries xs
      → Compared o cmp entries xs
  Compared-kept o cmp [] new c = tt
  Compared-kept o cmp (x ∷ xs) new (c, cs) =
      (rw (kept_key x new.0) c, Compared-kept o cmp xs new.1 cs)

  kept-IsPlaced :
      (key' bin' : ℕ) (ys' zs' : List ℕ)
      → bin' ≢ bin
      → AllNe h.fresh (ys' ++ zs')
      → AllNe (last_of 0 ys) (ys' ++ zs')
      → IsPlaced h key' bin' ys' zs'
      → IsPlaced (grown h entries table) key' bin' ys' zs'
  unfolding cache_hash key_cmp key_number
  kept-IsPlaced key' bin' ys' zs' other new apart w = record {
    hashed = w.hashed;
    listed =
        rw (v.others bin' other) (Bin-kept (h.cache.table bin') (ys' ++ zs') new apart w.listed);
    apart = w.apart;
    before =
        Compared-kept Ordering.gt (key_cmp h key') ys' (AllNe-append h.fresh ys' zs' new).0
          w.before;
    counted = let few = w.counted in omega arith;
  }

  kept_compared :
      (key' z' : ℕ) (o : Ordering)
      → z' ≢ h.fresh
      → key_cmp h key' (h.entries z').key ≡ some o
      → key_cmp (grown h entries table) key' (entries z').key ≡ some o
  unfolding key_cmp key_number
  kept_compared key' z' o new c = rw (kept_key z' new) c

last_of-AllNe :
    (e : ℕ → CacheEntry) (p : ℕ) (ys xs : List ℕ)
    → Bin e p xs
    → Distinct (ys ++ xs)
    → AllNe (last_of 0 ys) xs
last_of-AllNe e p [] xs b d = nonnull e p xs b
last_of-AllNe e p (y ∷ ys) xs b d = last_apart y ys xs d

-- a key of the same bin
module _ (h : Heap) (key bin wp : ℕ) (ys zs : List ℕ) (entries : ℕ → CacheEntry) (table : ℕ → ℕ)
    (v : IsStored h key bin wp ys zs entries table) (key' entry : ℕ) (ys' zs' : List ℕ)
    (new : AllNe h.fresh (ys' ++ entry ∷ zs')) (w : IsPlaced h key' bin ys' (entry ∷ zs')) where
  moved-IsPlaced :
      (ls rs : List ℕ)
      → ys ++ h.fresh ∷ zs ≡ ls ++ rs
      → Compared Ordering.gt (key_cmp h key') entries ls
      → IsPlaced (grown h entries table) key' bin ls rs
  unfolding cache_hash key_cmp key_number
  moved-IsPlaced ls rs e c = record {
    hashed = w.hashed;
    listed = subst (Bin entries (table bin)) e v.placed.listed;
    apart = subst Distinct e v.placed.apart;
    before = c;
    counted = subst (λ l. length l ≤ h.cache.size + 1) e v.placed.counted;
  }

  same_bin :
      Missing (key_cmp h key) h.entries zs
      → key_cmp h key' (h.entries entry).key ≡ some Ordering.eq
      → ys ++ zs ≡ ys' ++ entry ∷ zs'
      → (ls rs : List ℕ) × IsPlaced (grown h entries table) key' bin ls (entry ∷ rs)
  same_bin m same e = elim (placed_cases ys zs ys' entry zs' e) [
    | inl (r, left, right) ↦ (
      ys',
      r ++ h.fresh ∷ zs,
      moved-IsPlaced ys' (entry ∷ (r ++ h.fresh ∷ zs))
          (ap (λ l. l ++ h.fresh ∷ zs) left ∙ append_insert ys' entry r h.fresh zs)
          (Compared-kept h key bin wp ys zs entries table v Ordering.gt (key_cmp h key') ys'
            (AllNe-append h.fresh ys' (entry ∷ zs') new).0 w.before),
    )
    | inr (r, left, right) ↦ (
      ys ++ h.fresh ∷ r,
      zs',
      moved-IsPlaced (ys ++ h.fresh ∷ r) (entry ∷ zs')
          (ap (λ l. ys ++ h.fresh ∷ l) right ∙ append_behind ys h.fresh r (entry ∷ zs'))
          (Compared-between Ordering.gt (key_cmp h key') entries ys h.fresh r
            (ap (key_cmp h key') v.named
              ∙ behind-above h key key' entry r zs'
                  (subst (Missing (key_cmp h key) h.entries) right m)
                  (Compared-split Ordering.gt (key_cmp h key') h.entries ys r
                    (subst (Compared Ordering.gt (key_cmp h key') h.entries) left w.before))
                  same)
            (Compared-kept h key bin wp ys zs entries table v Ordering.gt (key_cmp h key') (ys ++ r)
              (subst (AllNe h.fresh) left (AllNe-append h.fresh ys' (entry ∷ zs') new).0)
              (subst (Compared Ordering.gt (key_cmp h key') h.entries) left w.before))),
    )
  ]

same_place :
    (h : Heap) (key bin wp : ℕ) (ys zs : List ℕ) (entries : ℕ → CacheEntry) (table : ℕ → ℕ)
    → IsStored h key bin wp ys zs entries table
    → (key' bin' entry : ℕ) (ys' zs' : List ℕ) → AllNe h.fresh (ys' ++ entry ∷ zs')
    → IsPlaced h key bin ys zs
    → Missing (key_cmp h key) h.entries zs
    → IsPlaced h key' bin' ys' (entry ∷ zs')
    → key_cmp h key' (h.entries entry).key ≡ some Ordering.eq
    → bin' ≡ bin
    → (ls rs : List ℕ) × IsPlaced (grown h entries table) key' bin' ls (entry ∷ rs)
same_place h key bin wp ys zs entries table stored key' bin' entry ys' zs' new v m w same e =
    let w' : IsPlaced h key' bin ys' (entry ∷ zs') =
      subst (λ b. IsPlaced h key' b ys' (entry ∷ zs')) e w in
    let (ls, rs, placed) =
      same_bin h key bin wp ys zs entries table stored key' entry ys' zs' new w' m same (
        Bin-same h.entries (h.cache.table bin) (ys ++ zs) (ys' ++ entry ∷ zs') v.listed
          w'.listed) in
    (ls, rs, subst (λ b. IsPlaced (grown h entries table) key' b ls (entry ∷ rs)) (sym e) placed)

-- cache_set of a key that its bin does not have leaves what cache_get finds for any key that the cache
-- has, and the page of that, if the cache is not full, its largest size is an `int`, the next pointer is
-- new, and no entry is in two bins.
pub cache_get-cache_set_other :
    (h : Heap) (key bin wp : ℕ) (ys zs : List ℕ) (key' bin' entry : ℕ) (ys' zs' : List ℕ)
    → IsPlaced h key bin ys zs
    → Missing (key_cmp h key) h.entries zs
    → HasRoom h
    → AllNe h.fresh (ys ++ zs)
    → h.fresh ≢ 0
    → key ≢ 0
    → IsPlaced h key' bin' ys' (entry ∷ zs')
    → key_cmp h key' (h.entries entry).key ≡ some Ordering.eq
    → AllNe h.fresh (ys' ++ entry ∷ zs')
    → (bin' ≢ bin → Distinct (ys ++ (ys' ++ entry ∷ zs')))
    → (h' : Heap) × (cache_set h key wp ≡ some (h.fresh, h'))
      × (cache_get h' key' ≡ some entry)
      × ((h'.entries entry).wp ≡ (h.entries entry).wp)
cache_get-cache_set_other h key bin wp ys zs key' bin' entry ys' zs' v m room new nz keyed w same
      new' d =
    let (entries, table, stored) = cache_set_new h key bin wp ys zs v m room new nz keyed in
    let (_, (apart, _)) = AllNe-append h.fresh ys' (entry ∷ zs') new' in
    let (ls, rs, placed) : (ls rs : List ℕ) × IsPlaced (grown h entries table) key' bin' ls
          (entry ∷ rs) =
      elim (eq-cases bin' bin) [
        | inl e ↦
            same_place h key bin wp ys zs entries table stored key' bin' entry ys' zs' new' v m w
              same e
        | inr other ↦ (
          ys',
          zs',
          kept-IsPlaced h key bin wp ys zs entries table stored key' bin' ys' (entry ∷ zs') other
              new'
              (last_of-AllNe h.entries (h.cache.table bin') ys (ys' ++ entry ∷ zs') w.listed
                (d other))
              w,
        )
      ] in
    (
      grown h entries table,
      stored.stored,
      cache_get_present (grown h entries table) key' bin' ls entry rs placed
          (kept_compared h key bin wp ys zs entries table stored key' entry Ordering.eq apart same),
      ap (λ l. l.wp)
          (stored.same entry
            ∙ ap links (store_other h.entries h.fresh (new_entry key wp) entry apart)),
    )
