-- ===== src/Cache/Insert.antt =====
-- cache_set with a key that its bin does not have.
use Prim.Native.Nat.{Ordering}
use cycology.Base.{
  ℕ, ◌%◌, ◌≡◌, ◌≢◌, refl, ap, Option, none, some, ◌>>=◌, List, ◌∷◌, ◌++◌, arith, ◌==◌,
  if◌then◌else◌, store, AllNe,
}
use cycology.Cache.Structs.{CacheEntry, Heap}
use cycology.Cache.Keys.{number_text, key_number, key_cmp, cache_hash, hash_text, strcmp}
use cycology.Cache.Texts.{strcmp_self}
use cycology.Cache.Table.{new_entry, cache_set, cache_get}
use cycology.Cache.Bins.{last_of}
use cycology.Cache.Lookup.{
  IsPlaced, Missing, walk_lem, Missing-Stops, found-Missing, cache_get_present,
}
use cycology.Cache.Link.{HasRoom, links, grown, IsLinked, new_entry_lem, link_lem}

-- what cache_set returns for a key that its bin does not have, with the entry's fields and its lists'
pub record IsStored (h : Heap) (key bin wp : ℕ) (ys zs : List ℕ) (entries : ℕ → CacheEntry)
    (table : ℕ → ℕ) : Type 0 where
  pub stored : cache_set h key wp ≡ some (h.fresh, grown h entries table)
  pub placed : IsPlaced (grown h entries table) key bin ys (h.fresh ∷ zs)
  pub named : (entries h.fresh).key ≡ key
  pub page : (entries h.fresh).wp ≡ wp
  pub same : (x : ℕ) → links (entries x) ≡ links (store h.entries h.fresh (new_entry key wp) x)
  pub nexts : (x : ℕ) → x ≢ h.fresh → x ≢ last_of 0 ys → (entries x).next ≡ (h.entries x).next
  pub others : (b : ℕ) → b ≢ bin → table b ≡ h.cache.table b

module _ (h : Heap) (key bin wp : ℕ) where
  -- a key that the bin does not have
  pub cache_set_new :
      (ys zs : List ℕ)
      → IsPlaced h key bin ys zs
      → Missing (key_cmp h key) h.entries zs
      → HasRoom h
      → AllNe h.fresh (ys ++ zs)
      → h.fresh ≢ 0
      → key ≢ 0
      → (entries : ℕ → CacheEntry) × (table : ℕ → ℕ) × IsStored h key bin wp ys zs entries table
  unfolding cache_set IsLinked
  cache_set_new ys zs v m room new nz keyed =
      let (entries, table, linked, placed, named, page, same, nexts, others) =
        link_lem h key bin wp ys zs v new nz keyed in
      (
        entries,
        table,
        record {
          stored =
              rw
                (
                  v.hashed,
                  walk_lem h key bin ys zs v (Missing-Stops h key bin ys zs m),
                  found-Missing h key bin ys zs v m,
                  new_entry_lem h key bin wp room,
                  linked,
                )
                refl;
          placed = placed;
          named = named;
          page = page;
          same = same;
          nexts = nexts;
          others = others;
        },
      )

texts_equal :
    (m bin : ℕ) (t : Option (List ℕ)) (f : List ℕ → ℕ)
    → (if m == 0 then none else t >>= λ text. some (f text)) ≡ some bin
    → (t >>= λ a. t >>= λ b. some (strcmp a b)) ≡ some Ordering.eq
texts_equal m bin none f e = ground arith
texts_equal m bin (some t) f e = ap some (strcmp_self t)

key_cmp_self :
    (h : Heap) (key bin : ℕ) → cache_hash h key ≡ some bin → key_cmp h key key ≡ some Ordering.eq
unfolding cache_hash key_cmp
key_cmp_self h key bin e =
    texts_equal h.cache.max_size bin (number_text (key_number h key))
      (λ t. hash_text 5381 t % h.cache.max_size) e

pub found_again :
    (h : Heap) (key bin wp : ℕ) (ys zs : List ℕ) (entries : ℕ → CacheEntry) (table : ℕ → ℕ)
    → IsStored h key bin wp ys zs entries table
    → cache_get (grown h entries table) key ≡ some h.fresh
found_again h key bin wp ys zs entries table v =
    cache_get_present (grown h entries table) key bin ys h.fresh zs v.placed
      (rw (v.named) (key_cmp_self (grown h entries table) key bin v.placed.hashed))

-- If the bin of a key has no entry with it, the cache is not full, its largest size is an `int` and the
-- next pointer is new, cache_set returns the new pointer, the entry has the page, and cache_get then
-- finds that entry.
pub cache_get-cache_set :
    (h : Heap) (key bin wp : ℕ) (ys zs : List ℕ)
    → IsPlaced h key bin ys zs
    → Missing (key_cmp h key) h.entries zs
    → HasRoom h
    → AllNe h.fresh (ys ++ zs)
    → h.fresh ≢ 0
    → key ≢ 0
    → (h' : Heap) × (cache_set h key wp ≡ some (h.fresh, h'))
      × (cache_get h' key ≡ some h.fresh)
      × ((h'.entries h.fresh).wp ≡ wp)
cache_get-cache_set h key bin wp ys zs v m room new nz keyed =
    let (entries, table, v') = cache_set_new h key bin wp ys zs v m room new nz keyed in
    (grown h entries table, v'.stored, found_again h key bin wp ys zs entries table v', v'.page)
