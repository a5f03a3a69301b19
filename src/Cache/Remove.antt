-- ===== src/Cache/Remove.antt =====
-- cache_remove of an entry that is not the first of its bin.
use Prim.Native.Nat.{Ordering}
use cycology.Base.{ℕ, ◌≡◌, ◌≢◌, refl, false, some, List, ◌∷◌, ne→==, add32, minus_one}
use cycology.Cache.Structs.{Heap}
use cycology.Cache.Keys.{key_cmp, cache_hash}
use cycology.Cache.Table.{is_eq, ended, remove_walk, remove_inner, cache_remove}
use cycology.Cache.Bins.{Bin}

-- An entry whose key differs from that of the first entry of its bin is freed, and the bin keeps all
-- its entries: the loop that looks for the entry before it does not run.
pub cache_remove-Bin :
    (h : Heap) (entry bin first : ℕ) (xs : List ℕ) (o o' : Ordering)
    → entry ≢ 0
    → (h.entries entry).key ≢ 0
    → cache_hash h (h.entries entry).key ≡ some bin
    → Bin h.entries (h.cache.table bin) (first ∷ xs)
    → key_cmp h (h.entries first).key (h.entries entry).key ≡ some o
    → is_eq o ≡ false
    → key_cmp h (h.entries entry).key (h.entries first).key ≡ some o'
    → is_eq o' ≡ false
    → (h' : Heap) × (cache_remove h entry ≡ some h')
      × Bin h'.entries (h'.cache.table bin) (first ∷ xs)
      × (h'.freed ≡ entry ∷ h.freed)
      × (h'.cache.size ≡ add32 h.cache.size minus_one)
unfolding cache_remove remove_inner remove_walk ended
cache_remove-Bin h entry bin first xs o o' nz keyed hashed (start, nz', keyed', b) compared ne
      compared' ne' =
    (
      record h {
        freed = entry ∷ h.freed;
        cache = record h.cache { size = add32 h.cache.size minus_one };
      },
      rw
          (
            ne→== entry 0 nz,
            ne→== (h.entries entry).key 0 keyed,
            hashed,
            start,
            ne→== first 0 nz',
            ne→== (h.entries first).key 0 keyed',
            compared,
            ne,
            compared',
            ne',
          )
          refl,
      (start, nz', keyed', b),
      refl,
      refl,
    )
