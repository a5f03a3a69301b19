-- ===== src/Cache/Link.antt =====
-- The links of a new entry that cache_set puts into a bin.
use Prim.Native.Nat.{Ordering}
use mathlib.Core.Path.{subst}
use cycology.Base.{
  slt, slt_nonneg, lt→ltb, add32, sign_bit, true, ℕ, ◌+◌, ◌<◌, ◌≡◌, ◌≢◌, refl, ap, ◌∙◌, sym, Option,
  some, List, [], ◌∷◌, ◌++◌, arith, store, AllNe, Distinct-insert, length_insert, store_same,
  store_keeps, store_other, AllNe-append, ne→==, eq→==,
}
use cycology.Cache.Structs.{CacheEntry, Heap}
use cycology.Cache.Keys.{key_number, key_cmp, cache_hash}
use cycology.Cache.Table.{new_entry, cache_new_entry, set_next, set_bin, link_entry}
use cycology.Cache.Bins.{
  Bin, Compared, first_of, last_of, last_of_ne, last_of_nonnull, Bin-start, Bin-append, Bin-store,
  Bin-insert, Compared-store, Compared-store_new,
}
use cycology.Cache.Lookup.{IsPlaced}

-- an entry without its place in its bin
abbrev pub links : CacheEntry → CacheEntry
links e = record e { next = 0 }

-- The cache is not full, and its size is an `int`.
abbrev pub HasRoom : Heap → Type 0
HasRoom h = (h.cache.size < h.cache.max_size) × (h.cache.max_size < sign_bit)

-- the heap after a new entry, with its entries and its table
abbrev pub grown : Heap → (ℕ → CacheEntry) → (ℕ → ℕ) → Heap
grown h entries table = record h {
  entries = entries;
  cache = record h.cache { size = h.cache.size + 1; table = table };
  fresh = h.fresh + 1;
}

module _ (h : Heap) (key bin wp : ℕ) where
  pub new_entry_lem :
      HasRoom h
      → cache_new_entry h key wp
        ≡ (h.fresh, grown h (store h.entries h.fresh (new_entry key wp)) h.cache.table)
  unfolding cache_new_entry
  new_entry_lem (room, small) =
      let less : slt h.cache.size h.cache.max_size ≡ true =
        slt_nonneg h.cache.size h.cache.max_size (omega arith) small
        ∙ lt→ltb h.cache.size h.cache.max_size room in
      let one_more : add32 h.cache.size 1 ≡ h.cache.size + 1 = omega arith in
      rw (less, one_more) refl

  grown-IsPlaced :
      (ys zs : List ℕ) (entries : ℕ → CacheEntry) (table : ℕ → ℕ)
      → IsPlaced h key bin ys zs
      → AllNe h.fresh (ys ++ zs)
      → Bin entries (table bin) (ys ++ h.fresh ∷ zs)
      → Compared Ordering.gt (key_cmp h key) entries ys
      → IsPlaced (grown h entries table) key bin ys (h.fresh ∷ zs)
  unfolding cache_hash key_cmp key_number
  grown-IsPlaced ys zs entries table v new b c = record {
    hashed = v.hashed;
    listed = b;
    apart = Distinct-insert ys h.fresh zs v.apart new;
    before = c;
    counted = let one_more = length_insert ys h.fresh zs in let small = v.counted in omega arith;
  }

  -- `result` is a heap with the new entry behind `ys`, whose entries have the fields of their lists.
  unfoldable pub IsLinked : Option Heap → List ℕ → List ℕ → Type 0
  IsLinked result ys zs =
      (entries : ℕ → CacheEntry) × (table : ℕ → ℕ) × (result ≡ some (grown h entries table))
      × IsPlaced (grown h entries table) key bin ys (h.fresh ∷ zs)
      × ((entries h.fresh).key ≡ key)
      × ((entries h.fresh).wp ≡ wp)
      × ((x : ℕ) → links (entries x) ≡ links (store h.entries h.fresh (new_entry key wp) x))
      × ((x : ℕ) → x ≢ h.fresh → x ≢ last_of 0 ys → (entries x).next ≡ (h.entries x).next)
      × ((b : ℕ) → b ≢ bin → table b ≡ h.cache.table b)

  link_front :
      (zs : List ℕ)
      → IsPlaced h key bin [] zs
      → AllNe h.fresh zs
      → h.fresh ≢ 0
      → key ≢ 0
      → IsLinked
          (link_entry
            (grown h (store h.entries h.fresh (new_entry key wp)) h.cache.table)
            bin
            0
            (first_of zs)
            h.fresh)
          []
          zs
  unfolding IsLinked link_entry set_next set_bin
  link_front zs v new nz keyed =
      let n : ℕ = h.fresh in
      let e : ℕ → CacheEntry = store h.entries n (new_entry key wp) in
      let entry : CacheEntry = record (e n) { next = first_of zs } in
      let own : e n ≡ new_entry key wp = store_same h.entries n (new_entry key wp) in
      let placed : store e n entry n ≡ entry = store_same e n entry in
      (
        store e n entry,
        store h.cache.table bin n,
        rw
            (
              eq→== (first_of zs) (h.cache.table bin)
                  (sym (Bin-start h.entries (h.cache.table bin) zs v.listed)),
              ne→== n 0 nz,
            )
            refl,
        grown-IsPlaced [] zs (store e n entry) (store h.cache.table bin n) v new
            (
              store_same h.cache.table bin n,
              nz,
              rw (placed, own) keyed,
              subst (λ s. Bin (store e n entry) s zs) (sym (ap (λ x. x.next) placed))
                  (Bin-store e n entry (first_of zs) zs new (
                    Bin-store h.entries n (new_entry key wp) (first_of zs) zs new
                      (Bin-append h.entries (h.cache.table bin) [] zs v.listed))),
            )
            tt,
        ap (λ x. x.key) placed ∙ ap (λ x. x.key) own,
        ap (λ x. x.wp) placed ∙ ap (λ x. x.wp) own,
        (λ x. store_keeps links e n entry refl x),
        (λ x q q'.
            ap (λ l. l.next)
              (store_other e n entry x q ∙ store_other h.entries n (new_entry key wp) x q)),
        (λ b q. store_other h.cache.table bin n b q),
      )

  link_behind :
      (y : ℕ) (ys zs : List ℕ) (e : ℕ → CacheEntry)
      → IsPlaced h key bin (y ∷ ys) zs
      → AllNe h.fresh (y ∷ ys ++ zs)
      → h.fresh ≢ 0
      → key ≢ 0
      → (e h.fresh).key ≡ key
      → (e h.fresh).wp ≡ wp
      → (e h.fresh).next ≡ first_of zs
      → Bin e (h.cache.table bin) (y ∷ ys ++ zs)
      → Compared Ordering.gt (key_cmp h key) e (y ∷ ys)
      → ((x : ℕ) → links (e x) ≡ links (store h.entries h.fresh (new_entry key wp) x))
      → ((x : ℕ) → x ≢ h.fresh → (e x).next ≡ (h.entries x).next)
      → IsLinked (set_next (grown h e h.cache.table) (last_of y ys) h.fresh) (y ∷ ys) zs
  unfolding IsLinked set_next
  link_behind y ys zs e v new nz keyed own page leads b c same kept_next =
      let n : ℕ = h.fresh in
      let last : ℕ = last_of y ys in
      let entry : CacheEntry = record (e last) { next = n } in
      let apart : last ≢ n = last_of_ne n y ys (AllNe-append n (y ∷ ys) zs new).0 in
      let kept : store e last entry n ≡ e n = store_other e last entry n (λ q. apart (sym q)) in
      (
        store e last entry,
        h.cache.table,
        rw (ne→== last 0 (last_of_nonnull e (h.cache.table bin) y ys zs b)) refl,
        grown-IsPlaced (y ∷ ys) zs (store e last entry) h.cache.table v new
            (Bin-insert e n (h.cache.table bin) y ys zs nz (λ q. keyed (sym own ∙ q)) leads new
              v.apart b)
            (Compared-store Ordering.gt (key_cmp h key) e last entry (y ∷ ys) refl c),
        ap (λ x. x.key) kept ∙ own,
        ap (λ x. x.wp) kept ∙ page,
        (λ x. store_keeps links e last entry refl x ∙ same x),
        (λ x q q'. ap (λ l. l.next) (store_other e last entry x q') ∙ kept_next x q),
        (λ b q. refl),
      )

  pub link_lem :
      (ys zs : List ℕ)
      → IsPlaced h key bin ys zs
      → AllNe h.fresh (ys ++ zs)
      → h.fresh ≢ 0
      → key ≢ 0
      → IsLinked
          (link_entry
            (grown h (store h.entries h.fresh (new_entry key wp)) h.cache.table)
            bin
            (last_of 0 ys)
            (first_of zs)
            h.fresh)
          ys
          zs
  unfolding link_entry set_next
  link_lem [] zs v new nz keyed = link_front zs v new nz keyed
  link_lem (y ∷ ys) [] v new nz keyed =
      let n : ℕ = h.fresh in
      let own : store h.entries n (new_entry key wp) n ≡ new_entry key wp =
        store_same h.entries n (new_entry key wp) in
      rw (v.listed.0, ne→== 0 y (λ q. v.listed.1 (sym q)))
        (link_behind y ys [] (store h.entries n (new_entry key wp)) v new nz keyed
          (ap (λ x. x.key) own) (ap (λ x. x.wp) own) (ap (λ x. x.next) own)
          (Bin-store h.entries n (new_entry key wp) (h.cache.table bin) (y ∷ ys ++ []) new v.listed)
          (Compared-store_new Ordering.gt (key_cmp h key) h.entries n (new_entry key wp) (y ∷ ys)
            (AllNe-append n (y ∷ ys) [] new).0 v.before)
          (λ x. refl) (λ x q. ap (λ l. l.next) (store_other h.entries n (new_entry key wp) x q)))
  link_lem (y ∷ ys) (z ∷ zs) v new nz keyed =
      let n : ℕ = h.fresh in
      let e : ℕ → CacheEntry = store h.entries n (new_entry key wp) in
      let entry : CacheEntry = record (e n) { next = z } in
      let own : e n ≡ new_entry key wp = store_same h.entries n (new_entry key wp) in
      let placed : store e n entry n ≡ entry = store_same e n entry in
      let (_, full, _, _) = Bin-append h.entries (h.cache.table bin) (y ∷ ys) (z ∷ zs) v.listed in
      let (_, (apart, _)) = AllNe-append y ys (z ∷ zs) v.apart.0 in
      rw (v.listed.0, ne→== z y apart, ne→== z 0 full, ne→== n 0 nz)
        (link_behind y ys (z ∷ zs) (store e n entry) v new nz keyed
          (ap (λ x. x.key) placed ∙ ap (λ x. x.key) own)
          (ap (λ x. x.wp) placed ∙ ap (λ x. x.wp) own) (ap (λ x. x.next) placed)
          (Bin-store e n entry (h.cache.table bin) (y ∷ ys ++ z ∷ zs) new (
            Bin-store h.entries n (new_entry key wp) (h.cache.table bin) (y ∷ ys ++ z ∷ zs) new
              v.listed))
          (Compared-store_new Ordering.gt (key_cmp h key) e n entry (y ∷ ys)
            (AllNe-append n (y ∷ ys) (z ∷ zs) new).0
            (Compared-store_new Ordering.gt (key_cmp h key) h.entries n (new_entry key wp) (y ∷ ys)
              (AllNe-append n (y ∷ ys) (z ∷ zs) new).0 v.before))
          (λ x. store_keeps links e n entry refl x)
          (λ x q.
            ap (λ l. l.next)
              (store_other e n entry x q ∙ store_other h.entries n (new_entry key wp) x q)))
