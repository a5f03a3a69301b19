-- ===== src/Cache/Emptied.antt =====
-- fs_flushDataPages of fuse-3.0.2/example/cache_code/filesystem.c: the entries that leave the table.
use Prim.Native.Nat.{Ordering}
use mathlib.Core.Path.{subst}
use cycology.Base.{
  ℕ, ◌≡◌, ◌≢◌, inl, inr, refl, ap, ◌∙◌, sym, true, false, some, List, [], ◌∷◌, arith, add32,
  minus_one, store, store_at, store_other, AllNe, eq-cases, ne→==, Bool-cases, some_injective,
}
use cycology.Cache.Structs.{CacheEntry, Heap}
use cycology.Cache.Keys.{key_number, number_text, strcmp, key_cmp, cache_hash}
use cycology.Cache.Texts.{key_cmp-key_number}
use cycology.Cache.Table.{is_eq, ended, remove_walk, remove_inner, set_bin, cache_remove}
use cycology.Cache.Bins.{Bin}
use cycology.Cache.Agree.{Agrees, cache_hash-Agrees}

-- The bins of the table are lists of entries whose keys have texts, with different numbers in a bin;
-- the entries `xs` are each in the bin of its key.
pub record IsTable (h : Heap) (bins : ℕ → List ℕ) (xs : List ℕ) : Type 0 where
  pub bin : (b : ℕ) → Bin h.entries (h.cache.table b) (bins b)
  pub named :
      (b x : ℕ)
      → ¬ AllNe x (bins b)
      → (text : List ℕ) × (number_text (key_number h (h.entries x).key) ≡ some text)
  pub unique :
      (b x y : ℕ)
      → ¬ AllNe x (bins b)
      → ¬ AllNe y (bins b)
      → key_number h (h.entries x).key ≡ key_number h (h.entries y).key
      → x ≡ y
  pub placed :
      (x : ℕ)
      → ¬ AllNe x xs
      → (b : ℕ) × (cache_hash h (h.entries x).key ≡ some b) × ¬ AllNe x (bins b)

-- what cache_remove leaves
abbrev pub removed : Heap → ℕ → (ℕ → ℕ) → Heap
removed h entry table = record h {
  freed = entry ∷ h.freed;
  cache = record h.cache { table = table; size = add32 h.cache.size minus_one };
}

-- An element of a bin is not null, nor is its key.
in_bin :
    (e : ℕ → CacheEntry) (p x : ℕ) (xs : List ℕ)
    → Bin e p xs
    → ¬ AllNe x xs
    → (x ≢ 0) × ((e x).key ≢ 0)
in_bin e p x [] b there = absurd (there tt)
in_bin e p x (y ∷ ys) (start, nz, keyed, b) there = elim (eq-cases y x) [
  | inl same ↦ subst (λ z. (z ≢ 0) × ((e z).key ≢ 0)) same (nz, keyed)
  | inr ne ↦ in_bin e (e y).next x ys b (λ all. there (ne, all))
]

Bin-equal :
    (e e' : ℕ → CacheEntry) (p : ℕ) (xs : List ℕ)
    → ((x : ℕ) → (e' x).key ≡ (e x).key)
    → ((x : ℕ) → (e' x).next ≡ (e x).next)
    → Bin e p xs
    → Bin e' p xs
Bin-equal e e' p [] keys nexts b = b
Bin-equal e e' p (x ∷ xs) keys nexts (start, nz, keyed, b) =
    (start, nz, rw (keys x) keyed, rw (nexts x) (Bin-equal e e' (e x).next xs keys nexts b))

pub IsTable-Agrees :
    (h h' : Heap) (bins : ℕ → List ℕ) (xs : List ℕ)
    → Agrees h h'
    → IsTable h bins xs
    → IsTable h' bins xs
IsTable-Agrees h h' bins xs a v = record {
  bin = λ b.
      rw (a.table b)
        (Bin-equal h.entries h'.entries (h.cache.table b) (bins b) a.keys a.nexts (v.bin b));
  named = λ b x there. rw (a.keys x, a.numbers x) (v.named b x there);
  unique = λ b x y there there' e. v.unique b x y there there' (
      sym (ap (key_number h') (a.keys x) ∙ a.numbers x)
      ∙ e
      ∙ ap (key_number h') (a.keys y)
      ∙ a.numbers y);
  placed = λ x there.
      (let (b, hashed, inside) = v.placed x there in
        (
          b,
          ap (cache_hash h') (a.keys x)
              ∙ cache_hash-Agrees h h' a (h.entries x).key (a.numbers x)
              ∙ hashed,
          inside,
        ));
}

is_eq_lem : (o : Ordering) → is_eq o ≡ true → o ≡ Ordering.eq
is_eq_lem Ordering.lt e = absurd (ground (arith, e))
is_eq_lem Ordering.eq e = refl
is_eq_lem Ordering.gt e = absurd (ground (arith, e))

-- keyCmp on two keys with texts: a result, which says whether their numbers are equal
compared :
    (h : Heap) (k k' : ℕ)
    → ((text : List ℕ) × (number_text (key_number h k) ≡ some text))
    → ((text : List ℕ) × (number_text (key_number h k') ≡ some text))
    → (o : Ordering) × (key_cmp h k k' ≡ some o)
      × (is_eq o ≡ true → key_number h k ≡ key_number h k')
      × (key_number h k ≡ key_number h k' → is_eq o ≡ true)
unfolding key_cmp
compared h k k' (t, e) (t', e') =
    let result : key_cmp h k k' ≡ some (strcmp t t') = rw (e, e') refl in
    (
      strcmp t t',
      result,
      (λ same.
          (key_cmp-key_number h k k' t t' e e').0
            (result ∙ ap some (is_eq_lem (strcmp t t') same))),
      (λ same. ap is_eq (
          some_injective (strcmp t t') Ordering.eq
            (sym result ∙ (key_cmp-key_number h k k' t t' e e').1 same))),
    )

differ : (o : Ordering) → ¬ (is_eq o ≡ true) → is_eq o ≡ false
differ o ne = elim (Bool-cases (is_eq o)) [ inl e ↦ absurd (ne e) | inr e ↦ e ]

-- An entry leaves the list of those to be removed.
module _ (h : Heap) (bins : ℕ → List ℕ) (e : ℕ) (xs : List ℕ) (out : AllNe e xs)
    (v : IsTable h bins (e ∷ xs)) where
  later : (x : ℕ) → ¬ AllNe x xs → (x ≢ e) × ¬ AllNe x (e ∷ xs)
  later x there = ((λ same. there (subst (λ z. AllNe z xs) (sym same) out)), (λ all. there all.1))

  -- The entry is not the first of its bin, which stays as it is.
  kept_table : IsTable (removed h e h.cache.table) bins xs
  unfolding key_number cache_hash
  kept_table = record {
    bin = v.bin;
    named = v.named;
    unique = v.unique;
    placed = λ x there. v.placed x (later x there).1;
  }

  -- The entry is the first of the bin `b`.
  module _ (b : ℕ) (rest : List ℕ) (first : bins b ≡ e ∷ rest) where
    abbrev popped : ℕ → List ℕ
    popped = store bins b rest

    abbrev table : ℕ → ℕ
    table = store h.cache.table b (h.entries e).next

    still : (b' x : ℕ) → ¬ AllNe x (popped b') → ¬ AllNe x (bins b')
    still b' x there all = elim (eq-cases b' b) [
      | inl same ↦ there (
          subst (AllNe x) (sym (store_at bins b rest b' same))
            (subst (AllNe x) (ap bins same ∙ first) all).1)
      | inr ne ↦ there (subst (AllNe x) (sym (store_other bins b rest b' ne)) all)
    ]

    popped_bin : (b' : ℕ) → Bin h.entries (table b') (popped b')
    popped_bin b' = elim (eq-cases b' b) [
      | inl same ↦
          rw (store_at h.cache.table b (h.entries e).next b' same, store_at bins b rest b' same)
            (subst (Bin h.entries (h.cache.table b)) first (v.bin b)).3
      | inr ne ↦
          rw (store_other h.cache.table b (h.entries e).next b' ne, store_other bins b rest b' ne)
            (v.bin b')
    ]

    popped_placed :
        (x : ℕ)
        → ¬ AllNe x xs
        → (b' : ℕ) × (cache_hash h (h.entries x).key ≡ some b') × ¬ AllNe x (popped b')
    popped_placed x there =
        let (ne, there') = later x there in
        let (b', hashed, inside) = v.placed x there' in
        (
          b',
          hashed,
          λ all. inside (elim (eq-cases b' b) [
            | inl same ↦
                subst (AllNe x) (sym (ap bins same ∙ first))
                  ((λ q. ne (sym q)), subst (AllNe x) (store_at bins b rest b' same) all)
            | inr other ↦ subst (AllNe x) (store_other bins b rest b' other) all
          ]),
        )

    popped_table : IsTable (removed h e table) popped xs
    unfolding key_number cache_hash
    popped_table = record {
      bin = popped_bin;
      named = λ b' x there. v.named b' x (still b' x there);
      unique = λ b' x y there there'. v.unique b' x y (still b' x there) (still b' y there');
      placed = popped_placed;
    }

  -- cache_remove goes through, and the table stays one.
  pub cache_remove-IsTable :
      (b : ℕ) (bs : List ℕ)
      → bins b ≡ bs
      → ¬ AllNe e bs
      → cache_hash h (h.entries e).key ≡ some b
      → (table : ℕ → ℕ) × (bins' : ℕ → List ℕ) × (cache_remove h e ≡ some (removed h e table))
        × IsTable (removed h e table) bins' xs
  unfolding cache_remove remove_inner remove_walk ended set_bin
  cache_remove-IsTable b [] same there hashed = absurd (there tt)
  cache_remove-IsTable b (f ∷ rest) same there hashed =
      let listed : Bin h.entries (h.cache.table b) (f ∷ rest) =
        subst (Bin h.entries (h.cache.table b)) same (v.bin b) in
      let (nze, keyed) = in_bin h.entries (h.cache.table b) e (f ∷ rest) listed there in
      let (start, nzf, keyedf, _) = listed in
      let first_in : ¬ AllNe f (bins b) = λ all. (subst (AllNe f) same all).0 refl in
      let e_in : ¬ AllNe e (bins b) = λ all. there (subst (AllNe e) same all) in
      let (o, c, means, alike) =
        compared h (h.entries f).key (h.entries e).key (v.named b f first_in) (v.named b e e_in) in
      let (o', c', means', _) =
        compared h (h.entries e).key (h.entries f).key (v.named b e e_in) (v.named b f first_in) in
      elim (eq-cases f e) [
        | inl q ↦
            let equal : is_eq o ≡ true = alike (ap (λ z. key_number h (h.entries z).key) q) in
            (
              store h.cache.table b (h.entries e).next,
              store bins b rest,
              rw
                  (
                    ne→== e 0 nze,
                    ne→== (h.entries e).key 0 keyed,
                    hashed,
                    start,
                    ne→== f 0 nzf,
                    ne→== (h.entries f).key 0 keyedf,
                    c,
                    equal,
                  )
                  refl,
              popped_table b rest (same ∙ ap (λ z. z ∷ rest) q),
            )
        | inr ne ↦
            let unlike : is_eq o ≡ false =
              differ o (λ t. ne (v.unique b f e first_in e_in (means t))) in
            let unlike' : is_eq o' ≡ false =
              differ o' (λ t. ne (sym (v.unique b e f e_in first_in (means' t)))) in
            (
              h.cache.table,
              bins,
              rw
                  (
                    ne→== e 0 nze,
                    ne→== (h.entries e).key 0 keyed,
                    hashed,
                    start,
                    ne→== f 0 nzf,
                    ne→== (h.entries f).key 0 keyedf,
                    c,
                    unlike,
                    c',
                    unlike',
                  )
                  refl,
              kept_table,
            )
      ]
