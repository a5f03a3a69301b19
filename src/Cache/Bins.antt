-- ===== src/Cache/Bins.antt =====
-- The bins of the table of entries as lists, and the walk along one.
use Prim.Native.Nat.{Ordering}
use mathlib.Core.Path.{subst}
use cycology.Base.{
  ℕ, zero, suc, ◌<◌, ◌≡◌, ap, ◌≢◌, refl, ◌∙◌, sym, false, Option, some, List, [], ◌∷◌, ◌++◌, arith,
  store, store_keeps, length, AllNe, Distinct, AllNe-append, eq→==, ne→==,
}
use cycology.Cache.Structs.{CacheEntry, Heap}
use cycology.Cache.Keys.{key_cmp}
use cycology.Cache.Table.{is_gt, ended, walk}

-- from `p` on the fields `next` lead through the entries `xs`, whose keys are not null, to the end
abbrev pub Bin : (ℕ → CacheEntry) → ℕ → List ℕ → Type 0
Bin e p [] = p ≡ 0
Bin e p (x ∷ xs) = (p ≡ x) × (x ≢ 0) × ((e x).key ≢ 0) × Bin e (e x).next xs

-- all entries have keys that compare as `o`
abbrev pub Compared : Ordering → (ℕ → Option Ordering) → (ℕ → CacheEntry) → List ℕ → Type 0
Compared o cmp e [] = Unit {0}
Compared o cmp e (x ∷ xs) = (cmp (e x).key ≡ some o) × Compared o cmp e xs

abbrev pub first_of : List ℕ → ℕ
first_of [] = 0
first_of (x ∷ xs) = x

abbrev pub last_of : ℕ → List ℕ → ℕ
last_of last [] = last
last_of last (x ∷ xs) = last_of x xs

-- the first entry, if there is one, has a key that is not less
abbrev pub Stops : (ℕ → Option Ordering) → (ℕ → CacheEntry) → List ℕ → Type 0
Stops cmp e [] = Unit {0}
Stops cmp e (x ∷ xs) = (o : Ordering) × (cmp (e x).key ≡ some o) × (is_gt o ≡ false)

pub Bin-start : (e : ℕ → CacheEntry) (p : ℕ) (xs : List ℕ) → Bin e p xs → p ≡ first_of xs
Bin-start e p [] b = b
Bin-start e p (x ∷ xs) b = b.0

pub Bin-append :
    (e : ℕ → CacheEntry) (p : ℕ) (ys zs : List ℕ) → Bin e p (ys ++ zs) → Bin e (first_of zs) zs
Bin-append e p [] zs b = subst (λ s. Bin e s zs) (Bin-start e p zs b) b
Bin-append e p (y ∷ ys) zs (start, nz, keyed, b) = Bin-append e (e y).next ys zs b

pub Bin-store :
    (e : ℕ → CacheEntry) (k : ℕ) (v : CacheEntry) (p : ℕ) (xs : List ℕ)
    → AllNe k xs
    → Bin e p xs
    → Bin (store e k v) p xs
Bin-store e k v p [] ne b = b
Bin-store e k v p (x ∷ xs) ne (start, nz, keyed, b) =
    rw (ne→== x k ne.0) (start, nz, keyed, Bin-store e k v (e x).next xs ne.1 b)

pub last_of_nonnull :
    (e : ℕ → CacheEntry) (p y : ℕ) (ys zs : List ℕ) → Bin e p (y ∷ ys ++ zs) → last_of y ys ≢ 0
last_of_nonnull e p y [] zs b = b.1
last_of_nonnull e p y (w ∷ ws) zs (start, nz, keyed, b) = last_of_nonnull e (e y).next w ws zs b

pub last_of_ne : (k y : ℕ) (ys : List ℕ) → AllNe k (y ∷ ys) → last_of y ys ≢ k
last_of_ne k y [] ne = ne.0
last_of_ne k y (w ∷ ws) ne = last_of_ne k w ws ne.1

pub Compared-store :
    (o : Ordering) (cmp : ℕ → Option Ordering) (e : ℕ → CacheEntry) (k : ℕ) (v : CacheEntry)
    (xs : List ℕ)
    → v.key ≡ (e k).key
    → Compared o cmp e xs
    → Compared o cmp (store e k v) xs
Compared-store o cmp e k v [] same c = tt
Compared-store o cmp e k v (x ∷ xs) same (c, cs) =
    (ap cmp (store_keeps (λ e. e.key) e k v same x) ∙ c, Compared-store o cmp e k v xs same cs)

pub Compared-store_new :
    (o : Ordering) (cmp : ℕ → Option Ordering) (e : ℕ → CacheEntry) (k : ℕ) (v : CacheEntry)
    (xs : List ℕ)
    → AllNe k xs
    → Compared o cmp e xs
    → Compared o cmp (store e k v) xs
Compared-store_new o cmp e k v [] ne c = tt
Compared-store_new o cmp e k v (x ∷ xs) ne (c, cs) =
    (rw (ne→== x k ne.0) c, Compared-store_new o cmp e k v xs ne.1 cs)

-- a new entry after the last of `y ∷ ys`
pub Bin-insert :
    (e : ℕ → CacheEntry) (n p y : ℕ) (ys zs : List ℕ)
    → n ≢ 0
    → (e n).key ≢ 0
    → (e n).next ≡ first_of zs
    → AllNe n (y ∷ ys ++ zs)
    → Distinct (y ∷ ys ++ zs)
    → Bin e p (y ∷ ys ++ zs)
    → Bin (store e (last_of y ys) (record (e (last_of y ys)) { next = n })) p (y ∷ ys ++ n ∷ zs)
Bin-insert e n p y [] zs nz keyed leads out apart (start, nz', keyed', b) =
    rw (eq→== y y refl, ne→== n y (λ q. out.0 (sym q)))
      (
        start,
        nz',
        keyed',
        (
          refl,
          nz,
          keyed,
          Bin-store e y (record (e y) { next = n }) (e n).next zs apart.0
              (subst (λ s. Bin e s zs) (Bin-start e (e y).next zs b ∙ sym leads) b),
        ),
      )
Bin-insert e n p y (w ∷ ws) zs nz keyed leads out apart (start, nz', keyed', b) =
    let front : AllNe y (w ∷ ws) = (AllNe-append y (w ∷ ws) zs apart.0).0 in
    rw (ne→== y (last_of w ws) (λ q. last_of_ne y w ws front (sym q)))
      (start, nz', keyed', Bin-insert e n (e y).next w ws zs nz keyed leads out.1 apart.1 b)

module _ (h : Heap) (key : ℕ) where
  pub walk-Bin :
      (f last p : ℕ) (ys zs : List ℕ)
      → length ys < f
      → Bin h.entries p (ys ++ zs)
      → Compared Ordering.gt (key_cmp h key) h.entries ys
      → Stops (key_cmp h key) h.entries zs
      → walk f h key last p ≡ some (last_of last ys, first_of zs)
  unfolding walk ended
  walk-Bin zero last p ys zs fuel b c s = absurd (omega arith)
  walk-Bin (suc f) last p [] [] fuel b c s = rw b refl
  walk-Bin (suc f) last p [] (z ∷ zs) fuel (start, nz, keyed, b) c (o, same, stop) =
      rw (start, ne→== z 0 nz, ne→== (h.entries z).key 0 keyed, same, stop) refl
  walk-Bin (suc f) last p (y ∷ ys) zs fuel (start, nz, keyed, b) (c, cs) s =
      rw (start, ne→== y 0 nz, ne→== (h.entries y).key 0 keyed, c)
        (walk-Bin f y (h.entries y).next ys zs (omega arith) b cs s)
