-- ===== src/Cache/Order.antt =====
-- keyCmp of fuse-3.0.2/example/cache_code/cache.c as an order, and the places in a bin.
use Prim.Native.Nat.{Ordering}
use mathlib.Core.Path.{subst}
use cycology.Base.{
  ℕ, ◌≡◌, ◌≢◌, ◌⊎◌, inl, inr, refl, ap, ◌∙◌, sym, Option, none, some, ◌>>=◌, List, [], ◌∷◌, ◌++◌,
  arith, some_injective,
}
use cycology.Cache.Lookup.{Missing}
use cycology.Cache.Structs.{CacheEntry, Heap}
use cycology.Cache.Keys.{number_text, key_number, strcmp, key_cmp}
use cycology.Cache.Bins.{Bin, Compared, first_of}

head_same : (x y : ℕ) (xs ys : List ℕ) → x ∷ xs ≡ y ∷ ys → x ≡ y
head_same x y xs ys e = ap (λ l. first_of l) e

abbrev tail_of : List ℕ → List ℕ
tail_of [] = []
tail_of (x ∷ xs) = xs

tail_same : (x y : ℕ) (xs ys : List ℕ) → x ∷ xs ≡ y ∷ ys → xs ≡ ys
tail_same x y xs ys e = ap tail_of e

above :
    (a b c : List ℕ)
    → strcmp a b ≡ Ordering.lt
    → strcmp c b ≢ Ordering.lt
    → strcmp c a ≡ Ordering.gt
unfolding strcmp
above [] [] c less more = absurd (ground (arith, less))
above (x ∷ a) [] c less more = absurd (ground (arith, less))
above a (y ∷ b) [] less more = absurd (more refl)
above [] (y ∷ b) (z ∷ c) less more = refl
above (x ∷ a) (y ∷ b) (z ∷ c) less more = ground (arith, above a b c, less, more)

-- A key that is not less than the third one, which is greater than another, is greater than that.
pub key_cmp-above :
    (h : Heap) (key key' third : ℕ) (o : Ordering)
    → key_cmp h key third ≡ some Ordering.lt
    → key_cmp h key' third ≡ some o
    → o ≢ Ordering.lt
    → key_cmp h key' key ≡ some Ordering.gt
unfolding key_cmp
key_cmp-above h key key' third o less more ne =
    texts_above (number_text (key_number h key)) (number_text (key_number h third))
      (number_text (key_number h key')) o less more ne
  where
    texts_above :
        (a b c : Option (List ℕ)) (o : Ordering)
        → (a >>= λ s. b >>= λ t. some (strcmp s t)) ≡ some Ordering.lt
        → (c >>= λ s. b >>= λ t. some (strcmp s t)) ≡ some o
        → o ≢ Ordering.lt
        → (c >>= λ s. a >>= λ t. some (strcmp s t)) ≡ some Ordering.gt
    texts_above none b c o less more ne = absurd (ground (arith, less))
    texts_above (some a) none c o less more ne = absurd (ground (arith, less))
    texts_above (some a) (some b) none o less more ne = absurd (ground (arith, more))
    texts_above (some a) (some b) (some c) o less more ne = ap some (
        above a b c (some_injective (strcmp a b) Ordering.lt less)
          (λ q. ne (sym (some_injective (strcmp c b) o more) ∙ q)))

-- A bin holds one list.
pub Bin-same : (e : ℕ → CacheEntry) (p : ℕ) (xs ys : List ℕ) → Bin e p xs → Bin e p ys → xs ≡ ys
Bin-same e p [] [] b b' = refl
Bin-same e p [] (y ∷ ys) b (start, nz, keyed, c) = absurd (nz (sym start ∙ b))
Bin-same e p (x ∷ xs) [] (start, nz, keyed, b) b' = absurd (nz (sym start ∙ b'))
Bin-same e p (x ∷ xs) (y ∷ ys) (start, nz, keyed, b) (start', nz', keyed', b') =
    let same : x ≡ y = sym start ∙ start' in
    ap (λ z. z ∷ xs) same
    ∙ ap (λ r. y ∷ r) (Bin-same e (e y).next xs ys (subst (λ z. Bin e (e z).next xs) same b) b')

-- An element lies before or behind the place between two parts of its list.
pub placed_cases :
    (ys zs ys' : List ℕ) (x : ℕ) (zs' : List ℕ)
    → ys ++ zs ≡ ys' ++ x ∷ zs'
    → ((r : List ℕ) × (ys ≡ ys' ++ x ∷ r) × (zs' ≡ r ++ zs))
      ⊎ ((r : List ℕ) × (ys' ≡ ys ++ r) × (zs ≡ r ++ x ∷ zs'))
placed_cases [] zs ys' x zs' e = inr (ys', refl, e)
placed_cases (y ∷ ys) zs [] x zs' e =
    inl
      (ys, ap (λ z. z ∷ ys) (head_same y x (ys ++ zs) zs' e), sym (tail_same y x (ys ++ zs) zs' e))
placed_cases (y ∷ ys) zs (y' ∷ ys') x zs' e =
    let first : y ≡ y' = head_same y y' (ys ++ zs) (ys' ++ x ∷ zs') e in
    elim (placed_cases ys zs ys' x zs' (tail_same y y' (ys ++ zs) (ys' ++ x ∷ zs') e)) [
      | inl (r, left, right) ↦ inl (r, ap (λ z. z ∷ ys) first ∙ ap (λ l. y' ∷ l) left, right)
      | inr (r, left, right) ↦ inr (r, ap (λ z. z ∷ ys') (sym first) ∙ ap (λ l. y ∷ l) left, right)
    ]

pub append_insert :
    (ys : List ℕ) (x : ℕ) (r : List ℕ) (n : ℕ) (zs : List ℕ)
    → (ys ++ x ∷ r) ++ n ∷ zs ≡ ys ++ x ∷ (r ++ n ∷ zs)
append_insert [] x r n zs = refl
append_insert (y ∷ ys) x r n zs = ap (λ l. y ∷ l) (append_insert ys x r n zs)

pub append_behind :
    (ys : List ℕ) (n : ℕ) (r zs : List ℕ) → ys ++ n ∷ (r ++ zs) ≡ (ys ++ n ∷ r) ++ zs
append_behind [] n r zs = refl
append_behind (y ∷ ys) n r zs = ap (λ l. y ∷ l) (append_behind ys n r zs)

pub Compared-split :
    (o : Ordering) (cmp : ℕ → Option Ordering) (e : ℕ → CacheEntry) (ys r : List ℕ)
    → Compared o cmp e (ys ++ r)
    → Compared o cmp e r
Compared-split o cmp e [] r c = c
Compared-split o cmp e (y ∷ ys) r (c, cs) = Compared-split o cmp e ys r cs

pub Compared-between :
    (o : Ordering) (cmp : ℕ → Option Ordering) (e : ℕ → CacheEntry) (ys : List ℕ) (n : ℕ)
    (r : List ℕ)
    → cmp (e n).key ≡ some o
    → Compared o cmp e (ys ++ r)
    → Compared o cmp e (ys ++ n ∷ r)
Compared-between o cmp e [] n r new c = (new, c)
Compared-between o cmp e (y ∷ ys) n r new (c, cs) = (c, Compared-between o cmp e ys n r new cs)

-- The key of an entry behind the place of a key is greater.
pub behind-above :
    (h : Heap) (key key' entry : ℕ) (r zs' : List ℕ)
    → Missing (key_cmp h key) h.entries (r ++ entry ∷ zs')
    → Compared Ordering.gt (key_cmp h key') h.entries r
    → key_cmp h key' (h.entries entry).key ≡ some Ordering.eq
    → key_cmp h key' key ≡ some Ordering.gt
behind-above h key key' entry [] zs' m c same =
    key_cmp-above h key key' (h.entries entry).key Ordering.eq m same (λ q. ground (arith, q))
behind-above h key key' entry (x ∷ r) zs' m (c, cs) same =
    key_cmp-above h key key' (h.entries x).key Ordering.gt m c (λ q. ground (arith, q))
