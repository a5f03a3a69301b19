-- ===== src/Base/Lists.antt =====
-- Lists measured by native numbers, lists of different numbers, and stores into arrays.
use Prim.Native.Nat.{ℕ, suc}
use mathlib.Core.List.{List, [], ◌∷◌, ◌++◌}
use mathlib.Core.Logic.{◌≢◌, inl, inr}
use mathlib.Core.Path.{◌≡◌, refl, ap, sym, ◌∙◌}
use cycology.Base.Tests.{◌==◌, if◌then◌else◌, eq→==, ne→==, eq-cases}

abbrev pub length {ℓ} : {A : Type ℓ} → List A → ℕ
length [] = 0
length (x ∷ xs) = suc (length xs)

-- no element is `a`
abbrev pub AllNe : ℕ → List ℕ → Type 0
AllNe a [] = Unit {0}
AllNe a (x ∷ xs) = (x ≢ a) × AllNe a xs

-- all elements are different
abbrev pub Distinct : List ℕ → Type 0
Distinct [] = Unit {0}
Distinct (x ∷ xs) = AllNe x xs × Distinct xs

-- `a[i] = x`
abbrev pub store {ℓ} : {A : Type ℓ} → (ℕ → A) → ℕ → A → ℕ → A
store a i x j = if j == i then x else a j

pub store_same {ℓ} : {A : Type ℓ} (a : ℕ → A) (i : ℕ) (x : A) → store a i x i ≡ x
store_same a i x = rw (eq→== i i refl) refl

pub store_at {ℓ} : {A : Type ℓ} (a : ℕ → A) (i : ℕ) (x : A) (j : ℕ) → j ≡ i → store a i x j ≡ x
store_at a i x j e = rw (eq→== j i e) refl

pub store_other {ℓ} : {A : Type ℓ} (a : ℕ → A) (i : ℕ) (x : A) (j : ℕ) → j ≢ i → store a i x j ≡ a j
store_other a i x j ne = rw (ne→== j i ne) refl

-- what a store of a value with the same image keeps
pub store_keeps {ℓ κ} :
    {A : Type ℓ} {B : Type κ} (f : A → B) (a : ℕ → A) (i : ℕ) (v : A)
    → f v ≡ f (a i)
    → (j : ℕ) → f (store a i v j) ≡ f (a j)
store_keeps f a i v same j = elim (eq-cases j i) [
  | inl e ↦ ap f (rw (eq→== j i e) refl) ∙ same ∙ ap (λ k. f (a k)) (sym e)
  | inr ne ↦ ap f (store_other a i v j ne)
]

pub AllNe-append : (a : ℕ) (xs ys : List ℕ) → AllNe a (xs ++ ys) → AllNe a xs × AllNe a ys
AllNe-append a [] ys h = (tt, h)
AllNe-append a (x ∷ xs) ys h = let (left, right) = AllNe-append a xs ys h.1 in ((h.0, left), right)

pub append-AllNe : (a : ℕ) (xs ys : List ℕ) → AllNe a xs → AllNe a ys → AllNe a (xs ++ ys)
append-AllNe a [] ys h h' = h'
append-AllNe a (x ∷ xs) ys h h' = (h.0, append-AllNe a xs ys h.1 h')

-- An element in the middle differs from the others, which differ among themselves.
pub Distinct-middle :
    (xs : List ℕ) (x : ℕ) (ys : List ℕ)
    → Distinct (xs ++ x ∷ ys)
    → AllNe x xs × AllNe x ys × Distinct (xs ++ ys)
Distinct-middle [] x ys d = (tt, d.0, d.1)
Distinct-middle (z ∷ xs) x ys d =
    let (left, right, rest) = Distinct-middle xs x ys d.1 in
    let (apart, apart') = AllNe-append z xs (x ∷ ys) d.0 in
    (((λ e. apart'.0 (sym e)), left), right, (append-AllNe z xs ys apart apart'.1, rest))

pub append-Distinct : (xs : List ℕ) (x : ℕ) → Distinct xs → AllNe x xs → Distinct (xs ++ x ∷ [])
append-Distinct [] x d ne = (tt, tt)
append-Distinct (y ∷ xs) x d ne =
    (append-AllNe y xs (x ∷ []) d.0 (λ e. ne.0 (sym e), tt), append-Distinct xs x d.1 ne.1)

pub Distinct-append : (xs ys : List ℕ) → Distinct (xs ++ ys) → Distinct xs × Distinct ys
Distinct-append [] ys d = (tt, d)
Distinct-append (x ∷ xs) ys d =
    let (left, right) = Distinct-append xs ys d.1 in
    let (apart, _) = AllNe-append x xs ys d.0 in ((apart, left), right)

pub Distinct-insert :
    (xs : List ℕ) (x : ℕ) (ys : List ℕ)
    → Distinct (xs ++ ys)
    → AllNe x (xs ++ ys)
    → Distinct (xs ++ x ∷ ys)
Distinct-insert [] x ys d ne = (ne, d)
Distinct-insert (z ∷ xs) x ys d ne =
    let (left, right) = AllNe-append z xs ys d.0 in
    (append-AllNe z xs (x ∷ ys) left (λ e. ne.0 (sym e), right), Distinct-insert xs x ys d.1 ne.1)

pub length_insert :
    (xs : List ℕ) (x : ℕ) (ys : List ℕ) → length (xs ++ x ∷ ys) ≡ suc (length (xs ++ ys))
length_insert [] x ys = refl
length_insert (z ∷ xs) x ys = ap suc (length_insert xs x ys)

pub append_nil : (xs : List ℕ) → xs ++ [] ≡ xs
append_nil [] = refl
append_nil (x ∷ xs) = ap (λ ys. x ∷ ys) (append_nil xs)
