-- ===== src/Cache/Texts.antt =====
-- Which keys keyCmp takes for equal.
use Prim.Native.Nat.{Ordering, compare}
use cycology.Base.{
  some_injective, ℕ, zero, suc, ◌+◌, ◌-◌, ◌*◌, ◌/◌, ◌%◌, ◌^◌, ◌<◌, ◌≡◌, refl, ap, ◌∙◌, sym, Bool,
  true, false, ◌||◌, none, some, List, [], ◌∷◌, ◌++◌, arith, ltb, ◌==◌, if◌then◌else◌, Bool-cases,
  inl, inr, length, is_neg,
}
use cycology.Cache.Structs.{Heap}
use cycology.Cache.Keys.{digits, ceil_log10, key_number, number_text, strcmp, key_cmp}

compare_self : (x : ℕ) → compare x x ≡ Ordering.eq
compare_self x = ground arith

compare_eq : (x y : ℕ) → compare x y ≡ Ordering.eq → x ≡ y
compare_eq x y e = ground arith

pub strcmp_self : (xs : List ℕ) → strcmp xs xs ≡ Ordering.eq
unfolding strcmp
strcmp_self [] = refl
strcmp_self (x ∷ xs) = rw (strcmp, compare_self x) (strcmp_self xs)

strcmp_eq : (xs ys : List ℕ) → strcmp xs ys ≡ Ordering.eq → xs ≡ ys
unfolding strcmp
strcmp_eq [] [] e = refl
strcmp_eq [] (y ∷ ys) e = ground arith
strcmp_eq (x ∷ xs) [] e = ground arith
strcmp_eq (x ∷ xs) (y ∷ ys) e = ground (arith, strcmp_eq xs ys, compare_eq x y)

-- the number that decimal digits stand for, from `n` on
abbrev value : ℕ → List ℕ → ℕ
value n [] = n
value n (c ∷ cs) = value (n * 10 + (c - 48)) cs

value-append : (n : ℕ) (xs ys : List ℕ) → value n (xs ++ ys) ≡ value (value n xs) ys
value-append n [] ys = refl
value-append n (x ∷ xs) ys = value-append (n * 10 + (x - 48)) xs ys

value-digits : (f n : ℕ) → n < 10 ^ f → value 0 (digits f n) ≡ n
unfolding digits
value-digits zero n h = omega arith
value-digits (suc f) n h = elim (Bool-cases (ltb n 10)) [
  | inl q ↦ rw q (omega arith)
  | inr q ↦
      rw
        (
          q,
          value-append 0 (digits f (n / 10)) ((48 + n % 10) ∷ []),
          value-digits f (n / 10) (smaller h),
        )
        (omega arith)
]
  where
    smaller : n < 10 ^ suc f → n / 10 < 10 ^ f
    smaller h = omega arith

digits_injective : (m n : ℕ) → m < 10 ^ 10 → n < 10 ^ 10 → digits 10 m ≡ digits 10 n → m ≡ n
digits_injective m n hm hn e = sym (value-digits 10 m hm) ∙ ap (value 0) e ∙ value-digits 10 n hn

guarded :
    (a b : Bool) (text t : List ℕ)
    → (if a then none else if b then none else some text) ≡ some t
    → (text ≡ t) × (a ≡ false)
guarded true b text t e = absurd (ground arith)
guarded false true text t e = absurd (ground arith)
guarded false false text t e = (ground arith, refl)

number_text-digits :
    (n : ℕ) (t : List ℕ) → number_text n ≡ some t → (digits 10 n ≡ t) × (n < 10 ^ 10)
unfolding number_text
number_text-digits n t e =
    let (same, inside) =
      guarded ((n == 0) || is_neg n) (ltb (ceil_log10 10 0 1 n + 1) (length (digits 10 n) + 1))
        (digits 10 n) t e in
    (same, below n inside)
  where
    below : (n : ℕ) → ((n == 0) || is_neg n) ≡ false → n < 10 ^ 10
    below n h = ground arith

-- For two keys whose numbers have texts, keyCmp returns 0 just if the numbers are equal, which are the
-- sums of the file's address, the offset and the level: of different keys too.
pub key_cmp-key_number :
    (h : Heap) (key1 key2 : ℕ) (text1 text2 : List ℕ)
    → number_text (key_number h key1) ≡ some text1
    → number_text (key_number h key2) ≡ some text2
    → (key_cmp h key1 key2 ≡ some Ordering.eq → key_number h key1 ≡ key_number h key2)
      × (key_number h key1 ≡ key_number h key2 → key_cmp h key1 key2 ≡ some Ordering.eq)
unfolding key_cmp
key_cmp-key_number h key1 key2 text1 text2 e1 e2 =
    let compared : key_cmp h key1 key2 ≡ some (strcmp text1 text2) = rw (e1, e2) refl in
    let (digits1, below1) = number_text-digits (key_number h key1) text1 e1 in
    let (digits2, below2) = number_text-digits (key_number h key2) text2 e2 in
    (
      (λ e. digits_injective (key_number h key1) (key_number h key2) below1 below2 (
          digits1
          ∙ strcmp_eq text1 text2
              (some_injective (strcmp text1 text2) Ordering.eq (sym compared ∙ e))
          ∙ sym digits2)),
      (λ e.
          compared
          ∙ ap (λ t. some (strcmp text1 t))
              (sym (some_injective text1 text2 (sym e1 ∙ ap number_text e ∙ e2)))
          ∙ ap some (strcmp_self text1)),
    )
