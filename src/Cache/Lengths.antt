-- ===== src/Cache/Lengths.antt =====
-- Which numbers have a text that fits its array.
use cycology.Base.{
  ℕ, zero, suc, ◌+◌, ◌*◌, ◌/◌, ◌%◌, ◌^◌, ◌<◌, ◌≤◌, ◌≡◌, refl, ap, ◌∙◌, true, false, ◌||◌, none,
  some, List, [], ◌∷◌, ◌++◌, arith, ltb, leb, ◌==◌, if◌then◌else◌, eq-cases, eq→==, ne→==, inl, inr,
  length, is_neg, sign_bit,
}
use cycology.Cache.Keys.{digits, ceil_log10, number_text}

length_last : (xs : List ℕ) (x : ℕ) → length (xs ++ x ∷ []) ≡ suc (length xs)
length_last [] x = refl
length_last (y ∷ xs) x = ap suc (length_last xs x)

pow_pos : (k : ℕ) → 0 < 10 ^ k
pow_pos zero = omega arith
pow_pos (suc k) = let h = pow_pos k in omega arith

pow_next : (k : ℕ) → 10 ^ (k + 1) ≡ 10 ^ k * 10
pow_next k = let e : k + 1 ≡ suc k = omega arith in rw e (omega arith)

pow_mono : (k j : ℕ) → k ≤ j → 10 ^ k ≤ 10 ^ j
pow_mono k zero h = let e : k ≡ 0 = omega arith in rw e (omega arith)
pow_mono k (suc j) h = elim (eq-cases k (suc j)) [
  | inl e ↦ rw e (omega arith)
  | inr ne ↦ let h = pow_mono k j (omega arith) in omega arith
]

length-digits : (f k n : ℕ) → k < f → 10 ^ k ≤ n → n < 10 ^ suc k → length (digits f n) ≡ suc k
unfolding digits
length-digits zero k n fuel lo hi = absurd (omega arith)
length-digits (suc f) zero n fuel lo hi = ground arith
length-digits (suc f) (suc k) n fuel lo hi =
    let positive = pow_pos k in
    let large : ltb n 10 ≡ false = ground arith in
    rw
      (
        large,
        length_last (digits f (n / 10)) (48 + n % 10),
        length-digits f k (n / 10) (omega arith) (omega arith) (omega arith),
      )
      refl

ceil_log10_lem :
    (f k power j n : ℕ)
    → power ≡ 10 ^ k
    → k ≤ j
    → j ≤ k + f
    → ((i : ℕ) → i < j → 10 ^ i < n)
    → n ≤ 10 ^ j
    → ceil_log10 f k power n ≡ j
unfolding ceil_log10
ceil_log10_lem zero k power j n e h fuel lo hi = omega arith
ceil_log10_lem (suc f) k power j n e h fuel lo hi = elim (eq-cases k j) [
  | inl q ↦
      let reached : leb n power ≡ true =
        (let p : power ≡ 10 ^ j = e ∙ ap (λ i. 10 ^ i) q in ground arith) in
      rw reached q
  | inr ne ↦
      let below : leb n power ≡ false = (let l = lo k (omega arith) in ground arith) in
      let next = pow_next k in
      rw below
        (ceil_log10_lem f (k + 1) (power * 10) j n (omega arith) (omega arith) (omega arith) lo hi)
]

-- A positive `int` with `k + 1` digits has a text in its array just if it is not `10 ^ k`: the array
-- that cache_hash and keyCmp give a power of ten is one character short.
pub number_text_lem :
    (k n : ℕ)
    → k < 10
    → 10 ^ k ≤ n
    → n < 10 ^ suc k
    → n < sign_bit
    → number_text n ≡ (if n == 10 ^ k then none else some (digits 10 n))
unfolding number_text
number_text_lem k n small lo hi inside =
    let positive = pow_pos k in
    let valid : ((n == 0) || is_neg n) ≡ false = ground arith in
    elim (eq-cases n (10 ^ k)) [
      | inl e ↦
          let logarithm =
            ceil_log10_lem 10 0 1 k n (omega arith) (omega arith) (omega arith)
              (λ i below.
                let h = pow_mono (suc i) k (omega arith) in let p = pow_pos i in omega arith)
              (omega arith) in
          rw (valid, logarithm, length-digits 10 k n small lo hi, eq→== n (10 ^ k) e) (ground arith)
      | inr ne ↦
          let logarithm =
            ceil_log10_lem 10 0 1 (suc k) n (omega arith) (omega arith) (omega arith)
              (λ i below. let h = pow_mono i k (omega arith) in omega arith) (omega arith) in
          rw (valid, logarithm, length-digits 10 k n small lo hi, ne→== n (10 ^ k) ne)
            (ground arith)
    ]
