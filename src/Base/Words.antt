-- ===== src/Base/Words.antt =====
-- C's `int`: a word is the bit pattern, a number below 2 ^ 32; from 2 ^ 31 on it is negative.
use Prim.Native.Nat.{ℕ, ◌+◌, ◌-◌, ◌*◌, ◌/◌, ◌%◌, ◌^◌, ◌<◌}
use mathlib.Core.Path.{◌≡◌}
use mathlib.Core.Bool.{Bool}
use native.Mathlib.Omega.{arith}
use cycology.Base.Tests.{ltb, leb, if◌then◌else◌}

abbrev pub word_mod : ℕ
word_mod = 2 ^ 32

abbrev pub sign_bit : ℕ
sign_bit = 2 ^ 31

abbrev pub minus_one : ℕ
minus_one = 2 ^ 32 - 1

abbrev pub is_neg : ℕ → Bool
is_neg w = leb sign_bit w

abbrev pub add32 : ℕ → ℕ → ℕ
add32 a b = (a + b) % word_mod

abbrev pub mul32 : ℕ → ℕ → ℕ
mul32 a b = (a * b) % word_mod

-- unary minus
abbrev pub neg32 : ℕ → ℕ
neg32 w = (word_mod - w) % word_mod

abbrev pub abs32 : ℕ → ℕ
abs32 w = if is_neg w then neg32 w else w

-- C's `/` and `%` by a positive constant: both round towards zero.
abbrev pub div32 : ℕ → ℕ → ℕ
div32 w m = if is_neg w then neg32 (neg32 w / m) else w / m

abbrev pub rem32 : ℕ → ℕ → ℕ
rem32 w m = if is_neg w then neg32 (neg32 w % m) else w % m

-- signed `a < b`
abbrev pub slt : ℕ → ℕ → Bool
slt a b = ltb ((a + sign_bit) % word_mod) ((b + sign_bit) % word_mod)

pub rem32_nonneg : (w m : ℕ) → w < sign_bit → rem32 w m ≡ w % m
rem32_nonneg w m h = ground arith

pub div32_nonneg : (w m : ℕ) → w < sign_bit → div32 w m ≡ w / m
div32_nonneg w m h = ground arith

pub slt_nonneg : (a b : ℕ) → a < sign_bit → b < sign_bit → slt a b ≡ ltb a b
slt_nonneg a b ha hb = ground arith
