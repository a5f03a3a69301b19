-- ===== src/Addresses/Alloc.antt =====
-- The unused entries of the address map form a list: `freePtr` is the first of them, and each holds
-- minus the next, the last 0.
use mathlib.Core.Path.{subst, ap₂}
use cycology.Base.{
  AllNe, ℕ, zero, suc, ◌+◌, ◌-◌, ◌<◌, ◌≤◌, ◌≡◌, ◌≢◌, refl, arith, ◌^◌, List, [], ◌∷◌, ◌++◌, length,
  sym, abs32,
}
use cycology.Disk.{AddrMap}
use cycology.Addresses.{get_free_ptr, set_address}

-- the addresses that `p` leads to, all different
abbrev pub FreeFrom : (ℕ → ℕ) → ℕ → List ℕ → Type 0
FreeFrom map p [] = p ≡ 0
FreeFrom map p (x ∷ xs) = (p ≡ x) × (x ≢ 0) × AllNe x xs × FreeFrom map (abs32 (map x)) xs

abbrev pub IsFree : AddrMap → List ℕ → Type 0
IsFree m xs = FreeFrom m.map m.free_ptr xs

set_address_ne : (m : AddrMap) (a addr x : ℕ) → x ≢ a → (set_address m a addr).map x ≡ m.map x
unfolding set_address
set_address_ne m a addr x h = ground arith

pub FreeFrom-set_address :
    (m : AddrMap) (a addr p : ℕ) (xs : List ℕ)
    → AllNe a xs
    → FreeFrom m.map p xs
    → FreeFrom (set_address m a addr).map p xs
FreeFrom-set_address m a addr p [] ne f = f
FreeFrom-set_address m a addr p (x ∷ xs) ne f = (
  f.0,
  f.1,
  f.2,
  subst (λ w. FreeFrom (set_address m a addr).map (abs32 w) xs)
      (sym (set_address_ne m a addr x ne.0))
      (FreeFrom-set_address m a addr (abs32 (m.map x)) xs ne.1 f.3),
)

free_ptr-set_address : (m : AddrMap) (a addr : ℕ) → (set_address m a addr).free_ptr ≡ m.free_ptr
unfolding set_address
free_ptr-set_address m a addr = refl

-- getFreePtr returns the first of the unused addresses and leaves the others unused, also when the
-- caller then stores whatever address in the entry that it was given.
pub get_free_ptr-IsFree :
    (m : AddrMap) (x : ℕ) (xs : List ℕ)
    → IsFree m (x ∷ xs)
    → (addr : ℕ)
    → let (id, m') = get_free_ptr m in (id ≡ x) × IsFree m' xs × IsFree (set_address m' id addr) xs
unfolding get_free_ptr
get_free_ptr-IsFree m x xs f addr = (
  f.0,
  rest,
  subst (λ p. FreeFrom (set_address popped m.free_ptr addr).map p xs)
      (sym (free_ptr-set_address popped m.free_ptr addr))
      (FreeFrom-set_address popped m.free_ptr addr popped.free_ptr xs (rw f.0 f.2) rest),
)
  where
    popped : AddrMap
    popped = record m { free_ptr = abs32 (m.map m.free_ptr) }

    rest : FreeFrom m.map (abs32 (m.map m.free_ptr)) xs
    rest = rw f.0 f.3

-- `k` calls of getFreePtr, each with the store of an address in the entry that it returns: the
-- addresses returned and the map that is left
abbrev pub allocate : List ℕ → AddrMap → List ℕ × AddrMap
allocate [] m = ([], m)
allocate (addr ∷ addrs) m =
    let (id, m') = get_free_ptr m in
    let (ids, m'') = allocate addrs (set_address m' id addr) in (id ∷ ids, m'')

abbrev pub count_from : ℕ → ℕ → List ℕ
count_from i zero = []
count_from i (suc k) = i ∷ count_from (i + 1) k

-- While unused addresses are left, calls of getFreePtr return them in order, each of them once.
pub allocate-take :
    (addrs xs ys : List ℕ) (m : AddrMap)
    → length addrs ≡ length xs
    → IsFree m (xs ++ ys)
    → let (ids, m') = allocate addrs m in (ids ≡ xs) × IsFree m' ys
allocate-take [] [] ys m e f = (refl, f)
allocate-take [] (x ∷ xs) ys m e f = absurd (omega arith)
allocate-take (addr ∷ addrs) [] ys m e f = absurd (omega arith)
allocate-take (addr ∷ addrs) (x ∷ xs) ys m e f =
    let step = get_free_ptr-IsFree m x (xs ++ ys) f addr in
    let rest =
      allocate-take addrs xs ys (set_address (get_free_ptr m).1 (get_free_ptr m).0 addr)
        (omega arith) step.2 in
    (ap₂ ◌∷◌ step.0 rest.0, rest.1)

-- With no unused address left getFreePtr returns 0 each time, the entry that stands for none.
get_free_ptr_exhausted : (m : AddrMap) → IsFree m [] → m.map 0 ≡ 0 → get_free_ptr m ≡ (0, m)
unfolding get_free_ptr
get_free_ptr_exhausted m f e = ground arith

AllNe-count_from : (i k a : ℕ) → a < i → AllNe a (count_from i k)
AllNe-count_from i zero a h = tt
AllNe-count_from i (suc k) a h = (omega arith, AllNe-count_from (i + 1) k a (omega arith))

next_free : (i w : ℕ) → 0 < i → i < 2 ^ 31 → w ≡ 2 ^ 32 - i → i ≡ abs32 w
next_free i w pos small e = ground arith

-- entries that each hold minus the next number, the last 0
pub links-FreeFrom :
    (map : ℕ → ℕ) (i k : ℕ)
    → 0 < i
    → i + k < 2 ^ 31
    → ((j : ℕ) → i ≤ j → j < i + k → map j ≡ 2 ^ 32 - (j + 1))
    → map (i + k) ≡ 0
    → FreeFrom map i (count_from i (suc k))
links-FreeFrom map i zero pos small links end =
    let e : i + 0 ≡ i = omega arith in (refl, omega arith, tt, rw (subst (λ j. map j ≡ 0) e end))
links-FreeFrom map i (suc k) pos small links end = (
  refl,
  omega arith,
  AllNe-count_from (i + 1) (suc k) i (omega arith),
  subst (λ p. FreeFrom map p (count_from (i + 1) (suc k)))
      (next_free (i + 1) (map i) (omega arith) (omega arith) (links i (omega arith) (omega arith)))
      (links-FreeFrom map (i + 1) k (omega arith) (omega arith)
        (λ j le lt. links j (omega arith) (omega arith))
        (subst (λ j. map j ≡ 0) (omega arith) end)),
)
