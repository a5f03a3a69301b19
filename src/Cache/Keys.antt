-- ===== src/Cache/Keys.antt =====
-- The keys of fuse-3.0.2/example/cache_code/cache.c, lines 46 to 77: a key is the decimal text of a sum.
use Prim.Native.Nat.{compare, Ordering}
use cycology.Base.{
  ℕ, zero, suc, ◌+◌, ◌*◌, ◌/◌, ◌%◌, ◌^◌, Option, none, some, ◌||◌, List, [], ◌∷◌, ◌++◌, ltb, leb,
  ◌==◌, if◌then◌else◌, ◌>>=◌, add32, is_neg, length,
}
use cycology.Cache.Structs.{Heap}

-- what `sprintf` writes for a positive `int`, which has ten digits at most; the first argument bounds
-- their number
unfoldable pub digits : ℕ → ℕ → List ℕ
digits zero n = []
digits (suc f) n =
    let rest = digits f (n / 10) in if ltb n 10 then (48 + n) ∷ [] else rest ++ (48 + n % 10) ∷ []

-- `ceil(log10(n))`: the first power of ten that reaches `n`, from `power` = 10 ^ `k` on
unfoldable pub ceil_log10 : ℕ → ℕ → ℕ → ℕ → ℕ
ceil_log10 zero k power n = k
ceil_log10 (suc f) k power n =
    let rest = ceil_log10 f (k + 1) (power * 10) n in if leb n power then k else rest

unfoldable pub key_number : Heap → ℕ → ℕ
key_number h k =
    let key = h.keys k in add32 (add32 (h.files key.file).address key.data_offset) key.levels_above

-- The text of a number in an array of `ceil(log10(n)) + 1` characters, the terminator among them.
-- `none`: the number is not positive, or the text is longer than the array.
unfoldable pub number_text : ℕ → Option (List ℕ)
number_text n =
    let text = digits 10 n in
    if (n == 0) || is_neg n
    then none
    else if ltb (ceil_log10 10 0 1 n + 1) (length text + 1)
    then none
    else some text

unfoldable pub strcmp : List ℕ → List ℕ → Ordering
strcmp [] [] = Ordering.eq
strcmp [] (y ∷ ys) = Ordering.lt
strcmp (x ∷ xs) [] = Ordering.gt
strcmp (x ∷ xs) (y ∷ ys) = elim (compare x y) [
  | Ordering.lt ↦ Ordering.lt
  | Ordering.eq ↦ strcmp xs ys
  | Ordering.gt ↦ Ordering.gt
]

-- the sign of what keyCmp returns
unfoldable pub key_cmp : Heap → ℕ → ℕ → Option Ordering
key_cmp h key1 key2 = number_text (key_number h key1) >>= λ str1.
    number_text (key_number h key2) >>= λ str2. some (strcmp str1 str2)

-- `hash = ((hash << 5) + hash) + c` in 64 bits, over the text
unfoldable pub hash_text : ℕ → List ℕ → ℕ
hash_text hash [] = hash
hash_text hash (c ∷ cs) = hash_text ((hash * 32 + hash + c) % 2 ^ 64) cs

-- the bin of a key; `none` besides: a table of size 0
unfoldable pub cache_hash : Heap → ℕ → Option ℕ
cache_hash h key =
    if h.cache.max_size == 0
    then none
    else number_text (key_number h key) >>= λ text. some (hash_text 5381 text % h.cache.max_size)
