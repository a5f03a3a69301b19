-- ===== src/Examples/Evictions.antt =====
-- The theorem on the eviction of a file at a small heap.
use cycology.Base.{
  ℕ, ◌+◌, ◌*◌, ◌≡◌, ◌⊎◌, sym, inl, inr, refl, some, List, [], ◌∷◌, arith, ◌==◌, if◌then◌else◌,
  AllNe, eq-cases, eq→==, ne→==,
}
use cycology.Cache.Structs.{Heap}
use cycology.Cache.Keys.{digits, ceil_log10, key_number, number_text, cache_hash}
use cycology.Cache.Bins.{Bin}
use cycology.Cache.Emptied.{IsTable}
use cycology.Cache.Flush.{fs_evict_lru_file}
use cycology.Cache.Evicted.{IsEvicted, fs_evict_lru_file-IsEvicted}
use cycology.Examples.Writes.{one_level, by_use, files_by_use, pages_of_three, two_listed, hashes}

abbrev bins : ℕ → List ℕ
bins b = if b == 1 then 1 ∷ 3 ∷ [] else []

in_two : (x : ℕ) → ¬ AllNe x (1 ∷ 3 ∷ []) → (x ≡ 1) ⊎ (x ≡ 3)
in_two x there = elim (eq-cases x 1) [
  | inl e ↦ inl e
  | inr ne ↦ elim (eq-cases x 3) [
    | inl e ↦ inr e
    | inr ne' ↦ absurd (there ((λ e. ne (sym e)), ((λ e. ne' (sym e)), tt)))
  ]
]

in_bins : (b x : ℕ) → ¬ AllNe x (bins b) → (b ≡ 1) × ((x ≡ 1) ⊎ (x ≡ 3))
in_bins b x = elim (eq-cases b 1) [
  | inl e ↦ rw (eq→== b 1 e) λ there. (e, in_two x there)
  | inr ne ↦ rw (ne→== b 1 ne) λ there. absurd (there tt)
]

named_by :
    (x : ℕ)
    → (x ≡ 1) ⊎ (x ≡ 3)
    → (text : List ℕ) × (number_text (key_number one_level (one_level.entries x).key) ≡ some text)
unfolding number_text key_number digits ceil_log10
named_by x (inl e) = (49 ∷ 48 ∷ 51 ∷ [], rw e refl)
named_by x (inr e) = (49 ∷ 48 ∷ 55 ∷ [], rw e refl)

number_of :
    (x : ℕ) → (x ≡ 1) ⊎ (x ≡ 3) → key_number one_level (one_level.entries x).key ≡ 101 + 2 * x
unfolding key_number
number_of x (inl e) = rw e refl
number_of x (inr e) = rw e refl

placed_at :
    (x : ℕ)
    → (x ≡ 1) ⊎ (x ≡ 3)
    → (b : ℕ) × (cache_hash one_level (one_level.entries x).key ≡ some b) × ¬ AllNe x (bins b)
placed_at x (inl e) = (1, rw e (hashes.1), λ all. all.0 (sym e))
placed_at x (inr e) = (1, rw e (hashes.2), λ all. all.1.0 (sym e))

binned : (b : ℕ) → Bin one_level.entries (one_level.cache.table b) (bins b)
binned b = elim (eq-cases b 1) [
  | inl e ↦ rw (eq→== b 1 e) two_listed
  | inr ne ↦ rw (ne→== b 1 ne) refl
]

one_level-IsTable : IsTable one_level bins (1 ∷ 3 ∷ [])
one_level-IsTable = record {
  bin = binned;
  named = λ b x there. named_by x (in_bins b x there).1;
  unique = λ b x y there there' e.
      (let e1 = number_of x (in_bins b x there).1 in
        let e2 = number_of y (in_bins b y there').1 in omega (arith, e, e1, e2));
  placed = λ x there. placed_at x (in_two x there);
}

fs_evict_lru_file-IsEvicted_example :
    (h' : Heap) × (fs_evict_lru_file one_level ≡ some h')
    × IsEvicted one_level 3 (1 ∷ 3 ∷ []) (1 ∷ 2 ∷ 3 ∷ []) (1 ∷ 2 ∷ []) h'
fs_evict_lru_file-IsEvicted_example =
    fs_evict_lru_file-IsEvicted one_level 3 bins (1 ∷ 3 ∷ []) (1 ∷ 2 ∷ 3 ∷ []) (1 ∷ 2 ∷ [])
      files_by_use refl pages_of_three one_level-IsTable (omega arith) by_use
      (λ x there all. there (all.0, (all.1.1.0, tt)))
