-- ===== src/Makefs/Link.antt =====
-- The loop of linkFreeBlocks in makefs.c: each block's first page gets the address of the next block's.
use native.Mathlib.Decide.{dec_lt}
use native.Mathlib.Nat.{add-zero}
use mathlib.Core.Path.{subst}
use cycology.Base.{
  ℕ, zero, suc, ◌+◌, ◌*◌, ◌/◌, ◌%◌, ◌≤◌, ◌<◌, ◌≡◌, ◌≢◌, refl, some, arith, List, [], ◌∷◌, mul32,
  false, add32, ◌∙◌,
}
use cycology.Disk.{FullPage}
use cycology.Nand.{Nand, write_nand}
use cycology.Nand.Layout.{IsFormatted}
use cycology.Nand.Pages.{page_at, next_page_at, SamePage, SamePage-trans, SamePage-refl}
use cycology.Nand.Write.{working, Programmed, write_nand-Programmed}
use cycology.Nand.Chain.{next_link, Chain}
use cycology.Makefs.{link_page, link_loop}

-- no page of the blocks from `i` on is written
pub record IsFresh (n : Nand) (i : ℕ) : Type 0 where
  pub next_page : (j : ℕ) → i ≤ j → next_page_at n j ≡ 0
  pub unlinked : (j : ℕ) → i ≤ j → next_link n (j * 16) ≡ 0

-- `n'` is `n` with `buf` written to the first page of block `i`
pub record Started (n : Nand) (buf : FullPage) (i : ℕ) (n' : Nand) : Type 0 where
  pub features : n'.features ≡ n.features
  pub fresh : IsFresh n' (i + 1)
  pub page : SamePage (page_at n' (i * 16)) buf
  pub others : (k : ℕ) → k ≢ i * 16 → SamePage (page_at n' k) (page_at n k)

pub start_block :
    (n : Nand) (i : ℕ) (buf : FullPage)
    → IsFormatted n.features
    → i < n.features.num_blocks
    → IsFresh n i
    → buf.page_type < 256
    → (n' : Nand) × (write_nand working n buf (i * 16) false ≡ some (16776, n'))
      × Started n buf i n'
start_block n i buf v h fresh t = (
  step.0,
  step.1,
  record {
    features = made.features;
    fresh = record {
      next_page = λ j le. ground (arith, made.next_page j, fresh.next_page j, block);
      unlinked = λ j le.
          (made.others (j * 16) (omega arith)).next_log_block ∙ fresh.unlinked j (omega arith);
    };
    page = made.page;
    others = made.others;
  },
)
  where
    block : i * 16 / 16 ≡ i
    block = omega arith

    free : i * 16 % 16 ≡ next_page_at n (i * 16 / 16)
    free = rw block (omega (arith, fresh.next_page i))

    step :
        (n' : Nand) × (write_nand working n buf (i * 16) false ≡ some (16776, n'))
        × Programmed n buf (i * 16) (add32 (next_page_at n (i * 16 / 16)) 1) n'
    step = write_nand-Programmed n v buf (i * 16) (omega arith) t free

    made : Programmed n buf (i * 16) (add32 (next_page_at n (i * 16 / 16)) 1) step.0
    made = step.2

-- `n'` is `n` with the blocks from `i` up to `j` linked
pub record Linked (n : Nand) (i j : ℕ) (n' : Nand) : Type 0 where
  pub features : n'.features ≡ n.features
  pub fresh : IsFresh n' j
  pub links : (b : ℕ) → i ≤ b → b < j → next_link n' (b * 16) ≡ (b + 1) * 16
  pub others : (k : ℕ) → k / 16 < i → SamePage (page_at n' k) (page_at n k)

-- one round
link_step :
    (n : Nand) (i : ℕ)
    → IsFormatted n.features
    → i + 1 < n.features.num_blocks
    → IsFresh n i
    → (n' : Nand) × (write_nand working n (link_page i) (mul32 i 16) false ≡ some (16776, n'))
      × Linked n i (i + 1) n'
link_step n i v h fresh =
    let (n', e, made) = start_block n i (link_page i) v (omega arith) fresh (omega arith) in
    let address : mul32 i 16 ≡ i * 16 = omega arith in
    rw address (
      n',
      e,
      record {
        features = made.features;
        fresh = made.fresh;
        links = λ b le lt.
            let same : b ≡ i = omega arith in rw same (made.page.next_log_block ∙ omega arith);
        others = λ k lt. made.others k (omega arith);
      },
    )

Linked-cons :
    {n m n' : Nand} {i j : ℕ}
    → i < j
    → Linked n i (i + 1) m
    → Linked m (i + 1) j n'
    → Linked n i j n'
Linked-cons {n} {m} {n'} {i} {j} lt a b = record {
  features = b.features ∙ a.features;
  fresh = b.fresh;
  links = links;
  others = λ k h. SamePage-trans (b.others k (omega arith)) (a.others k h);
}
  where
    links : (c : ℕ) → i ≤ c → c < j → next_link n' (c * 16) ≡ (c + 1) * 16
    links c le lt = elim (dec_lt i c) [
      | yes p ↦ b.links c (omega arith) lt
      | no p ↦ (b.others (c * 16) (omega arith)).next_log_block ∙ a.links c le (omega arith)
    ]

pub link_loop-Linked :
    (rounds i : ℕ) (n : Nand)
    → IsFormatted n.features
    → i + rounds < n.features.num_blocks
    → IsFresh n i
    → (n' : Nand) × (link_loop (λ _. working) rounds i n ≡ some n') × Linked n i (i + rounds) n'
unfolding link_loop
link_loop-Linked zero i n v h fresh = (
  n,
  refl,
  record {
    features = refl;
    fresh = rw add-zero fresh;
    links = λ b le lt. absurd (omega arith);
    others = λ k lt. SamePage-refl (page_at n k);
  },
)
link_loop-Linked (suc rounds) i n v h fresh =
    let (m, e, made) = link_step n i v (omega arith) fresh in
    let (n', e', rest) =
      link_loop-Linked rounds (i + 1) m (rw made.features v) (rw made.features (omega arith))
        made.fresh in
    let count : i + 1 + rounds ≡ i + suc rounds = omega arith in
    (n', rw e e', Linked-cons (omega arith) made (subst (λ k. Linked m (i + 1) k n') count rest))

-- the first pages of `rounds` blocks from `i` on
abbrev pub blocks_from : ℕ → ℕ → List ℕ
blocks_from i zero = []
blocks_from i (suc rounds) = i * 16 ∷ blocks_from (i + 1) rounds

pub links-Chain :
    (rounds i : ℕ) (n : Nand)
    → 0 < i
    → i + rounds < n.features.num_blocks
    → ((b : ℕ) → i ≤ b → b < i + rounds → next_link n (b * 16) ≡ (b + 1) * 16)
    → next_link n ((i + rounds) * 16) ≡ 0
    → Chain n (i * 16) (blocks_from i (suc rounds))
links-Chain zero i n pos h links end =
    let e : i + 0 ≡ i = omega arith in (refl, omega arith, omega arith, rw e at end)
links-Chain (suc rounds) i n pos h links end =
    let e : i + 1 + rounds ≡ i + suc rounds = omega arith in
    (
      refl,
      omega arith,
      omega arith,
      rw (links i (omega arith) (omega arith)) (
          links-Chain rounds (i + 1) n (omega arith) (omega arith)
            (λ b le lt. links b (omega arith) (omega arith)) (rw e end)),
    )
