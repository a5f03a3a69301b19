-- ===== src/Nand/Chain.antt =====
-- A list of pages on the store, each holding the address of the next in its `nextLogBlock`, as the
-- partially used free list is kept. Address 0 ends it.
use cycology.Base.{ℕ, ◌*◌, ◌<◌, ◌≡◌, ◌≢◌, List, [], ◌∷◌}
use cycology.Nand.{Nand}
use cycology.Nand.Pages.{page_at}

abbrev pub next_link : Nand → ℕ → ℕ
next_link n k = (page_at n k).next_log_block

abbrev pub Chain : Nand → ℕ → List ℕ → Type 0
Chain n p [] = p ≡ 0
Chain n p (k ∷ ks) =
    (p ≡ k) × (k ≢ 0) × (k < n.features.num_blocks * 16) × Chain n (next_link n k) ks
