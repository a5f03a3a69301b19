-- ===== src/Show/Ends.antt =====
-- showFreeList ends: its marks bound the rounds of the walk.
use cycology.Base.{
  ℕ, zero, suc, ◌+◌, ◌*◌, ◌/◌, ◌≤◌, ◌<◌, ◌≡◌, ◌≢◌, refl, ap, inl, inr, true, some, ◌>>=◌, arith, [],
  ◌∷◌, ltb, ◌==◌, if◌then◌else◌, store, add32, div32, eq→==, ne→==, eq-cases, div32_nonneg,
}
use cycology.Disk.{FullPage}
use cycology.Nand.{Nand, Io}
use cycology.Nand.Layout.{IsFormatted}
use cycology.Nand.Pages.{page_at, read_nand_lem}
use cycology.Show.{
  Shown, cycle, new_line, bad_tail, completely_free, print, get_free_list_head, print_page_number,
  mark_block_statistics, get_next_log_block, is_valid_tail, show_loop, show_free_list,
}

-- how many of the first `n` blocks have no mark
abbrev unmarked_below : (ℕ → ℕ) → ℕ → ℕ
unmarked_below stat zero = 0
unmarked_below stat (suc n) = unmarked_below stat n + (if stat n == 0 then 1 else 0)

unmarked_below-store_beyond :
    (stat : ℕ → ℕ) (b m n : ℕ) → n ≤ b → unmarked_below (store stat b m) n ≡ unmarked_below stat n
unmarked_below-store_beyond stat b m zero h = refl
unmarked_below-store_beyond stat b m (suc n) h =
    ground (arith, unmarked_below-store_beyond stat b m n (omega arith))

unmarked_below-store :
    (stat : ℕ → ℕ) (b m n : ℕ)
    → b < n
    → stat b ≡ 0
    → m ≢ 0
    → suc (unmarked_below (store stat b m) n) ≡ unmarked_below stat n
unmarked_below-store stat b m zero h e ne = absurd (omega arith)
unmarked_below-store stat b m (suc n) h e ne = elim (eq-cases n b) [
  | inl q ↦ ground (arith, unmarked_below-store_beyond stat b m n (omega arith))
  | inr q ↦ ground (arith, unmarked_below-store stat b m n (omega arith) e ne)
]

unmarked_below_bound : (stat : ℕ → ℕ) (n : ℕ) → unmarked_below stat n ≤ n
unmarked_below_bound stat zero = omega arith
unmarked_below_bound stat (suc n) = ground (arith, unmarked_below_bound stat n)

-- the page that a walk reads for the link behind a block
abbrev pub link_page : ℕ → ℕ → ℕ
link_page free_list_type k = if free_list_type == completely_free then k + 15 else k

-- The store is formatted, reads succeed, and the links of all pages lead to blocks that it has.
pub record IsLinked (io : Io) (n : Nand) (free_list_type : ℕ) : Type 0 where
  pub formatted : IsFormatted n.features
  pub reads : io.read_ok ≡ true
  pub links :
      (k : ℕ)
      → k < n.features.num_blocks * 16
      → link_page free_list_type (page_at n k).next_log_block < n.features.num_blocks * 16

module _ (io : Io) (free_list_type : ℕ) (listed : free_list_type ≢ 0) where
  get_next_log_block_lem :
      (s : Shown) (k : ℕ)
      → IsLinked io s.nand free_list_type
      → link_page free_list_type k < s.nand.features.num_blocks * 16
      → get_next_log_block io s free_list_type k
        ≡ some (
          (page_at s.nand (link_page free_list_type k)).next_log_block,
          record s { page = page_at s.nand (link_page free_list_type k) },
        )
  unfolding get_next_log_block
  get_next_log_block_lem s k v h =
      rw
        (
          get_link,
          read_nand_lem s.nand v.formatted io s.page (link_page free_list_type k) h,
          v.reads,
        )
        refl
    where
      get_link :
          (if free_list_type == completely_free then add32 k 15 else k) ≡ link_page free_list_type k
      get_link = let small = v.formatted.small in let size = v.formatted.size in ground arith

  module _ (s : Shown) (k : ℕ) (v : IsFormatted s.nand.features)
      (inside : k < s.nand.features.num_blocks * 16) where
    has_mark : ltb (div32 k 16) s.nand.features.num_blocks ≡ true
    has_mark = let small = v.small in let size = v.size in ground arith

    block_lem : div32 k 16 ≡ k / 16
    block_lem = div32_nonneg k 16 (let small = v.small in let size = v.size in omega arith)

    mark_fresh :
        s.block_stat (k / 16) ≡ 0
        → mark_block_statistics s free_list_type k
          ≡ some (0, record s { block_stat = store s.block_stat (k / 16) free_list_type })
    unfolding mark_block_statistics
    mark_fresh e = rw (has_mark, block_lem, eq→== (s.block_stat (k / 16)) 0 e) refl

    mark_again :
        s.block_stat (k / 16) ≢ 0
        → mark_block_statistics s free_list_type k ≡ some (1, print s (cycle ∷ []))
    unfolding mark_block_statistics
    mark_again ne =
        rw (has_mark, block_lem, ne→== (s.block_stat (k / 16)) 0 ne, ne→== free_list_type 0 listed)
          refl

  inside_of : (n k : ℕ) → link_page free_list_type k < n → k < n
  inside_of n k h = ground arith

  show_loop-ends :
      (f : ℕ) (s : Shown) (count previous k : ℕ)
      → IsLinked io s.nand free_list_type
      → link_page free_list_type k < s.nand.features.num_blocks * 16
      → unmarked_below s.block_stat s.nand.features.num_blocks < f
      → (end : ℕ × Shown) × (show_loop f io s free_list_type count previous k ≡ some end)
  unfolding show_loop print
  show_loop-ends zero s count previous k v h m = absurd (omega arith)
  show_loop-ends (suc f) s count previous k v h m =
      let n : ℕ = s.nand.features.num_blocks in
      let inside : k < n * 16 = inside_of (n * 16) k h in
      let printed : Shown = print s (print_page_number k (count + 1)) in
      let marked : Shown = record printed {
        block_stat = store s.block_stat (k / 16) free_list_type;
      } in
      let read : FullPage = page_at s.nand (link_page free_list_type k) in
      elim (eq-cases k 0) [
        | inl e ↦ ((previous, s), rw (eq→== k 0 e) refl)
        | inr ne ↦ elim (eq-cases (s.block_stat (k / 16)) 0) [
          | inl e ↦
              let fewer : unmarked_below marked.block_stat n < f = omega (
                arith,
                unmarked_below-store s.block_stat (k / 16) free_list_type n (omega arith) e listed,
              ) in
              let (end, run) =
                show_loop-ends f (record marked { page = read }) (count + 1) k read.next_log_block v
                  (v.links (link_page free_list_type k) h) fewer in
              (
                end,
                rw
                    (
                      ne→== k 0 ne,
                      mark_fresh printed k v.formatted inside e,
                      get_next_log_block_lem marked k v h,
                    )
                    run,
              )
          | inr ne' ↦ (
            (previous, print printed (cycle ∷ [])),
            rw (ne→== k 0 ne, mark_again printed k v.formatted inside ne') refl,
          )
        ]
      ]

-- If the links of a formatted store, and the head of the free list, lead to pages whose link page the
-- store has, showFreeList ends, whatever cycles the links form.
pub show_free_list-ends :
    (io : Io) (s : Shown) (free_list_type : ℕ)
    → free_list_type ≢ 0
    → IsLinked io s.nand free_list_type
    → link_page free_list_type (get_free_list_head s free_list_type)
      < s.nand.features.num_blocks * 16
    → (s' : Shown) × (show_free_list io s free_list_type ≡ some s')
unfolding show_free_list
show_free_list-ends io s free_list_type listed v h =
    let n : ℕ = s.nand.features.num_blocks in
    let (end, run) =
      show_loop-ends io free_list_type listed (suc (suc n)) s 0 0
        (get_free_list_head s free_list_type) v h
        (omega (arith, unmarked_below_bound s.block_stat n)) in
    (
      _,
      ap
          (λ r. r >>= λ (previous, s'). some (
            if is_valid_tail s' previous free_list_type
            then print s' (new_line ∷ [])
            else print s' (bad_tail ∷ new_line ∷ [])))
          run,
    )
