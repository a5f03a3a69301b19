-- ===== src/Log/Blocks.antt =====
-- getFreeBlock of helper.c: what it takes from the two lists of free blocks.
use cycology.Base.{
  AllNe, ℕ, ◌+◌, ◌*◌, ◌/◌, ◌%◌, ◌<◌, ◌≡◌, ◌≢◌, ◌⊎◌, inl, inr, refl, ◌∙◌, ◌>>=◌, Option, ◌++◌,
  length, Bool, true, false, some, List, [], ◌∷◌, arith, ◌^◌, add32, mul32, div32, minus_one, ne→==,
  eq→==, div32_nonneg,
}
use cycology.Disk.{FullPage, FreeList}
use cycology.Nand.{Nand, erase_nand}
use cycology.Nand.Layout.{IsFormatted}
use cycology.Nand.Pages.{page_at, SamePage, read_nand_lem}
use cycology.Nand.Write.{working}
use cycology.Nand.Erase.{Erased, erased_page, count_read, erase_nand-Erased}
use cycology.Nand.Chain.{next_link, Chain}
use cycology.Log.{FreeBlock, take_complete, take_partial, get_free_block}

-- The completely used free list: blocks, each with the address of the next in its last page. An
-- address is that of a block's first page; 0 ends the list.
abbrev pub BlockChain : Nand → ℕ → List ℕ → Type 0
BlockChain n p [] = p ≡ 0
BlockChain n p (b ∷ bs) =
    (p ≡ b * 16)
    × (b ≢ 0)
    × (b < n.features.num_blocks)
    × AllNe b bs
    × BlockChain n (next_link n (b * 16 + 15)) bs

-- The blocks that are not erased stay in the list.
BlockChain-Erased :
    {n n' : Nand} {b count : ℕ}
    → Erased n b count n'
    → (p : ℕ) (bs : List ℕ) → AllNe b bs
    → BlockChain n p bs
    → BlockChain n' p bs
BlockChain-Erased e p [] ne c = c
BlockChain-Erased {n} {n'} {b} e p (x ∷ bs) ne c = (
  c.0,
  c.1,
  rw e.features c.2,
  c.3,
  rw ((e.others (x * 16 + 15) (ground (arith, ne.0))).next_log_block)
      (BlockChain-Erased e (next_link n (x * 16 + 15)) bs ne.1 c.4),
)

module _ (n : Nand) (v : IsFormatted n.features) (lists : FreeList) (buf : FullPage) where
  -- For a new file getFreeBlock takes the first entry of a nonempty partially used free list: it
  -- returns the page after it and the erase count kept with it, the list goes on with the other
  -- entries, and neither the store nor the completely used free list changes.
  pub get_free_block_partial :
      (k : ℕ) (ks : List ℕ)
      → Chain n lists.partial_head (k ∷ ks)
      → (b : FreeBlock) × (get_free_block working n lists buf true ≡ some b)
        × (b.free_page ≡ k + 1)
        × (b.erases ≡ lists.partial_head_erases)
        × (b.nand ≡ n)
        × Chain n b.lists.partial_head ks
        × (b.lists.complete_head ≡ lists.complete_head)
        × (b.lists.complete_tail ≡ lists.complete_tail)
  unfolding get_free_block take_partial
  get_free_block_partial k ks (e, ne, inside, rest) = (
    record {
      erases = lists.partial_head_erases;
      free_page = add32 lists.partial_head 1;
      lists = record lists {
        partial_head = next_link n k;
        partial_head_erases = (page_at n k).next_block_erases;
      };
      nand = n;
    },
    rw (ne→== lists.partial_head 0 (ground arith), e, read_nand_lem n v working buf k inside),
    rw e (omega (arith, v.size, v.small)),
    refl,
    refl,
    rest,
    refl,
    refl,
  )

  last_page_lem :
      (k : ℕ)
      → k < n.features.num_blocks * 16
      → (mul32 (div32 (add32 k 16) 16) 16 + minus_one) % 2 ^ 32 ≡ k / 16 * 16 + 15
  last_page_lem k h =
      rw (div32_nonneg (add32 k 16) 16 (omega (arith, v.size, v.small)))
        (omega (arith, v.size, v.small))

  block_of_page : (k : ℕ) → k < n.features.num_blocks * 16 → div32 k 16 ≡ k / 16
  block_of_page k h = div32_nonneg k 16 (omega (arith, v.size, v.small))

  pub block_number : (b : ℕ) → b < n.features.num_blocks → div32 (b * 16) 16 ≡ b
  block_number b h = rw (div32_nonneg (b * 16) 16 (omega (arith, v.size, v.small))) (omega arith)

  -- What take_complete does with page `k` at the head of the list, 0 included.
  pub take_complete_at :
      (k : ℕ)
      → k < n.features.num_blocks * 16
      → lists.complete_head ≡ k
      → (r : FreeBlock) × (take_complete working n lists buf ≡ some r)
        × (r.free_page ≡ k)
        × (r.erases ≡ lists.complete_head_erases)
        × Erased n (k / 16) (add32 (count_read n (k / 16)) 1) r.nand
        × (r.lists.complete_head ≡ next_link n (k / 16 * 16 + 15))
        × (r.lists.partial_head ≡ lists.partial_head)
        × (r.lists.partial_tail ≡ lists.partial_tail)
  unfolding take_complete
  take_complete_at k h e = go (erase_nand-Erased n v (k / 16) (omega arith)) (omega arith)
    where
      go :
          (n' : Nand) × (erase_nand working n (k / 16) ≡ some (add32 (count_read n (k / 16)) 1, n'))
            × Erased n (k / 16) (add32 (count_read n (k / 16)) 1) n'
          → k / 16 * 16 + 15 < n.features.num_blocks * 16
          → (r : FreeBlock) × (take_complete working n lists buf ≡ some r)
            × (r.free_page ≡ k)
            × (r.erases ≡ lists.complete_head_erases)
            × Erased n (k / 16) (add32 (count_read n (k / 16)) 1) r.nand
            × (r.lists.complete_head ≡ next_link n (k / 16 * 16 + 15))
            × (r.lists.partial_head ≡ lists.partial_head)
            × (r.lists.partial_tail ≡ lists.partial_tail)
      go (n', run, made) inside = (
        record {
          erases = lists.complete_head_erases;
          free_page = lists.complete_head;
          lists = record lists {
            complete_head = next_link n (k / 16 * 16 + 15);
            complete_head_erases = (page_at n (k / 16 * 16 + 15)).next_block_erases;
          };
          nand = n';
        },
        rw (
          e,
          last_page_lem k h,
          read_nand_lem n v working buf (k / 16 * 16 + 15) inside,
          block_of_page k h,
          run,
        ),
        e,
        refl,
        made,
        refl,
        refl,
        refl,
      )

  pub take_complete_lem :
      (b : ℕ)
      → b < n.features.num_blocks
      → lists.complete_head ≡ b * 16
      → (r : FreeBlock) × (take_complete working n lists buf ≡ some r)
        × (r.free_page ≡ b * 16)
        × (r.erases ≡ lists.complete_head_erases)
        × Erased n b (add32 (count_read n b) 1) r.nand
        × (r.lists.complete_head ≡ next_link n (b * 16 + 15))
        × (r.lists.partial_head ≡ lists.partial_head)
        × (r.lists.partial_tail ≡ lists.partial_tail)
  take_complete_lem b h e =
      let same : b * 16 / 16 ≡ b = omega arith in
      rw same at (take_complete_at (b * 16) (omega arith) e)

  pub take_complete-eq :
      (new_file : Bool)
      → (new_file ≡ false) ⊎ (lists.partial_head ≡ 0)
      → get_free_block working n lists buf new_file ≡ take_complete working n lists buf
  unfolding get_free_block
  take_complete-eq new_file (inl e) = rw e
  take_complete-eq true (inr e) = rw (eq→== lists.partial_head 0 e)
  take_complete-eq false (inr e) = refl

  -- For an old file, or with an empty partially used free list, getFreeBlock takes the first block of
  -- a nonempty completely used free list: it returns the block's first page and the erase count kept
  -- with it, erases that block and no other, and the list goes on with the other blocks.
  get_free_block_complete :
      (new_file : Bool) (b : ℕ) (bs : List ℕ)
      → (new_file ≡ false) ⊎ (lists.partial_head ≡ 0)
      → BlockChain n lists.complete_head (b ∷ bs)
      → (r : FreeBlock) × (get_free_block working n lists buf new_file ≡ some r)
        × (r.free_page ≡ b * 16)
        × (r.erases ≡ lists.complete_head_erases)
        × Erased n b (add32 (count_read n b) 1) r.nand
        × BlockChain r.nand r.lists.complete_head bs
        × (r.lists.partial_head ≡ lists.partial_head)
  get_free_block_complete new_file b bs reason (e, ne, inside, apart, rest) =
      let (r, run, page, erases, made, head, partial, tail) = take_complete_lem b inside e in
      (
        r,
        take_complete-eq new_file reason ∙ run,
        page,
        erases,
        made,
        rw head (BlockChain-Erased made (next_link n (b * 16 + 15)) bs apart rest),
        partial,
      )

  -- With an empty completely used free list getFreeBlock does not fail where it needs that list: it
  -- returns page 0, and block 0 is erased, with the super block on it.
  pub get_free_block_empty :
      (new_file : Bool)
      → 0 < n.features.num_blocks
      → (new_file ≡ false) ⊎ (lists.partial_head ≡ 0)
      → BlockChain n lists.complete_head []
      → (r : FreeBlock) × (get_free_block working n lists buf new_file ≡ some r)
        × (r.free_page ≡ 0)
        × SamePage (page_at r.nand 0) erased_page
  get_free_block_empty new_file enough reason e =
      let (r, run, page, erases, made, head, partial, tail) = take_complete_lem 0 enough e in
      (r, take_complete-eq new_file reason ∙ run, page, made.pages 0 refl)

-- the pages returned by calls of getFreeBlock for new files, one for each element, and what is left
abbrev pub take_blocks : List FullPage → Nand → FreeList → Option (List ℕ × Nand × FreeList)
take_blocks [] n lists = some ([], n, lists)
take_blocks (buf ∷ bufs) n lists = get_free_block working n lists buf true >>= λ b.
    take_blocks bufs b.nand b.lists >>= λ r. some (b.free_page ∷ r.0, r.1, r.2)

-- the pages after those of a list
abbrev pub pages_after : List ℕ → List ℕ
pages_after [] = []
pages_after (k ∷ ks) = (k + 1) ∷ pages_after ks

-- While the partially used free list lasts, calls of getFreeBlock for new files return the pages
-- after its entries, in order and each once, and leave the store alone and the other entries listed.
pub take_blocks-pages_after :
    (bufs : List FullPage) (ks ls : List ℕ) (n : Nand) (lists : FreeList)
    → IsFormatted n.features
    → length bufs ≡ length ks
    → Chain n lists.partial_head (ks ++ ls)
    → (lists' : FreeList) × (take_blocks bufs n lists ≡ some (pages_after ks, n, lists'))
      × Chain n lists'.partial_head ls
take_blocks-pages_after [] [] ls n lists v e c = (lists, refl, c)
take_blocks-pages_after [] (k ∷ ks) ls n lists v e c = absurd (omega arith)
take_blocks-pages_after (buf ∷ bufs) [] ls n lists v e c = absurd (omega arith)
take_blocks-pages_after (buf ∷ bufs) (k ∷ ks) ls n lists v e c =
    let (b, run, page, erases, same, rest, head, tail) =
      get_free_block_partial n v lists buf k (ks ++ ls) c in
    let (lists', runs, left) = take_blocks-pages_after bufs ks ls n b.lists v (omega arith) rest in
    (lists', rw (run, same, runs, page), left)
