-- ===== src/Log/Recycle/Append.antt =====
-- What logs_recycle does to the partially used free list.
use mathlib.Core.Path.{subst, sym}
use cycology.Base.{
  AllNe, ℕ, ◌+◌, ◌*◌, ◌/◌, ◌%◌, ◌<◌, ◌≤◌, ◌≡◌, ◌≢◌, refl, ◌∙◌, some, false, true, List, [], ◌∷◌,
  ◌++◌, arith, slt, add32, eq→==, ne→==, rem32_nonneg, div32_nonneg,
}
use cycology.Disk.{block_bytes, FullPage, FreeList, LogHeader}
use cycology.Nand.{Nand, write_nand}
use cycology.Nand.Layout.{IsFormatted}
use cycology.Nand.Pages.{next_page_at, write_nand_lem}
use cycology.Nand.Write.{working, Programmed, write_nand-Programmed}
use cycology.Nand.Chain.{next_link, Chain}
use cycology.Makefs.{cleared_page}
use cycology.Log.{FreeBlock, get_free_block}
use cycology.Log.Blocks.{get_free_block_partial}
use cycology.Log.Recycle.{link_to, add_partial, add_complete, logs_recycle}

-- A list whose last entry gets a link to one more page.
Chain-link :
    {n n' : Nand} {buf : FullPage} {k counter next : ℕ}
    → Programmed n buf k counter n'
    → buf.next_log_block ≡ next
    → next ≢ k
    → next ≢ 0
    → next < n.features.num_blocks * 16
    → next_link n next ≡ 0
    → (p : ℕ) (ks : List ℕ) → AllNe k ks
    → Chain n p (ks ++ (k ∷ []))
    → Chain n' p (ks ++ (k ∷ next ∷ []))
Chain-link {n} {n'} {buf} {k} {counter} {next} made link apart ne inside end p [] all
      (e, nz, lt, z) =
    (
      e,
      nz,
      rw made.features lt,
      (
        made.page.next_log_block ∙ link,
        ne,
        rw made.features inside,
        (made.others next apart).next_log_block ∙ end,
      ),
    )
Chain-link {n} {n'} {buf} {k} {counter} {next} made link apart ne inside end p (x ∷ ks) all
      (e, nz, lt, rest) =
    (
      e,
      nz,
      rw made.features lt,
      subst (λ q. Chain n' q (ks ++ (k ∷ next ∷ []))) (sym ((made.others x all.0).next_log_block))
          (Chain-link made link apart ne inside end (next_link n x) ks all.1 rest),
    )

Chain-last_inside :
    (n : Nand) {k : ℕ} (p : ℕ) (ks : List ℕ)
    → Chain n p (ks ++ (k ∷ []))
    → k < n.features.num_blocks * 16
Chain-last_inside n p [] c = c.2
Chain-last_inside n p (x ∷ ks) c = Chain-last_inside n (next_link n x) ks c.3

Chain-last_nonzero : (n : Nand) {k : ℕ} (p : ℕ) (ks : List ℕ) → Chain n p (ks ++ (k ∷ [])) → k ≢ 0
Chain-last_nonzero n p [] c = c.1
Chain-last_nonzero n p (x ∷ ks) c = Chain-last_nonzero n (next_link n x) ks c.3

module _ (n : Nand) (v : IsFormatted n.features) (lists : FreeList) (log : LogHeader) (next : ℕ)
    (inside : next < n.features.num_blocks * 16) (index : next % 16 ≤ 13)
    (one : next / 16 ≡ log.first) where
  not_full : slt 13 (next % 16) ≡ false
  not_full = ground arith

  single_block :
      (m : Nand) (free : FreeList)
      → add_partial working n lists next ≡ some (m, free)
      → logs_recycle working n lists log next ≡ some (m, free)
  unfolding logs_recycle add_complete
  single_block m free e = rw (
    rem32_nonneg next 16 (omega (arith, v.size, v.small)),
    div32_nonneg next 16 (omega (arith, v.size, v.small)),
    not_full,
    eq→== (next / 16) log.first one,
    e,
  )

  -- Recycling a log of one block, not full, whose free pages start at `next`, appends `next` to the
  -- partially used free list, if the last entry `k` of the list is its tail and the next free page of
  -- its block. The completely used free list stays.
  pub logs_recycle-Chain :
      (ks : List ℕ) (k : ℕ)
      → AllNe k ks
      → next ≢ k
      → next ≢ 0
      → next_link n next ≡ 0
      → lists.partial_tail ≡ k
      → k % 16 ≡ next_page_at n (k / 16)
      → Chain n lists.partial_head (ks ++ (k ∷ []))
      → (n' : Nand) × (lists' : FreeList) × (logs_recycle working n lists log next
          ≡ some (n', lists'))
        × Chain n' lists'.partial_head (ks ++ (k ∷ next ∷ []))
        × (lists'.partial_tail ≡ next)
        × (lists'.complete_head ≡ lists.complete_head)
        × (lists'.complete_tail ≡ lists.complete_tail)
  unfolding add_partial link_to cleared_page
  logs_recycle-Chain ks k all apart ne end tail free chain = go (
      write_nand-Programmed n v (link_to next 0) k (Chain-last_inside n lists.partial_head ks chain)
        (omega arith) free)
    where
      go :
          (n' : Nand) × (write_nand working n (link_to next 0) k false ≡ some (block_bytes, n'))
            × Programmed n (link_to next 0) k (add32 (next_page_at n (k / 16)) 1) n'
          → (n' : Nand) × (lists' : FreeList) × (logs_recycle working n lists log next
              ≡ some (n', lists'))
            × Chain n' lists'.partial_head (ks ++ (k ∷ next ∷ []))
            × (lists'.partial_tail ≡ next)
            × (lists'.complete_head ≡ lists.complete_head)
            × (lists'.complete_tail ≡ lists.complete_tail)
      go (n', run, made) = (
        n',
        record lists { partial_tail = next },
        single_block n' (record lists { partial_tail = next })
            (rw (
              ne→== lists.partial_tail 0
                  (rw tail (Chain-last_nonzero n lists.partial_head ks chain)),
              tail,
              run,
            )),
        Chain-link made refl apart ne inside end lists.partial_head ks all chain,
        refl,
        refl,
        refl,
      )

  -- Recycling the same log with an empty tail starts the list with it, and getFreeBlock then hands out
  -- the page after `next` to a new file and leaves the list empty.
  pub logs_recycle-get_free_block :
      (buf : FullPage)
      → lists.partial_tail ≡ 0
      → next ≢ 0
      → next_link n next ≡ 0
      → (lists' : FreeList) × (b : FreeBlock) × (logs_recycle working n lists log next
          ≡ some (n, lists'))
        × (get_free_block working n lists' buf true ≡ some b)
        × (b.free_page ≡ next + 1)
        × Chain n b.lists.partial_head []
  unfolding add_partial
  logs_recycle-get_free_block buf tail ne end =
      let lists' : FreeList = record lists { partial_head = next; partial_tail = next } in
      let (b, run, page, erases, same, rest, head, last) =
        get_free_block_partial n v lists' buf next [] (refl, ne, inside, end) in
      (lists', b, single_block n lists' (rw (eq→== lists.partial_tail 0 tail)), run, page, rest)

  -- With the list empty and a tail that is left from before, recycling does not put the block in the
  -- list: its head stays 0, whether the write to the old tail succeeds or not.
  pub logs_recycle_stale_tail :
      lists.partial_tail ≢ 0
      → lists.partial_tail < n.features.num_blocks * 16
      → Chain n lists.partial_head []
      → (n' : Nand) × (lists' : FreeList) × (logs_recycle working n lists log next
          ≡ some (n', lists'))
        × Chain n' lists'.partial_head []
  unfolding add_partial
  logs_recycle_stale_tail tail h empty =
      go (_, write_nand_lem n v working (link_to next 0) lists.partial_tail false h)
    where
      go :
          (r : ℕ × Nand) × (write_nand working n (link_to next 0) lists.partial_tail false ≡ some r)
          → (n' : Nand) × (lists' : FreeList) × (logs_recycle working n lists log next
              ≡ some (n', lists'))
            × Chain n' lists'.partial_head []
      go (r, run) = (
        r.1,
        record lists { partial_tail = next },
        single_block r.1 (record lists { partial_tail = next })
            (rw (ne→== lists.partial_tail 0 tail, run)),
        empty,
      )
