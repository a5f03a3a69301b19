-- ===== src/Log/Sequence.antt =====
-- The pages that a log gets from getFreePage, call after call.
use mathlib.Core.Path.{subst}
use cycology.Base.{
  ℕ, zero, suc, ◌+◌, ◌*◌, ◌-◌, ◌<◌, ◌≡◌, Option, some, ◌>>=◌, List, [], ◌∷◌, ◌++◌, arith, minus_one,
}
use cycology.Disk.{FullPage, FreeList}
use cycology.Nand.{Nand}
use cycology.Nand.Layout.{IsFormatted}
use cycology.Nand.Write.{working}
use cycology.Addresses.Alloc.{count_from}
use cycology.Log.{Allocated, ActiveLog, get_free_page}
use cycology.Log.Steps.{Advanced, advance_inner, advance_thirteen, advance_lost, Moved, move}

-- The addresses of the pages that `rounds` calls hand out, and what is left. The contents of the
-- memory that the `i`th call obtains are `fresh i` and `buf i`.
abbrev pub take_pages :
    (ℕ → FullPage)
    → (ℕ → FullPage)
    → ℕ
    → Nand
    → FreeList
    → ActiveLog
    → Option (List ℕ × Nand × FreeList × ActiveLog)
take_pages fresh buf zero n lists log = some ([], n, lists, log)
take_pages fresh buf (suc rounds) n lists log =
    get_free_page working n lists log (fresh rounds) (buf rounds) >>= λ a.
    take_pages fresh buf rounds a.nand a.lists a.log >>= λ r.
    some (a.buf.address ∷ r.0, r.1, r.2, r.3)

-- the rest of the log after a block is used up: it starts block `b`
pub record Begun (n : Nand) (b : ℕ) (log : ActiveLog) : Type 0 where
  pub prev : log.log.prev ≡ minus_one
  pub last : log.last ≡ b
  pub next_page : log.next_page ≡ b * 16

module _ (fresh buf : ℕ → FullPage) (n : Nand) (v : IsFormatted n.features) (lists : FreeList)
    (b : ℕ) (h : b < n.features.num_blocks) (e : lists.complete_head ≡ b * 16) where
  abbrev Result : List ℕ → ℕ → ActiveLog → Type 0
  Result addresses rounds log =
      (n' : Nand) × (lists' : FreeList) × (log' : ActiveLog) × (take_pages fresh buf rounds n lists
          log
        ≡ some (addresses, n', lists', log'))
      × Begun n' b log'

  last_page :
      (log : ActiveLog)
      → log.log.prev ≡ minus_one
      → log.last < n.features.num_blocks
      → log.next_page ≡ log.last * 16 + 14
      → Result ((log.last * 16 + 14) ∷ []) 1 log
  last_page log prev last next =
      go (move n v lists log (fresh 0) (buf 0) (omega arith) (omega arith) b h e)
    where
      go :
          (a : Allocated) × (get_free_page working n lists log (fresh 0) (buf 0) ≡ some a)
            × Moved n lists log b a
          → Result ((log.last * 16 + 14) ∷ []) 1 log
      go (a, run, made) = (
        a.nand,
        a.lists,
        a.log,
        rw (run, made.address, next),
        record { prev = rw made.header prev; last = made.last; next_page = made.next_page },
      )

  step :
      (log : ActiveLog) (rounds next : ℕ) (addresses : List ℕ)
      → (a : Allocated) × (get_free_page working n lists log (fresh rounds) (buf rounds) ≡ some a)
        × Advanced n lists log (fresh rounds) next a
      → ((log' : ActiveLog)
          → log'.log.prev ≡ log.log.prev
          → log'.last ≡ log.last
          → log'.next_page ≡ next
          → Result addresses rounds log')
      → Result (log.next_page ∷ addresses) (suc rounds) log
  step log rounds next addresses (a, run, made) rest =
      let (n', lists', log', runs, begun) = rest a.log (rw made.header) made.last made.next_page in
      (n', lists', log', rw (run, made.nand, made.lists, runs, made.address), begun)

  after_lost :
      (log : ActiveLog)
      → log.log.prev ≡ minus_one
      → log.last < n.features.num_blocks
      → log.next_page ≡ minus_one
      → Result (minus_one ∷ (log.last * 16 + 14) ∷ []) 2 log
  after_lost log prev last next =
      subst (λ k. Result (k ∷ (log.last * 16 + 14) ∷ []) 2 log) next
        (step log 1 (log.last * 16 + 14) ((log.last * 16 + 14) ∷ [])
          (advance_lost n v lists log (fresh 1) (buf 1) next last)
          (λ log' p l k.
            subst (λ c. Result ((c * 16 + 14) ∷ []) 1 log') l
              (last_page log' (rw p prev) (rw l last) (rw l k))))

  inner :
      (left : ℕ) (log : ActiveLog)
      → log.log.prev ≡ minus_one
      → log.last < n.features.num_blocks
      → left < 14
      → log.next_page ≡ log.last * 16 + (13 - left)
      → Result
          (count_from log.next_page (suc left) ++ (minus_one ∷ (log.last * 16 + 14) ∷ []))
          (suc (suc (suc left)))
          log
  inner zero log prev last lt next =
      step log 2 minus_one (minus_one ∷ (log.last * 16 + 14) ∷ [])
        (advance_thirteen n v lists log (fresh 2) (buf 2) (omega arith) prev (omega arith))
        (λ log' p l k.
          subst (λ c. Result (minus_one ∷ (c * 16 + 14) ∷ []) 2 log') l
            (after_lost log' (rw p prev) (rw l last) k))
  inner (suc left) log prev last lt next =
      step log (suc (suc (suc left))) (log.next_page + 1) _
        (advance_inner n v lists log (fresh (suc (suc (suc left)))) (buf (suc (suc (suc left))))
          (omega arith) (omega arith))
        (λ log' p l k.
          subst
            (λ c.
              Result (count_from c (suc left) ++ (minus_one ∷ (log.last * 16 + 14) ∷ []))
                (suc (suc (suc left))) log')
            k
            (subst
              (λ c.
                Result (count_from log'.next_page (suc left) ++ (minus_one ∷ (c * 16 + 14) ∷ []))
                  (suc (suc (suc left))) log')
              l
              (inner left log' (rw p prev) (rw l last) (omega arith)
                (rw (k, l) (omega (arith, next))))))

  -- With the first page of a block of the store at the head of the completely used free list,
  -- which the 0 of an empty list is too, and -1 as the field `prev` of the log's header, sixteen
  -- calls of getFreePage from the first page of the log's last block, which the store has, on
  -- hand out the pages of index 0 to 13 of it, the address -1 and the page of index 14. The log
  -- then stands at that head.
  pub take_pages-block :
      (log : ActiveLog)
      → log.log.prev ≡ minus_one
      → log.last < n.features.num_blocks
      → log.next_page ≡ log.last * 16
      → (n' : Nand) × (lists' : FreeList) × (log' : ActiveLog) × (take_pages fresh buf 16 n lists
            log
          ≡ some (
            count_from (log.last * 16) 14 ++ (minus_one ∷ (log.last * 16 + 14) ∷ []),
            n',
            lists',
            log',
          ))
        × Begun n' b log'
  take_pages-block log prev last next =
      subst (λ c. Result (count_from c 14 ++ (minus_one ∷ (log.last * 16 + 14) ∷ [])) 16 log) next
        (inner 13 log prev last (omega arith) (rw next (omega arith)))
