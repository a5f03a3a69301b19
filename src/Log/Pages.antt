-- ===== src/Log/Pages.antt =====
-- getFreePage of helper.c: the order in which a log's pages are handed out. The field `prev` of a
-- header keeps the -1 of initLogHeader, since no function writes it again.
use native.Mathlib.Decide.{ℕ_discrete, dec_lt}
use mathlib.Core.Path.{subst}
use cycology.Base.{ℕ, ◌+◌, ◌*◌, ◌/◌, ◌%◌, ◌<◌, ◌≡◌, ◌≢◌, ◌⊎◌, inl, inr, some, arith, minus_one}
use cycology.Disk.{FullPage, FreeList}
use cycology.Nand.{Nand}
use cycology.Nand.Layout.{IsFormatted}
use cycology.Nand.Write.{working}
use cycology.Log.{ActiveLog, Allocated, get_free_page}
use cycology.Log.Steps.{
  IsPlaced, Advanced, next_position, advance_inner, advance_thirteen, advance_lost, move,
}

module _ (n : Nand) (v : IsFormatted n.features) (lists : FreeList) (log : ActiveLog)
    (fresh buf : FullPage) where
  -- the result of a call that moves on to `next` within the block
  abbrev Advances : ℕ → Type 0
  Advances next =
      (a : Allocated) × (get_free_page working n lists log fresh buf ≡ some a)
      × Advanced n lists log fresh next a

  -- At any place but the last page but one of a block, getFreePage hands out the next page, touches
  -- neither the store nor the free lists, counts one more active page and moves on: from the page of
  -- index 13 to -1, from -1 to the page of index 14, and otherwise to the page that follows.
  pub get_free_page-Advanced :
      IsPlaced n log
      → log.next_page % 16 ≢ 14
      → (a : Allocated) × (get_free_page working n lists log fresh buf ≡ some a)
        × Advanced n lists log fresh (next_position log) a
  get_free_page-Advanced p ne = elim p.next_page [
    | inl e ↦ subst Advances (at_lost e) (advance_lost n v lists log fresh buf e p.last)
    | inr (e, i) ↦ elim (dec_lt (log.next_page % 16) 13) [
      | yes h ↦
          subst Advances (at_inner (inside e p.last) h)
            (advance_inner n v lists log fresh buf (inside e p.last) h)
      | no h ↦
          subst Advances (at_thirteen (inside e p.last) (omega arith))
            (advance_thirteen n v lists log fresh buf (inside e p.last) p.prev (omega arith))
    ]
  ]
    where
      inside :
          log.next_page / 16 ≡ log.last
          → log.last < n.features.num_blocks
          → log.next_page < n.features.num_blocks * 16
      inside e h = omega arith

      at_lost : log.next_page ≡ minus_one → log.last * 16 + 14 ≡ next_position log
      at_lost e = ground arith

      at_inner :
          log.next_page < n.features.num_blocks * 16
          → log.next_page % 16 < 13
          → log.next_page + 1 ≡ next_position log
      at_inner h i = ground (arith, v.size, v.small)

      at_thirteen :
          log.next_page < n.features.num_blocks * 16
          → log.next_page % 16 ≡ 13
          → minus_one ≡ next_position log
      at_thirteen h i = ground (arith, v.size, v.small)

  Advanced-IsPlaced :
      (a : Allocated)
      → IsPlaced n log
      → log.next_page % 16 ≢ 14
      → Advanced n lists log fresh (next_position log) a
      → IsPlaced a.nand a.log
  Advanced-IsPlaced a p ne made = record {
    prev = rw made.header p.prev;
    last = rw (made.nand, made.last) p.last;
    next_page = rw (made.next_page, made.last) (position p.next_page);
  }
    where
      position :
          (log.next_page ≡ minus_one)
            ⊎ ((log.next_page / 16 ≡ log.last) × (log.next_page % 16 < 15))
          → (next_position log ≡ minus_one)
            ⊎ ((next_position log / 16 ≡ log.last) × (next_position log % 16 < 15))
      position (inl e) = inr (ground arith, ground arith)
      position (inr (e, i)) = elim (ℕ_discrete (log.next_page % 16) 13) [
        | yes h ↦ inl (ground (arith, v.size, v.small, p.last))
        | no h ↦
            inr (ground (arith, v.size, v.small, p.last), ground (arith, v.size, v.small, p.last))
      ]

  -- If the head of the completely used free list is the first page of a block of the store, which
  -- the 0 of an empty list is too, getFreePage succeeds at every place of a log, where the field
  -- `prev` of its header is -1, hands out its next page and leaves it at such a place. So the
  -- last page of a block is never handed out.
  pub get_free_page-IsPlaced :
      (b : ℕ)
      → b < n.features.num_blocks
      → lists.complete_head ≡ b * 16
      → IsPlaced n log
      → (a : Allocated) × (get_free_page working n lists log fresh buf ≡ some a)
        × (a.buf.address ≡ log.next_page)
        × IsPlaced a.nand a.log
  get_free_page-IsPlaced b h e p = elim (ℕ_discrete (log.next_page % 16) 14) [
    | yes i ↦
        let (a, run, made) = move n v lists log fresh buf (at_last_but_one i) i b h e in
        (
          a,
          run,
          made.address,
          record {
            prev = rw made.header p.prev;
            last = rw (made.erased.features, made.last) h;
            next_page =
                inr (rw (made.next_page, made.last) (omega arith), rw made.next_page (omega arith));
          },
        )
    | no ne ↦
        let (a, run, made) = get_free_page-Advanced p ne in
        (a, run, made.address, Advanced-IsPlaced a p ne made)
  ]
    where
      at_last_but_one : log.next_page % 16 ≡ 14 → log.next_page < n.features.num_blocks * 16
      at_last_but_one i = elim p.next_page [
        | inl e ↦ absurd (omega arith)
        | inr (e, lt) ↦ omega (arith, p.last)
      ]
