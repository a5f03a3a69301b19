-- ===== src/Log/Steps.antt =====
-- getFreePage of helper.c, case by case.
-- header keeps the -1 of initLogHeader, since no function writes it again.
use cycology.Base.{
  Bool-cases, ℕ, ◌+◌, ◌*◌, ◌/◌, ◌%◌, ◌<◌, ◌≡◌, ◌⊎◌, inl, inr, refl, some, arith, ◌^◌, if◌then◌else◌,
  ◌==◌, add32, rem32, minus_one, ne→==, eq→==, rem32_nonneg,
}
use cycology.Disk.{FullPage, FreeList}
use cycology.Nand.{Nand}
use cycology.Nand.Layout.{IsFormatted}
use cycology.Nand.Write.{working}
use cycology.Nand.Erase.{Erased, count_read}
use cycology.Nand.Chain.{next_link}
use cycology.Log.Blocks.{take_complete_lem, block_number}
use cycology.Log.{get_free_block, ActiveLog, Allocated, get_free_page}

-- A log is at a page of its last block, but for the last page of a block, or at page -1.
pub record IsPlaced (n : Nand) (log : ActiveLog) : Type 0 where
  pub prev : log.log.prev ≡ minus_one
  pub last : log.last < n.features.num_blocks
  pub next_page :
      (log.next_page ≡ minus_one) ⊎ ((log.next_page / 16 ≡ log.last) × (log.next_page % 16 < 15))

-- `a` gives out the next page of `log` in the memory `page`, and moves on to `next`, within the block
pub record Advanced (n : Nand) (free : FreeList) (log : ActiveLog) (page : FullPage) (next : ℕ)
    (a : Allocated) : Type 0 where
  pub address : a.buf.address ≡ log.next_page
  pub contents : a.buf.page.contents ≡ page.contents
  pub page_type : a.buf.page.page_type ≡ page.page_type
  pub next_page : a.log.next_page ≡ next
  pub last : a.log.last ≡ log.last
  pub header : a.log.log ≡ record log.log { active = add32 log.log.active 1 }
  pub nand : a.nand ≡ n
  pub lists : a.lists ≡ free

-- where the log goes on, unless it is at the last page but one of a block
abbrev pub next_position : ActiveLog → ℕ
next_position log =
    if log.next_page == minus_one
    then log.last * 16 + 14
    else if log.next_page % 16 == 13
    then minus_one
    else log.next_page + 1

rem_add : (k j : ℕ) → k + j < 2 ^ 31 → rem32 (add32 k j) 16 ≡ (k + j) % 16
rem_add k j h = rw (rem32_nonneg (add32 k j) 16 (omega arith)) (omega arith)

module _ (n : Nand) (v : IsFormatted n.features) (lists : FreeList) (log : ActiveLog)
    (fresh buf : FullPage) where
  module _ (inside : log.next_page < n.features.num_blocks * 16) where
    at_first : rem32 log.next_page 16 ≡ log.next_page % 16
    at_first = rem32_nonneg log.next_page 16 (omega (arith, v.size, v.small))

    ahead : (j : ℕ) → j < 4 → rem32 (add32 log.next_page j) 16 ≡ (log.next_page + j) % 16
    ahead j h = rem_add log.next_page j (omega (arith, v.size, v.small))

    next_page_lem : add32 log.next_page 1 ≡ log.next_page + 1
    next_page_lem = omega (arith, v.size, v.small)

    pub advance_inner :
        log.next_page % 16 < 13
        → (a : Allocated) × (get_free_page working n lists log fresh buf ≡ some a)
          × Advanced n lists log fresh (log.next_page + 1) a
    unfolding get_free_page
    advance_inner i = elim (Bool-cases (log.next_page % 16 == 0)) [
      | inl e ↦
          rw (at_first, e)
            (
              _,
              refl,
              record {
                address = refl;
                contents = refl;
                page_type = refl;
                next_page = next_page_lem;
                last = refl;
                header = refl;
                nand = refl;
                lists = refl;
              },
            )
      | inr e ↦
          rw
            (
              at_first,
              e,
              ahead 3 (omega arith),
              ahead 2 (omega arith),
              ahead 1 (omega arith),
              ne→== ((log.next_page + 3) % 16) 0 (omega arith),
              ne→== ((log.next_page + 2) % 16) 0 (omega arith),
              ne→== ((log.next_page + 1) % 16) 0 (omega arith),
            )
            (
              _,
              refl,
              record {
                address = refl;
                contents = refl;
                page_type = refl;
                next_page = next_page_lem;
                last = refl;
                header = refl;
                nand = refl;
                lists = refl;
              },
            )
    ]

    pub advance_thirteen :
        log.log.prev ≡ minus_one
        → log.next_page % 16 ≡ 13
        → (a : Allocated) × (get_free_page working n lists log fresh buf ≡ some a)
          × Advanced n lists log fresh minus_one a
    unfolding get_free_page
    advance_thirteen prev i =
        rw
          (
            at_first,
            ne→== (log.next_page % 16) 0 (omega arith),
            ahead 3 (omega arith),
            eq→== ((log.next_page + 3) % 16) 0 (omega arith),
          )
          (
            _,
            refl,
            record {
              address = refl;
              contents = refl;
              page_type = refl;
              next_page = rw prev;
              last = refl;
              header = refl;
              nand = refl;
              lists = refl;
            },
          )

  pub advance_lost :
      log.next_page ≡ minus_one
      → log.last < n.features.num_blocks
      → (a : Allocated) × (get_free_page working n lists log fresh buf ≡ some a)
        × Advanced n lists log fresh (log.last * 16 + 14) a
  unfolding get_free_page
  advance_lost e h = rw e (
    _,
    refl,
    record {
      address = refl;
      contents = refl;
      page_type = refl;
      next_page = omega (arith, v.size, v.small);
      last = refl;
      header = refl;
      nand = refl;
      lists = refl;
    },
  )

-- `a` gives out the last page but one of a block, with a link to block `b`, and moves on to it
pub record Moved (n : Nand) (free : FreeList) (log : ActiveLog) (b : ℕ) (a : Allocated)
    : Type 0 where
  pub address : a.buf.address ≡ log.next_page
  pub link : a.buf.page.next_log_block ≡ b * 16
  pub erases : a.buf.page.next_block_erases ≡ free.complete_head_erases
  pub next_page : a.log.next_page ≡ b * 16
  pub last : a.log.last ≡ b
  pub header : a.log.log ≡ record log.log { active = add32 log.log.active 1 }
  pub erased : Erased n b (add32 (count_read n b) 1) a.nand
  pub complete_head : a.lists.complete_head ≡ next_link n (b * 16 + 15)

module _ (n : Nand) (v : IsFormatted n.features) (lists : FreeList) (log : ActiveLog)
    (fresh buf : FullPage) where
  pub move :
      log.next_page < n.features.num_blocks * 16
      → log.next_page % 16 ≡ 14
      → (b : ℕ) → b < n.features.num_blocks
      → lists.complete_head ≡ b * 16
      → (a : Allocated) × (get_free_page working n lists log fresh buf ≡ some a)
        × Moved n lists log b a
  unfolding get_free_page get_free_block
  move inside i b h e =
      let (r, run, page, erases, made, head, partial, tail) =
        take_complete_lem n v lists buf b h e in
      rw
        (
          at_first n v lists log fresh buf inside,
          ne→== (log.next_page % 16) 0 (omega arith),
          ahead n v lists log fresh buf inside 3 (omega arith),
          ne→== ((log.next_page + 3) % 16) 0 (omega arith),
          ahead n v lists log fresh buf inside 2 (omega arith),
          eq→== ((log.next_page + 2) % 16) 0 (omega arith),
          run,
        )
        (
          _,
          refl,
          record {
            address = refl;
            link = page;
            erases = erases;
            next_page = page;
            last = rw page (block_number n v lists buf b h);
            header = refl;
            erased = made;
            complete_head = head;
          },
        )
