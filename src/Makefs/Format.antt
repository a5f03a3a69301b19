-- ===== src/Makefs/Format.antt =====
-- What makefs leaves on a fresh store.
use mathlib.Core.Path.{subst, sym, ap}
use cycology.Base.{ℕ, suc, ◌+◌, ◌*◌, ◌-◌, ◌≤◌, ◌<◌, ◌≡◌, some, arith, ◌^◌, is_neg, false, ◌∙◌}
use cycology.Disk.{SuperPage, AddrMap}
use cycology.Nand.{Nand, write_nand}
use cycology.Nand.Layout.{IsFormatted}
use cycology.Nand.Pages.{page_at, SamePage, SamePage-trans}
use cycology.Nand.Write.{working}
use cycology.Nand.Chain.{next_link, Chain}
use cycology.Disk.Images.{super_image, super_of, map_image, map_of}
use cycology.Makefs.{
  super_page, vaddr_page, cleared_page, initial_super, initial_map, write_out_super_block,
  write_out_vaddr_map, link_loop, link_free_blocks, makefs,
}
use cycology.Makefs.Link.{
  IsFresh, Started, Linked, start_block, link_loop-Linked, blocks_from, links-Chain,
}

abbrev pub super_at : Nand → SuperPage
super_at n = super_of (page_at n 0).contents

abbrev pub map_at : Nand → AddrMap
map_at n = map_of (page_at n 16).contents

-- an empty file system: the super block on page 0, the address map with all addresses free on page
-- 16, and all other blocks in the partially used free list, in order
pub record IsEmptyFs (n : Nand) : Type 0 where
  pub formatted : IsFormatted n.features
  pub enough : 2 < n.features.num_blocks
  pub partial_head : (super_at n).free_lists.partial_head ≡ 32
  pub partial_tail : (super_at n).free_lists.partial_tail ≡ (n.features.num_blocks - 1) * 16
  pub complete_head : (super_at n).free_lists.complete_head ≡ 0
  pub complete_tail : (super_at n).free_lists.complete_tail ≡ 0
  pub latest_vaddr_map : (super_at n).latest_vaddr_map ≡ 16
  pub chain : Chain n 32 (blocks_from 2 (n.features.num_blocks - 2))
  pub map_size : (map_at n).size ≡ 254
  pub free_ptr : (map_at n).free_ptr ≡ 1
  pub map_links : (i : ℕ) → 0 < i → i < 253 → (map_at n).map i ≡ 2 ^ 32 - (i + 1)
  pub map_end : (map_at n).map 253 ≡ 0

pages-IsEmptyFs :
    (n : Nand)
    → IsFormatted n.features
    → 2 < n.features.num_blocks
    → SamePage (page_at n 0) (super_page n.features.num_blocks)
    → SamePage (page_at n 16) vaddr_page
    → ((b : ℕ) → 2 ≤ b → b < n.features.num_blocks - 1 → next_link n (b * 16) ≡ (b + 1) * 16)
    → next_link n ((n.features.num_blocks - 1) * 16) ≡ 0
    → IsEmptyFs n
unfolding super_of super_image initial_super map_of map_image initial_map cleared_page
pages-IsEmptyFs n v enough zeroth sixteenth links end = record {
  formatted = v;
  enough = enough;
  partial_head = zeroth.contents 0 (omega arith);
  partial_tail = zeroth.contents 2 (omega arith) ∙ omega arith;
  complete_head = zeroth.contents 3 (omega arith);
  complete_tail = zeroth.contents 5 (omega arith);
  latest_vaddr_map = zeroth.contents 7 (omega arith);
  chain =
      subst (λ k. Chain n 32 (blocks_from 2 k)) count
        (links-Chain (n.features.num_blocks - 3) 2 n (omega arith) (omega arith)
          (λ b le lt. links b le (omega arith)) (subst (λ k. next_link n (k * 16) ≡ 0) last end));
  map_size = sixteenth.contents 0 (omega arith);
  free_ptr = sixteenth.contents 1 (omega arith);
  map_links = λ i pos lt. sixteenth.contents (2 + i) (omega arith) ∙ ground arith;
  map_end = sixteenth.contents 255 (omega arith);
}
  where
    count : suc (n.features.num_blocks - 3) ≡ n.features.num_blocks - 2
    count = omega arith

    last : n.features.num_blocks - 1 ≡ 2 + (n.features.num_blocks - 3)
    last = omega arith

-- The three steps of makefs, put together.
steps-IsEmptyFs :
    {n a b c : Nand}
    → IsFormatted n.features
    → 2 < n.features.num_blocks
    → Started n (super_page n.features.num_blocks) 0 a
    → Started a vaddr_page 1 b
    → Linked b 2 (2 + (b.features.num_blocks - 3)) c
    → IsEmptyFs c
steps-IsEmptyFs {n} {a} {b} {c} v enough made mapped linked =
    pages-IsEmptyFs c (subst IsFormatted (sym kept) v) (omega (arith, count))
      (subst (λ k. SamePage (page_at c 0) (super_page k)) (sym count)
        (SamePage-trans (linked.others 0 (omega arith))
          (SamePage-trans (mapped.others 0 (omega arith)) made.page)))
      (SamePage-trans (linked.others 16 (omega arith)) mapped.page)
      (λ j le lt. linked.links j le (omega (arith, count, count_mapped)))
      (linked.fresh.unlinked (c.features.num_blocks - 1) (omega (arith, count, count_mapped)))
  where
    kept : c.features ≡ n.features
    kept = linked.features ∙ mapped.features ∙ made.features

    count : c.features.num_blocks ≡ n.features.num_blocks
    count = ap (λ f. f.num_blocks) kept

    count_mapped : b.features.num_blocks ≡ n.features.num_blocks
    count_mapped = ap (λ f. f.num_blocks) (mapped.features ∙ made.features)

-- makefs makes an empty file system of a fresh store of at least three blocks, if every call of the
-- file system succeeds.
pub makefs-IsEmptyFs :
    (n : Nand)
    → IsFormatted n.features
    → 2 < n.features.num_blocks
    → IsFresh n 0
    → (n' : Nand) × (makefs (λ _. working) n ≡ some n') × IsEmptyFs n'
unfolding makefs write_out_super_block write_out_vaddr_map link_free_blocks
makefs-IsEmptyFs n v enough fresh =
    zeroth (start_block n 0 (super_page n.features.num_blocks) v (omega arith) fresh (omega arith))
  where
    second :
        {a b : Nand}
        → write_nand working n (super_page n.features.num_blocks) 0 false ≡ some (16776, a)
        → Started n (super_page n.features.num_blocks) 0 a
        → write_nand working a vaddr_page 16 false ≡ some (16776, b)
        → Started a vaddr_page 1 b
        → (n' : Nand) × (link_loop (λ _. working) (b.features.num_blocks - 3) 2 b ≡ some n')
          × Linked b 2 (2 + (b.features.num_blocks - 3)) n'
        → (n' : Nand) × (makefs (λ _. working) n ≡ some n') × IsEmptyFs n'
    second {a} {b} ea made eb mapped (c, ec, linked) =
        let positive : is_neg b.features.num_blocks ≡ false =
          rw (mapped.features, made.features) (ground arith) in
        (c, rw (ea, eb, positive) ec, steps-IsEmptyFs v enough made mapped linked)

    first :
        {a : Nand}
        → write_nand working n (super_page n.features.num_blocks) 0 false ≡ some (16776, a)
        → Started n (super_page n.features.num_blocks) 0 a
        → (b : Nand) × (write_nand working a vaddr_page 16 false ≡ some (16776, b))
          × Started a vaddr_page 1 b
        → (n' : Nand) × (makefs (λ _. working) n ≡ some n') × IsEmptyFs n'
    first {a} ea made (b, eb, mapped) = second ea made eb mapped (
        link_loop-Linked (b.features.num_blocks - 3) 2 b (rw (mapped.features, made.features) v)
          (rw (mapped.features, made.features) (omega arith)) mapped.fresh)

    zeroth :
        (a : Nand) × (write_nand working n (super_page n.features.num_blocks) 0 false
            ≡ some (16776, a))
          × Started n (super_page n.features.num_blocks) 0 a
        → (n' : Nand) × (makefs (λ _. working) n ≡ some n') × IsEmptyFs n'
    zeroth (a, ea, made) = first ea made (
        start_block a 1 vaddr_page (rw made.features v) (rw made.features (omega arith)) made.fresh
          (omega arith))
