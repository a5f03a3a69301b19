-- ===== src/Mount/Fresh.antt =====
-- From makeVirtualNAND to the first mount.
use cycology.Base.{ℕ, ◌+◌, ◌*◌, ◌^◌, ◌<◌, ◌≡◌, refl, ◌∙◌, some, true, arith, ◌==◌, if◌then◌else◌}
use cycology.Disk.{FullPage}
use cycology.Disk.Images.{Image, page_of}
use cycology.Nand.{Nand, Features, init_nand}
use cycology.Nand.Layout.{IsFormatted}
use cycology.Nand.Write.{working}
use cycology.Makefs.{new_features, make_virtual_nand, makefs}
use cycology.Makefs.Link.{IsFresh}
use cycology.Mount.{CycState, init_cyc_state}
use cycology.Mount.Empty.{IsUnused, makefs-IsUnused}

-- the NAND that initNAND opens on a file; `old` is what the static features were
unfoldable pub opened : Image → Features → Nand
opened file old = record { file = file; features = init_nand true working file old }

module _ (num_blocks : ℕ) (small : 8 + 16776 * num_blocks < 2 ^ 31) where
  -- the file that makeVirtualNAND makes of an empty one
  abbrev new_file : Image
  new_file i = if i == 0 then num_blocks else if i == 1 then 8 + 16776 * num_blocks else 0

  make_virtual_nand_lem :
      (file : Image) × (make_virtual_nand true true (λ _. 0) num_blocks ≡ some file)
      × ((i : ℕ) → file i ≡ new_file i)
  unfolding make_virtual_nand new_features
  make_virtual_nand_lem = (_, refl, λ i. ground arith)

  opened-IsFormatted :
      (file : Image) (old : Features)
      → ((i : ℕ) → file i ≡ new_file i)
      → IsFormatted (opened file old).features
  unfolding opened init_nand
  opened-IsFormatted file old same = record {
    size = ground (arith, same 0, same 1);
    small = ground (arith, same 0, same 1);
  }

  opened-IsFresh :
      (file : Image) (old : Features)
      → ((i : ℕ) → file i ≡ new_file i)
      → IsFresh (opened file old) 0
  unfolding opened page_of
  opened-IsFresh file old same = record {
    next_page = λ j h. same _ ∙ ground arith;
    unlinked = λ j h. same _ ∙ ground arith;
  }

  num_blocks-opened :
      (file : Image) (old : Features)
      → ((i : ℕ) → file i ≡ new_file i)
      → (opened file old).features.num_blocks ≡ num_blocks
  unfolding opened init_nand
  num_blocks-opened file old same = same 0

-- On the file that makeVirtualNAND makes for at least three blocks, of less than 2 ^ 31 bytes, initNAND
-- and makefs succeed, and what initCYCstate then reads is an unused file system: the virtual addresses
-- from 1 to 253 and all blocks but the first two are free.
pub make_virtual_nand-IsUnused :
    (num_blocks : ℕ) (old : Features) (buf : FullPage) (memory : Image) (table : ℕ → ℕ)
    → 2 < num_blocks
    → 8 + 16776 * num_blocks < 2 ^ 31
    → (file : Image) × (n : Nand) × (state : CycState) × (make_virtual_nand true true
          (λ _. 0)
          num_blocks
        ≡ some file)
      × ((opened file old).features.num_blocks ≡ num_blocks)
      × (makefs (λ _. working) (opened file old) ≡ some n)
      × (init_cyc_state working n n.features buf memory table ≡ some state)
      × IsUnused n state
make_virtual_nand-IsUnused num_blocks old buf memory table enough small =
    let (file, made, same) = make_virtual_nand_lem num_blocks small in
    let count = num_blocks-opened num_blocks small file old same in
    let (n, state, run, mounted, unused) =
      makefs-IsUnused (opened file old) buf memory table
        (opened-IsFormatted num_blocks small file old same) (rw count enough)
        (opened-IsFresh num_blocks small file old same) in
    (file, n, state, made, count, run, mounted, unused)
