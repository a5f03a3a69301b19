-- ===== src/Mount/Images.antt =====
-- The super block and the address map as the pages of xmp_destroy hold them and initCYCstate reads them.
use cycology.Base.{ℕ, ◌+◌, ◌*◌, ◌/◌, ◌<◌, ◌≤◌, ◌≡◌, refl, ◌∙◌, arith}
use cycology.Disk.{FullPage, SuperPage, AddrMap}
use cycology.Disk.Images.{Image, paste, page_image, super_image, super_of, map_image, map_of}
use cycology.Nand.Pages.{SamePage}
use cycology.Mount.{map_bytes, updated_map}

-- two maps with the same size, the same first unused entry and the same entries
pub record SameMap (m k : AddrMap) : Type 0 where
  pub size : m.size ≡ k.size
  pub free_ptr : m.free_ptr ≡ k.free_ptr
  pub entries : (i : ℕ) → i < k.size → m.map i ≡ k.map i

pub map_bytes_lem : (size : ℕ) → size ≤ 254 → map_bytes size ≡ 8 + 4 * size
map_bytes_lem size h = omega arith

pub super_of-words : (w w' : Image) → ((i : ℕ) → i < 10 → w i ≡ w' i) → super_of w ≡ super_of w'
unfolding super_of
super_of-words w w' h = rw (
  h 0 (omega arith),
  h 1 (omega arith),
  h 2 (omega arith),
  h 3 (omega arith),
  h 4 (omega arith),
  h 5 (omega arith),
  h 6 (omega arith),
  h 7 (omega arith),
  h 8 (omega arith),
  h 9 (omega arith),
)

pub super_of-super_image : (s : SuperPage) (w : Image) → super_of (super_image s w) ≡ s
unfolding super_of super_image
super_of-super_image s w = refl

pub page_image_word : (p : FullPage) (i : ℕ) → i < 256 → page_image p i ≡ p.contents i
unfolding page_image
page_image_word p i h = ground arith

pub updated_map_word :
    (page : FullPage) (m : AddrMap) (i : ℕ)
    → m.size ≤ 254
    → i < 2 + m.size
    → (updated_map page m).contents i ≡ map_image m (λ _. 0) i
unfolding updated_map
updated_map_word page m i small h = rw (map_bytes_lem m.size small) (ground arith)

map_image_entry : (m : AddrMap) (i : ℕ) → i < m.size → map_image m (λ _. 0) (2 + i) ≡ m.map i
unfolding map_image
map_image_entry m i h = ground arith

-- what a page with a map on it, copied to memory, is read as
pub map_of-SameMap :
    (page zeroth : FullPage) (m : AddrMap) (memory : Image)
    → m.size ≤ 254
    → SamePage page (updated_map zeroth m)
    → SameMap
        (map_of (paste memory 0 (map_bytes (map_of (page_image page)).size / 4) (page_image page)))
        m
unfolding map_of map_image
map_of-SameMap page zeroth m memory small same =
    let word : (i : ℕ) → i < 2 + m.size → page_image page i ≡ map_image m (λ _. 0) i = λ i h.
      page_image_word page i (omega arith)
      ∙ same.contents i (omega arith)
      ∙ updated_map_word zeroth m i small h in
    let size : page_image page 0 ≡ m.size = word 0 (omega arith) in
    rw (size, map_bytes_lem m.size small)
      (record {
        size = ground arith;
        free_ptr = ground (arith, word 1 (omega arith));
        entries = λ i h. ground (arith, word (2 + i) (omega arith), map_image_entry m i h);
      })
