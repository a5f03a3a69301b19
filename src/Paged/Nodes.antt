-- ===== src/Paged/Nodes.antt =====
-- The list of nodes under cacheLoop's stores: JuliaRehaanExample/pageCache.c.
use mathlib.Core.Path.{subst}
use cycology.Base.{
  ℕ, ◌≡◌, ◌≢◌, refl, sym, ◌∙◌, inl, inr, some, List, [], ◌∷◌, ◌++◌, arith, store, AllNe,
  AllNe-append, append-AllNe, some_injective, Distinct-middle, eq-cases, ne→==, eq→==, ◌==◌,
  if◌then◌else◌,
}
use cycology.Dll.{Dll, unlink_next, unlink_prev, unlink, add_to_head}
use cycology.Dll.Chained.{Chained, IsDll, Chained-split, Chained-end_ne, IsDll-agree}
use cycology.Dll.Refine.{dll, add_to_head-IsDll}
use cycology.Dll.Removal.{unlink-IsDll}
use cycology.Paged.{LogSysCon, Host, File, move_to_head, new_node, add_page}

-- The nodes of the list are `nodes`, linked forwards and backwards; `tail` is the last one.
abbrev pub IsList : LogSysCon → ℕ → List ℕ → Type 0
IsList c tail nodes = IsDll (dll c.head tail c.next c.prev) nodes

-- the list without a node in its middle
abbrev without : LogSysCon → ℕ → ℕ → Dll
without c tail x =
    dll c.head (if c.next x == 0 then c.prev x else tail) (store c.next (c.prev x) (c.next x))
      (if c.next x == 0 then c.prev else store c.prev (c.next x) (c.prev x))

commute :
    (a : ℕ → ℕ) (i v j w p : ℕ) → i ≢ j → store (store a j w) i v p ≡ store (store a i v) j w p
commute a i v j w p ne = ground arith

module _ (c : LogSysCon) (tail x : ℕ) where
  unlink_middle :
      x ≢ c.head
      → c.prev x ≢ 0
      → x ≢ c.prev x
      → (x == tail) ≡ (c.next x == 0)
      → unlink (dll c.head tail c.next c.prev) x ≡ some (without c tail x)
  unfolding unlink unlink_next unlink_prev
  unlink_middle nh np npx last =
      rw (ne→== x c.head nh, ne→== (c.prev x) 0 np, ne→== x (c.prev x) npx, last)
        (elim (eq-cases (c.next x) 0) [
          | inl e ↦ rw (eq→== (c.next x) 0 e) refl
          | inr ne ↦ rw (ne→== (c.next x) 0 ne) refl
        ])

  -- The code's stores are those of a removal with a new head, apart from the order of the last two.
  same_fields :
      c.head ≢ 0
      → c.head ≢ x
      → c.prev x ≢ 0
      → x ≢ c.prev x
      → (p : ℕ)
      → ((move_to_head c x).next p ≡ (add_to_head (without c tail x) x).next p)
        × ((move_to_head c x).prev p ≡ (add_to_head (without c tail x) x).prev p)
  unfolding move_to_head add_to_head
  same_fields h hx np npx p =
      rw (ne→== (c.prev x) 0 np, ne→== c.head 0 h, ne→== x (c.prev x) npx)
        (refl, commute (without c tail x).prev x 0 c.head x p (λ e. hx (sym e)))

-- Only the last of a segment leads to its end.
last_test :
    (next prev : ℕ → ℕ) (x : ℕ) (zs : List ℕ) (tail : ℕ)
    → AllNe x zs
    → AllNe 0 zs
    → Chained next prev x (next x) zs tail 0
    → (x == tail) ≡ (next x == 0)
last_test next prev x [] tail ne nz (n, l) = rw (n, l, eq→== x x refl) refl
last_test next prev x (z ∷ zs) tail ne nz c =
    rw
      (
        ne→== x tail (λ q. Chained-end_ne next prev x x (next x) z zs tail 0 ne c (sym q)),
        ne→== (next x) 0 (λ q. nz.0 (sym c.0 ∙ q)),
      )
      refl

-- A node behind the first one becomes the head.
pub move_to_head-IsList :
    (c : LogSysCon) (tail y : ℕ) (ys : List ℕ) (x : ℕ) (zs : List ℕ)
    → IsList c tail (y ∷ ys ++ x ∷ zs)
    → (tail' : ℕ) × IsList (move_to_head c x) tail' (x ∷ y ∷ ys ++ zs)
unfolding move_to_head add_to_head
move_to_head-IsList c tail y ys x zs v =
    let (end, middle, left, (e, p, right)) =
      Chained-split c.next c.prev 0 c.head (y ∷ ys) (x ∷ zs) tail 0 v.chained in
    let (apart, after, distinct) = Distinct-middle (y ∷ ys) x zs v.distinct in
    let (nonnull, nonnull') = AllNe-append 0 (y ∷ ys) (x ∷ zs) v.nonnull in
    let np : c.prev x ≢ 0 =
      λ q. Chained-end_ne c.next c.prev 0 0 c.head y ys end middle nonnull left (sym p ∙ q) in
    let npx : x ≢ c.prev x =
      λ q. Chained-end_ne c.next c.prev x 0 c.head y ys end middle apart left (sym p ∙ sym q) in
    let h : c.head ≢ 0 = λ q. v.nonnull.0 (sym v.chained.0 ∙ q) in
    let hx : c.head ≢ x = λ q. apart.0 (sym v.chained.0 ∙ q) in
    let last = last_test c.next c.prev x zs tail after nonnull'.1 right in
    let (d, unlinked, v') = unlink-IsDll (dll c.head tail c.next c.prev) (y ∷ ys) x zs v in
    let removed : IsDll (without c tail x) (y ∷ ys ++ zs) =
      subst (λ l. IsDll l (y ∷ ys ++ zs))
        (some_injective d (without c tail x)
          (sym unlinked ∙ unlink_middle c tail x (λ q. hx (sym q)) np npx last))
        v' in
    (
      _,
      IsDll-agree (add_to_head (without c tail x) x) _ 0 (x ∷ y ∷ ys ++ zs)
          (λ q _. same_fields c tail x h hx np npx q) refl refl
          (nonnull'.0, append-AllNe 0 (y ∷ ys) zs nonnull nonnull'.1)
          (add_to_head-IsDll (without c tail x) x (y ∷ ys ++ zs) nonnull'.0
            (append-AllNe x (y ∷ ys) zs apart after) removed),
    )

pub add_page-IsList :
    (host : Host) (file : File) (c : LogSysCon) (path page_num pages tail : ℕ) (xs : List ℕ)
    → c.fresh ≢ 0
    → AllNe c.fresh xs
    → IsList c tail xs
    → (tail' : ℕ) × IsList (add_page host file c path page_num pages) tail' (c.fresh ∷ xs)
unfolding add_page new_node add_to_head
add_page-IsList host file c path page_num pages tail [] nz ne v = (
  _,
  IsDll-agree (add_to_head (dll c.head tail c.next c.prev) c.fresh) _ 0 (c.fresh ∷ [])
      (λ p _. (refl, rw v.chained.0 refl)) refl refl (nz, tt)
      (add_to_head-IsDll (dll c.head tail c.next c.prev) c.fresh [] nz ne v),
)
add_page-IsList host file c path page_num pages tail (y ∷ ys) nz ne v = (
  _,
  IsDll-agree (add_to_head (dll c.head tail c.next c.prev) c.fresh) _ 0 (c.fresh ∷ y ∷ ys)
      (λ p _. (
        refl,
        rw (v.chained.0, ne→== y 0 v.nonnull.0)
            (commute c.prev c.fresh 0 y c.fresh p (λ q. ne.0 (sym q))),
      ))
      refl refl (nz, v.nonnull)
      (add_to_head-IsDll (dll c.head tail c.next c.prev) c.fresh (y ∷ ys) nz ne v),
)
