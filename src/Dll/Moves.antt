-- ===== src/Dll/Moves.antt =====
-- A struct of the list becomes the head.
use mathlib.Core.Path.{subst, sym}
use mathlib.Core.List.{append_assoc}
use cycology.Base.{
  ℕ, ◌≡◌, ◌≢◌, refl, ◌∙◌, List, [], ◌∷◌, ◌++◌, arith, store, store_same, store_other, AllNe,
  Distinct, AllNe-append, Distinct-append, ne→==,
}
use cycology.Dll.{Dll, move_to_head}
use cycology.Dll.Chained.{
  Leads, Chained-Leads, Leads-store, Chained, IsDll, Chained-store_next, Chained-store_prev,
  Chained-split, Chained-reroot,
}
use cycology.Dll.Refine.{dll}

-- The fields `next` lead past `x` after the two stores.
bypassed :
    (next : ℕ → ℕ) (y x v s : ℕ) (ws ys : List ℕ)
    → Distinct (ws ++ y ∷ x ∷ ys)
    → Leads next s (ws ++ y ∷ x ∷ ys) 0
    → Leads (store (store next y (next x)) x v) s (ws ++ y ∷ ys) 0
bypassed next y x v s [] ys d (e, (e', l)) = (
  e,
  subst (λ t. Leads (store (store next y (next x)) x v) t ys 0)
      (sym (
        store_other (store next y (next x)) x v y (λ q. d.0.0 (sym q))
        ∙ store_same next y (next x)))
      (Leads-store (store next y (next x)) x v (next x) ys 0 d.1.0
        (Leads-store next y (next x) (next x) ys 0 d.0.1 l)),
)
bypassed next y x v s (w ∷ ws) ys d (e, l) =
    let (_, (ny, (nx, _))) = AllNe-append w ws (y ∷ x ∷ ys) d.0 in
    (
      e,
      subst (λ t. Leads (store (store next y (next x)) x v) t (ws ++ y ∷ ys) 0)
          (sym (
            store_other (store next y (next x)) x v w (λ q. nx (sym q))
            ∙ store_other next y (next x) w (λ q. ny (sym q))))
          (bypassed next y x v (next w) ws ys d.1 l),
    )

module _ (head tail : ℕ) (next prev : ℕ → ℕ) (x : ℕ) where
  move_first :
      (ys : List ℕ)
      → IsDll (dll head tail next prev) (x ∷ ys)
      → move_to_head (dll head tail next prev) x ≡ dll head tail next prev
  unfolding move_to_head
  move_first ys v = rw v.chained.1 refl

  move_second :
      (y : ℕ) (ys : List ℕ)
      → Distinct (y ∷ x ∷ ys)
      → AllNe 0 (y ∷ x ∷ ys)
      → head ≡ y
      → prev x ≡ y
      → Chained next prev x (next x) ys tail 0
      → IsDll (move_to_head (dll head tail next prev) x) (x ∷ y ∷ ys)
  unfolding move_to_head
  move_second y [] d nz e p (n, l) =
      rw (p, n, e, ne→== y 0 nz.0)
        (record {
          distinct = ((λ q. d.0.0 (sym q), tt), (tt, tt));
          nonnull = (nz.1.0, (nz.0, tt));
          chained = (
            refl,
            ground arith,
            (ground arith, ground (arith, d.0.0), (ground (arith, d.0.0), refl)),
          );
        })
  move_second y (z ∷ zs) d nz e p (n, l, c) =
      let (ny, (nx, nzs)) = nz in
      rw (p, n, e, ne→== y 0 ny, ne→== z 0 nzs.0)
        (record {
          distinct = ((λ q. d.0.0 (sym q), d.1.0), (d.0.1, d.1.1));
          nonnull = (nx, (ny, nzs));
          chained = (
            refl,
            ground arith,
            (
              ground arith,
              ground (arith, d.0.0, d.0.1.0),
              subst
                  (λ s.
                    Chained (store (store next y z) x y) (store (store (store prev y x) z y) x 0) y
                      s (z ∷ zs) tail 0)
                  (ground (arith, d.0.0))
                  (Chained-store_next (store next y z) (store (store (store prev y x) z y) x 0) x y
                    y z (z ∷ zs) tail 0 d.1.0
                    (Chained-store_next next (store (store (store prev y x) z y) x 0) y z y z
                      (z ∷ zs) tail 0 d.0.1
                      (Chained-store_prev next (store (store prev y x) z y) x 0 y z (z ∷ zs) tail 0
                        d.1.0
                        (Chained-reroot next (store prev y x) x z z zs tail 0 y d.1.1.0 (
                          Chained-store_prev next prev y x x z (z ∷ zs) tail 0 d.0.1
                            (refl, l, c)))))),
            ),
          );
        })

  move_fields :
      (y : ℕ)
      → prev x ≡ y
      → y ≢ 0
      → ((move_to_head (dll head tail next prev) x).head ≡ x)
        × ((move_to_head (dll head tail next prev) x).next ≡ store (store next y (next x)) x head)
  unfolding move_to_head
  move_fields y p nz = (rw (p, ne→== y 0 nz) refl, rw (p, ne→== y 0 nz) refl)

  move_forward :
      (y : ℕ) (ws ys : List ℕ)
      → prev x ≡ y
      → y ≢ 0
      → Distinct (ws ++ y ∷ x ∷ ys)
      → Leads next head (ws ++ y ∷ x ∷ ys) 0
      → ((move_to_head (dll head tail next prev) x).head ≡ x)
        × Leads (move_to_head (dll head tail next prev) x).next x (x ∷ (ws ++ y ∷ ys)) 0
  move_forward y ws ys p nz d l =
      let (first, leads) = move_fields y p nz in
      (
        first,
        subst (λ f. Leads f x (x ∷ (ws ++ y ∷ ys)) 0) (sym leads)
            (
              refl,
              subst (λ s. Leads (store (store next y (next x)) x head) s (ws ++ y ∷ ys) 0)
                  (sym (store_same (store next y (next x)) x head))
                  (bypassed next y x head head ws ys d l),
            ),
      )

  move_prev :
      (y : ℕ)
      → prev x ≡ y
      → y ≢ 0
      → x ≢ y
      → next x ≢ y
      → (move_to_head (dll head tail next prev) x).prev y ≡ x
  unfolding move_to_head
  move_prev y p nz ne ne' = ground (arith, p)

pub move_to_head-IsDll :
    (d : Dll) (y x : ℕ) (ys : List ℕ) → IsDll d (y ∷ x ∷ ys) → IsDll (move_to_head d x) (x ∷ y ∷ ys)
move_to_head-IsDll d y x ys v =
    move_second d.head d.tail d.next d.prev x y ys v.distinct v.nonnull v.chained.0 v.chained.2.1
      v.chained.2.2

-- what follows the last of a segment is not `k`
following_ne :
    (next prev : ℕ → ℕ) (k before start : ℕ) (ys : List ℕ) (last : ℕ)
    → k ≢ 0
    → AllNe k ys
    → Chained next prev before start ys last 0
    → start ≢ k
following_ne next prev k before start [] last nz ne c = rw c.0 (λ q. nz (sym q))
following_ne next prev k before start (y ∷ ys) last nz ne c = rw c.0 ne.0

-- `x` moved from the third place or one behind it: the fields `next` lead through the moved list, but the
-- struct that stood before it leads back to it, and not to the one before.
pub move_to_head_back :
    (d : Dll) (xs : List ℕ) (z y x : ℕ) (ys : List ℕ)
    → IsDll d (xs ++ z ∷ y ∷ x ∷ ys)
    → ((move_to_head d x).head ≡ x)
      × Leads (move_to_head d x).next x (x ∷ xs ++ z ∷ y ∷ ys) 0
      × ((move_to_head d x).prev y ≡ x)
      × (x ≢ z)
move_to_head_back d xs z y x ys v =
    let (_, _, _, c) =
      Chained-split d.next d.prev 0 d.head xs (z ∷ y ∷ x ∷ ys) d.tail 0 v.chained in
    let (_, (_, (nny, _))) = AllNe-append 0 xs (z ∷ y ∷ x ∷ ys) v.nonnull in
    let (_, (az, (ay, ax))) = Distinct-append xs (z ∷ y ∷ x ∷ ys) v.distinct in
    let (head, forward) =
      move_forward d.head d.tail d.next d.prev x y (xs ++ z ∷ []) ys c.2.2.1 nny
        (subst Distinct (sym (append_assoc xs (z ∷ []) (y ∷ x ∷ ys))) v.distinct)
        (subst (λ l. Leads d.next d.head l 0) (sym (append_assoc xs (z ∷ []) (y ∷ x ∷ ys)))
          (Chained-Leads d.next d.prev 0 d.head (xs ++ z ∷ y ∷ x ∷ ys) d.tail 0 v.chained)) in
    (
      head,
      subst (λ l. Leads (move_to_head d x).next x (x ∷ l) 0) (append_assoc xs (z ∷ []) (y ∷ ys))
          forward,
      move_prev d.head d.tail d.next d.prev x y c.2.2.1 nny ay.0
          (following_ne d.next d.prev y x (d.next x) ys d.tail nny ay.1 c.2.2.2),
      az.1.0,
    )
