-- ===== src/Dll/Removal.antt =====
-- A removal takes one struct out of the list.
use mathlib.Core.Path.{subst, sym}
use cycology.Base.{
  ℕ, ◌≡◌, ◌≢◌, refl, ap, ◌∙◌, some, ◌>>=◌, List, [], ◌∷◌, ◌++◌, arith, store, AllNe, Distinct,
  append-AllNe, AllNe-append, Distinct-middle, Distinct-append, eq→==, ne→==,
}
use cycology.Dll.{Dll, unlink_next, unlink_prev, unlink}
use cycology.Dll.Chained.{
  Chained, IsDll, Chained-store_next, Chained-store_prev, Chained-split, Chained-join,
  Chained-end_ne, Chained-end_apart, Chained-relink, Chained-reroot,
}
use cycology.Dll.Refine.{dll}

-- The fields `next` of `d` lead past `x`, which lies between `xs` and `ys`, the fields `prev` to it.
record Bypassed (d : Dll) (xs : List ℕ) (x : ℕ) (ys : List ℕ) : Type 0 where
  left : Chained d.next d.prev 0 d.head xs (d.prev x) (d.next x)
  right : Chained d.next d.prev x (d.next x) ys d.tail 0

module _ (head tail : ℕ) (next prev : ℕ → ℕ) (x : ℕ) where
  unlink_next-Bypassed :
      (xs ys : List ℕ)
      → Distinct (xs ++ x ∷ ys)
      → AllNe 0 (xs ++ x ∷ ys)
      → Chained next prev 0 head (xs ++ x ∷ ys) tail 0
      → (d' : Dll) × (unlink_next (dll head tail next prev) x ≡ some d') × Bypassed d' xs x ys
  unfolding unlink_next
  unlink_next-Bypassed [] ys d nz (e, p, c) = (
    dll (next x) tail next prev,
    rw (eq→== x head (sym e)),
    record { left = (refl, p); right = c },
  )
  unlink_next-Bypassed (z ∷ zs) ys d nz c =
      let (end, middle, left, (e, p, right)) =
        Chained-split next prev 0 head (z ∷ zs) (x ∷ ys) tail 0 c in
      let (out, out', rest) = Distinct-middle (z ∷ zs) x ys d in
      let (nonnull, nonnull') = AllNe-append 0 (z ∷ zs) (x ∷ ys) nz in
      let apart : end ≢ x = Chained-end_ne next prev x 0 head z zs end middle out left in
      let full : prev x ≢ 0 =
        rw p (Chained-end_ne next prev 0 0 head z zs end middle nonnull left) in
      let inner : x ≢ head = ground (arith, left.0, out.0) in
      let kept : next x ≡ store next (prev x) (next x) x = ground (arith, p) in
      (
        dll head tail (store next (prev x) (next x)) prev,
        rw (ne→== x head inner, ne→== (prev x) 0 full),
        record {
          left = subst (Chained (store next (prev x) (next x)) prev 0 head (z ∷ zs) (prev x)) kept (
              subst (λ k. Chained (store next k (next x)) prev 0 head (z ∷ zs) k (next x)) (sym p)
                (Chained-relink next prev 0 head z zs end middle (next x)
                  (Distinct-append (z ∷ zs) ys rest).0 left));
          right =
              subst (λ n. Chained (store next (prev x) (next x)) prev x n ys tail 0) kept
                (Chained-store_next next prev (prev x) (next x) x (next x) ys tail 0
                  (subst (λ k. AllNe k ys) (sym p)
                    (Chained-end_apart next prev 0 head z zs ys end middle rest left))
                  right);
        },
      )

  unlink_prev-IsDll :
      (xs ys : List ℕ)
      → Distinct (xs ++ x ∷ ys)
      → AllNe 0 (xs ++ x ∷ ys)
      → Chained next prev 0 head xs (prev x) (next x)
      → Chained next prev x (next x) ys tail 0
      → (d' : Dll) × (unlink_prev (dll head tail next prev) x ≡ some d') × IsDll d' (xs ++ ys)
  unfolding unlink_prev
  unlink_prev-IsDll xs [] d nz left (e, e') =
      let (out, out', rest) = Distinct-middle xs x [] d in
      let (nonnull, nonnull') = AllNe-append 0 xs (x ∷ []) nz in
      (
        dll head (prev x) next prev,
        rw (eq→== x tail (sym e')),
        record {
          distinct = rest;
          nonnull = append-AllNe 0 xs [] nonnull tt;
          chained = Chained-join next prev 0 head xs [] (prev x) (next x) (prev x) 0 left (e, refl);
        },
      )
  unlink_prev-IsDll xs (w ∷ ws) d nz left right =
      let (out, out', rest) = Distinct-middle xs x (w ∷ ws) d in
      let (before, behind, _) = Distinct-middle xs w ws rest in
      let (nonnull, nonnull') = AllNe-append 0 xs (x ∷ w ∷ ws) nz in
      let apart : tail ≢ x = Chained-end_ne next prev x x (next x) w ws tail 0 out' right in
      let full : next x ≢ 0 = rw right.0 nonnull'.1.0 in
      (
        dll head tail next (store prev (next x) (prev x)),
        rw (ne→== x tail (λ e. apart (sym e)), ne→== (next x) 0 full),
        record {
          distinct = rest;
          nonnull = append-AllNe 0 xs (w ∷ ws) nonnull nonnull'.1;
          chained = rw right.0 (
              Chained-join next (store prev w (prev x)) 0 head xs (w ∷ ws) (prev x) (next x) tail 0
                (Chained-store_prev next prev w (prev x) 0 head xs (prev x) (next x) before left)
                (Chained-reroot next prev x (next x) w ws tail 0 (prev x) behind right));
        },
      )

-- A removal of a struct of the list does not store through the null pointer, and the list then holds
-- the other structs in their order.
pub unlink-IsDll :
    (d : Dll) (xs : List ℕ) (x : ℕ) (ys : List ℕ)
    → IsDll d (xs ++ x ∷ ys)
    → (d' : Dll) × (unlink d x ≡ some d') × IsDll d' (xs ++ ys)
unfolding unlink
unlink-IsDll d xs x ys v =
    let (b, first, past) =
      unlink_next-Bypassed d.head d.tail d.next d.prev x xs ys v.distinct v.nonnull v.chained in
    let (d', second, rest) =
      unlink_prev-IsDll b.head b.tail b.next b.prev x xs ys v.distinct v.nonnull past.left
        past.right in
    (d', ap (λ r. r >>= λ b'. unlink_prev b' x) first ∙ second, rest)
