-- ===== src/Dll/Refine.antt =====
-- The operations on doubly linked lists, as operations on the list of their structs.
use mathlib.Core.Path.{subst}
use cycology.Base.{
  ℕ, ◌≡◌, ◌≢◌, refl, List, [], ◌∷◌, ◌++◌, arith, store, AllNe, append-AllNe, append-Distinct, ne→==,
}
use cycology.Dll.{Dll, add_to_head, add_to_tail, append_to_tail}
use cycology.Dll.Chained.{
  Chained, IsDll, Chained-store_next, Chained-store_prev, Chained-join, Chained-end_ne,
  Chained-relink, Chained-reroot,
}

abbrev pub dll : ℕ → ℕ → (ℕ → ℕ) → (ℕ → ℕ) → Dll
dll head tail next prev = record { head = head; tail = tail; next = next; prev = prev }

add_to_head-dll :
    (head tail : ℕ) (next prev : ℕ → ℕ) (x : ℕ) (xs : List ℕ)
    → x ≢ 0
    → AllNe x xs
    → IsDll (dll head tail next prev) xs
    → IsDll (add_to_head (dll head tail next prev) x) (x ∷ xs)
unfolding add_to_head
add_to_head-dll head tail next prev x [] nz ne v = rw v.chained.0 (record {
  distinct = (tt, tt);
  nonnull = (nz, tt);
  chained = (refl, ground arith, (ground arith, refl));
})
add_to_head-dll head tail next prev x (y ∷ ys) nz ne v =
    rw (v.chained.0, ne→== y 0 v.nonnull.0)
      (record {
        distinct = (ne, v.distinct);
        nonnull = (nz, v.nonnull);
        chained = (
          refl,
          ground (arith, ne.0),
          subst (λ s. Chained (store next x y) (store (store prev x 0) y x) x s (y ∷ ys) tail 0)
              (ground arith)
              (Chained-reroot (store next x y) (store prev x 0) 0 y y ys tail 0 x v.distinct.0 (
                Chained-store_next next (store prev x 0) x y 0 y (y ∷ ys) tail 0 ne (
                  Chained-store_prev next prev x 0 0 y (y ∷ ys) tail 0 ne
                    (refl, v.chained.1, v.chained.2)))),
        );
      })

pub add_to_head-IsDll :
    (d : Dll) (x : ℕ) (xs : List ℕ)
    → x ≢ 0
    → AllNe x xs
    → IsDll d xs
    → IsDll (add_to_head d x) (x ∷ xs)
add_to_head-IsDll d = add_to_head-dll d.head d.tail d.next d.prev

add_to_tail-dll :
    (head tail : ℕ) (next prev : ℕ → ℕ) (x : ℕ) (xs : List ℕ)
    → x ≢ 0
    → next x ≡ 0
    → prev x ≡ 0
    → AllNe x xs
    → IsDll (dll head tail next prev) xs
    → IsDll (add_to_tail (dll head tail next prev) x) (xs ++ x ∷ [])
unfolding add_to_tail
add_to_tail-dll head tail next prev x [] nz n p ne v =
    rw (n, p, v.chained.1)
      (record {
        distinct = (tt, tt);
        nonnull = (nz, tt);
        chained = (refl, ground arith, (ground arith, refl));
      })
add_to_tail-dll head tail next prev x (y ∷ ys) nz n p ne v =
    let full : tail ≢ 0 = Chained-end_ne next prev 0 0 head y ys tail 0 v.nonnull v.chained in
    let apart : tail ≢ x = Chained-end_ne next prev x 0 head y ys tail 0 ne v.chained in
    rw (n, p, ne→== tail 0 full)
      (record {
        distinct = append-Distinct (y ∷ ys) x v.distinct ne;
        nonnull = append-AllNe 0 (y ∷ ys) (x ∷ []) v.nonnull (nz, tt);
        chained =
            Chained-join (store (store next x 0) tail x) (store prev x tail) 0 head (y ∷ ys)
              (x ∷ []) tail x x 0
              (Chained-relink (store next x 0) (store prev x tail) 0 head y ys tail 0 x v.distinct (
                Chained-store_next next (store prev x tail) x 0 0 head (y ∷ ys) tail 0 ne
                  (Chained-store_prev next prev x tail 0 head (y ∷ ys) tail 0 ne v.chained)))
              (refl, ground arith, (ground arith, refl));
      })

pub add_to_tail-IsDll :
    (d : Dll) (x : ℕ) (xs : List ℕ)
    → x ≢ 0
    → d.next x ≡ 0
    → d.prev x ≡ 0
    → AllNe x xs
    → IsDll d xs
    → IsDll (add_to_tail d x) (xs ++ x ∷ [])
add_to_tail-IsDll d = add_to_tail-dll d.head d.tail d.next d.prev

append_to_tail-dll :
    (head tail : ℕ) (next prev : ℕ → ℕ) (x : ℕ) (xs : List ℕ)
    → x ≢ 0
    → next x ≡ 0
    → prev x ≡ 0
    → AllNe x xs
    → IsDll (dll head tail next prev) xs
    → IsDll (append_to_tail (dll head tail next prev) x) (xs ++ x ∷ [])
unfolding append_to_tail
append_to_tail-dll head tail next prev x [] nz n p ne v =
    rw (n, p, v.chained.1)
      (record { distinct = (tt, tt); nonnull = (nz, tt); chained = (refl, p, (n, refl)) })
append_to_tail-dll head tail next prev x (y ∷ ys) nz n p ne v =
    let full : tail ≢ 0 = Chained-end_ne next prev 0 0 head y ys tail 0 v.nonnull v.chained in
    let apart : tail ≢ x = Chained-end_ne next prev x 0 head y ys tail 0 ne v.chained in
    rw (n, p, ne→== tail 0 full)
      (record {
        distinct = append-Distinct (y ∷ ys) x v.distinct ne;
        nonnull = append-AllNe 0 (y ∷ ys) (x ∷ []) v.nonnull (nz, tt);
        chained =
            Chained-join (store next tail x) (store prev x tail) 0 head (y ∷ ys) (x ∷ []) tail x x 0
              (Chained-relink next (store prev x tail) 0 head y ys tail 0 x v.distinct
                (Chained-store_prev next prev x tail 0 head (y ∷ ys) tail 0 ne v.chained))
              (refl, ground arith, (ground arith, refl));
      })

pub append_to_tail-IsDll :
    (d : Dll) (x : ℕ) (xs : List ℕ)
    → x ≢ 0
    → d.next x ≡ 0
    → d.prev x ≡ 0
    → AllNe x xs
    → IsDll d xs
    → IsDll (append_to_tail d x) (xs ++ x ∷ [])
append_to_tail-IsDll d = append_to_tail-dll d.head d.tail d.next d.prev
