-- ===== src/Dll/Again.antt =====
-- add_to_head with a struct that the list has already.
use mathlib.Core.Path.{subst}
use cycology.Base.{
  ℕ, ◌≡◌, ◌≢◌, refl, ap, ◌∙◌, sym, List, [], ◌∷◌, ◌++◌, store, store_same, AllNe, AllNe-append,
  Distinct-middle,
}
use cycology.Dll.{Dll, add_to_head}
use cycology.Dll.Chained.{Chained, IsDll, Leads, Chained-Leads, Chained-split, Chained-store_next}

-- From the same start two segments do not lead to `x` and, without `x`, to the null pointer.
Chained-apart :
    (next prev prev' : ℕ → ℕ) (x before before' start : ℕ) (xs zs : List ℕ) (last last' : ℕ)
    → x ≢ 0
    → AllNe 0 xs
    → AllNe x zs
    → Chained next prev before start xs last x
    → ¬ Chained next prev' before' start zs last' 0
Chained-apart next prev prev' x before before' start [] [] last last' nz nonnull out c c' =
    nz (sym c.0 ∙ c'.0)
Chained-apart next prev prev' x before before' start [] (z ∷ zs) last last' nz nonnull out c c' =
    out.0 (sym c'.0 ∙ c.0)
Chained-apart next prev prev' x before before' start (a ∷ xs) [] last last' nz nonnull out c c' =
    nonnull.0 (sym c.0 ∙ c'.0)
Chained-apart next prev prev' x before before' start (a ∷ xs) (z ∷ zs) last last' nz nonnull out c
      c' =
    Chained-apart next prev prev' x a z (next a) xs zs last last' nz nonnull.1 out.1 c.2
      (subst (λ s. Chained next prev' z s zs last' 0) (ap next (sym c'.0 ∙ c.0)) c'.2)

-- A struct of the list that becomes its head once more ends in a cycle: from the head the fields `next`
-- lead through no list to the null pointer.
pub add_to_head_again :
    (d : Dll) (xs : List ℕ) (x : ℕ) (ys zs : List ℕ)
    → IsDll d (xs ++ x ∷ ys)
    → ¬ IsDll (add_to_head d x) zs
unfolding add_to_head
add_to_head_again d xs x ys [] v w = (AllNe-append 0 xs (x ∷ ys) v.nonnull).1.0 (w.chained.0)
add_to_head_again d xs x ys (z ∷ zs) v w =
    let (end, middle, left, right) =
      Chained-split d.next d.prev 0 d.head xs (x ∷ ys) d.tail 0 v.chained in
    let (out, _, _) = Distinct-middle xs x ys v.distinct in
    let (nonnull, (nz, _)) = AllNe-append 0 xs (x ∷ ys) v.nonnull in
    let next : ℕ → ℕ = store d.next x d.head in
    let first : x ≡ z = w.chained.0 in
    let through : Chained next d.prev 0 d.head xs end x =
      subst (λ m. Chained next d.prev 0 d.head xs end m) right.0
        (Chained-store_next d.next d.prev x d.head 0 d.head xs end middle out left) in
    let start : next z ≡ d.head = ap next (sym first) ∙ store_same d.next x d.head in
    Chained-apart next d.prev (add_to_head d x).prev x 0 z d.head xs zs end (add_to_head d x).tail
      nz nonnull (subst (λ k. AllNe k zs) (sym first) w.distinct.0) through
      (subst (λ s. Chained next (add_to_head d x).prev z s zs (add_to_head d x).tail 0) start
        w.chained.2)

-- The cycle: from the new head the fields `next` lead through what stood before it back to it.
pub add_to_head_cycle :
    (d : Dll) (xs : List ℕ) (x : ℕ) (ys : List ℕ)
    → IsDll d (xs ++ x ∷ ys)
    → ((add_to_head d x).head ≡ x) × Leads (add_to_head d x).next x (x ∷ xs) x × AllNe 0 (x ∷ xs)
unfolding add_to_head
add_to_head_cycle d xs x ys v =
    let (end, middle, left, right) =
      Chained-split d.next d.prev 0 d.head xs (x ∷ ys) d.tail 0 v.chained in
    let (out, _, _) = Distinct-middle xs x ys v.distinct in
    let (nonnull, (nz, _)) = AllNe-append 0 xs (x ∷ ys) v.nonnull in
    let next : ℕ → ℕ = store d.next x d.head in
    let through : Leads next d.head xs middle =
      Chained-Leads next d.prev 0 d.head xs end middle
        (Chained-store_next d.next d.prev x d.head 0 d.head xs end middle out left) in
    (
      refl,
      (
        refl,
        subst (λ s. Leads next s xs x) (sym (store_same d.next x d.head))
            (subst (λ m. Leads next d.head xs m) right.0 through),
      ),
      (nz, nonnull),
    )
