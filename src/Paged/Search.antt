-- ===== src/Paged/Search.antt =====
-- The search of cacheLoop in JuliaRehaanExample/pageCache.c, and what it leaves of the list.
use cycology.Base.{
  ℕ, zero, suc, ◌<◌, ◌≡◌, ◌≢◌, ◌⊎◌, inl, inr, refl, sym, ap, ◌∙◌, Option, some, List, [], ◌∷◌, ◌++◌,
  arith, AllNe, length, eq-cases, ne→==, eq→==,
}
use cycology.Dll.Chained.{Chained}
use cycology.Paged.{LogSysCon, find}

-- no node of the list is for the page
abbrev pub Absent : LogSysCon → ℕ → ℕ → List ℕ → Type 0
Absent c path page_num nodes = (x : ℕ) → ¬ AllNe x nodes → path ≡ c.path x → page_num ≢ c.page_num x

-- what the search of a list gives: no node, or one for the page
abbrev pub Searched : LogSysCon → ℕ → ℕ → List ℕ → Option ℕ → Type 0
Searched c path page_num nodes r =
    (Absent c path page_num nodes × (r ≡ some 0))
    ⊎ ((ys : List ℕ) × (x : ℕ) × (zs : List ℕ) × (nodes ≡ ys ++ x ∷ zs)
        × (path ≡ c.path x)
        × (page_num ≡ c.page_num x)
        × (r ≡ some x))

module _ (c : LogSysCon) (path page_num : ℕ) where
  Absent-behind :
      (x : ℕ) (xs : List ℕ)
      → (path ≡ c.path x → page_num ≢ c.page_num x)
      → Absent c path page_num xs
      → Absent c path page_num (x ∷ xs)
  Absent-behind x xs ne absent y among e e' = elim (eq-cases x y) [
    | inl same ↦ ne (e ∙ ap c.path (sym same)) (e' ∙ ap c.page_num (sym same))
    | inr other ↦ absent y (λ all. among (other, all)) e e'
  ]

  Searched-behind :
      (x : ℕ) (xs : List ℕ) (r : Option ℕ)
      → (path ≡ c.path x → page_num ≢ c.page_num x)
      → Searched c path page_num xs r
      → Searched c path page_num (x ∷ xs) r
  Searched-behind x xs r ne (inl (absent, e)) = inl (Absent-behind x xs ne absent, e)
  Searched-behind x xs r ne (inr (ys, y, zs, e, p, q, f)) =
      inr (x ∷ ys, y, zs, ap (λ l. x ∷ l) e, p, q, f)

  -- With as much fuel as the list has nodes, and one more, the search ends.
  pub find-Searched :
      (xs : List ℕ) (fuel before start tail : ℕ)
      → Chained c.next c.prev before start xs tail 0
      → AllNe 0 xs
      → length xs < fuel
      → Searched c path page_num xs (find fuel c path page_num start)
  unfolding find
  find-Searched xs zero before start tail _ nz enough = absurd (omega arith)
  find-Searched [] (suc fuel) before start tail (e, _) nz enough =
      inl ((λ x among _ _. among tt), rw e refl)
  find-Searched (x ∷ xs) (suc fuel) before start tail (e, b, rest) nz enough =
      let behind = find-Searched xs fuel x (c.next x) tail rest nz.1 (omega arith) in
      rw (e, ne→== x 0 nz.0)
        (elim (eq-cases path (c.path x)) [
          | inl p ↦ elim (eq-cases page_num (c.page_num x)) [
            | inl q ↦ inr (
              [],
              x,
              xs,
              refl,
              p,
              q,
              rw (eq→== path (c.path x) p, eq→== page_num (c.page_num x) q) refl,
            )
            | inr ne ↦
                rw (eq→== path (c.path x) p, ne→== page_num (c.page_num x) ne)
                  (Searched-behind x xs _ (λ _. ne) behind)
          ]
          | inr ne ↦ rw (ne→== path (c.path x) ne) (Searched-behind x xs _ (λ e _. ne e) behind)
        ])
