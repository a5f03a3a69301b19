-- ===== src/Dll/Chained.antt =====
-- Segments of doubly linked lists.
use mathlib.Core.Path.{subst}
use cycology.Base.{ℕ, ◌≡◌, ◌∙◌, sym, ◌≢◌, refl, List, [], ◌∷◌, ◌++◌, arith, store, AllNe, Distinct}
use cycology.Dll.{Dll}

-- From `start` the fields `next` lead through `xs` to `after`, and from `last` the fields `prev` lead
-- back through them to `before`.
abbrev pub Chained : (ℕ → ℕ) → (ℕ → ℕ) → ℕ → ℕ → List ℕ → ℕ → ℕ → Type 0
Chained next prev before start [] last after = (start ≡ after) × (last ≡ before)
Chained next prev before start (x ∷ xs) last after =
    (start ≡ x) × (prev x ≡ before) × Chained next prev x (next x) xs last after

-- the same of the fields `next` alone
abbrev pub Leads : (ℕ → ℕ) → ℕ → List ℕ → ℕ → Type 0
Leads next start [] after = start ≡ after
Leads next start (x ∷ xs) after = (start ≡ x) × Leads next (next x) xs after

pub Chained-Leads :
    (next prev : ℕ → ℕ) (before start : ℕ) (xs : List ℕ) (last after : ℕ)
    → Chained next prev before start xs last after
    → Leads next start xs after
Chained-Leads next prev before start [] last after c = c.0
Chained-Leads next prev before start (x ∷ xs) last after (e, p, c) =
    (e, Chained-Leads next prev x (next x) xs last after c)

pub Leads-store :
    (next : ℕ → ℕ) (k v start : ℕ) (xs : List ℕ) (after : ℕ)
    → AllNe k xs
    → Leads next start xs after
    → Leads (store next k v) start xs after
Leads-store next k v start [] after ne l = l
Leads-store next k v start (x ∷ xs) after ne (e, l) = (
  e,
  subst (λ s. Leads (store next k v) s xs after) (ground arith)
      (Leads-store next k v (next x) xs after ne.1 l),
)

-- the structs that a list holds, from the head on: all different, none null
pub record IsDll (d : Dll) (xs : List ℕ) : Type 0 where
  pub distinct : Distinct xs
  pub nonnull : AllNe 0 xs
  pub chained : Chained d.next d.prev 0 d.head xs d.tail 0

module _ (next prev : ℕ → ℕ) where
  pub Chained-store_next :
      (k v before start : ℕ) (xs : List ℕ) (last after : ℕ)
      → AllNe k xs
      → Chained next prev before start xs last after
      → Chained (store next k v) prev before start xs last after
  Chained-store_next k v before start [] last after ne c = c
  Chained-store_next k v before start (x ∷ xs) last after ne (e, p, c) = (
    e,
    p,
    subst (λ s. Chained (store next k v) prev x s xs last after) (ground arith)
        (Chained-store_next k v x (next x) xs last after ne.1 c),
  )

  pub Chained-store_prev :
      (k v before start : ℕ) (xs : List ℕ) (last after : ℕ)
      → AllNe k xs
      → Chained next prev before start xs last after
      → Chained next (store prev k v) before start xs last after
  Chained-store_prev k v before start [] last after ne c = c
  Chained-store_prev k v before start (x ∷ xs) last after ne (e, p, c) =
      (e, ground arith, Chained-store_prev k v x (next x) xs last after ne.1 c)

  pub Chained-split :
      (before start : ℕ) (xs ys : List ℕ) (last after : ℕ)
      → Chained next prev before start (xs ++ ys) last after
      → (end middle : ℕ) × Chained next prev before start xs end middle
        × Chained next prev end middle ys last after
  Chained-split before start [] ys last after c = (before, start, (refl, refl), c)
  Chained-split before start (x ∷ xs) ys last after (e, p, c) =
      let (end, middle, left, right) = Chained-split x (next x) xs ys last after c in
      (end, middle, (e, p, left), right)

  pub Chained-join :
      (before start : ℕ) (xs ys : List ℕ) (end middle last after : ℕ)
      → Chained next prev before start xs end middle
      → Chained next prev end middle ys last after
      → Chained next prev before start (xs ++ ys) last after
  Chained-join before start [] ys end middle last after (e, e') right = rw (e, ← e') right
  Chained-join before start (x ∷ xs) ys end middle last after (e, p, left) right =
      (e, p, Chained-join x (next x) xs ys end middle last after left right)

  -- the end of a nonempty segment is one of its structs
  pub Chained-end_ne :
      (k before start x : ℕ) (xs : List ℕ) (last after : ℕ)
      → AllNe k (x ∷ xs)
      → Chained next prev before start (x ∷ xs) last after
      → last ≢ k
  Chained-end_ne k before start x [] last after ne (e, p, c) = ground arith
  Chained-end_ne k before start x (y ∷ xs) last after ne (e, p, c) =
      Chained-end_ne k x (next x) y xs last after ne.1 c

  -- and in no list that has none of them
  pub Chained-end_apart :
      (before start x : ℕ) (xs ys : List ℕ) (last after : ℕ)
      → Distinct (x ∷ xs ++ ys)
      → Chained next prev before start (x ∷ xs) last after
      → AllNe last ys
  Chained-end_apart before start x [] ys last after d (e, p, c) = rw c.1 d.0
  Chained-end_apart before start x (y ∷ xs) ys last after d (e, p, c) =
      Chained-end_apart x (next x) y xs ys last after d.1 c

  -- A nonempty segment leads elsewhere after a store in its end.
  pub Chained-relink :
      (before start x : ℕ) (xs : List ℕ) (last after v : ℕ)
      → Distinct (x ∷ xs)
      → Chained next prev before start (x ∷ xs) last after
      → Chained (store next last v) prev before start (x ∷ xs) last v
  Chained-relink before start x [] last after v d (e, p, c) = (e, p, (ground arith, c.1))
  Chained-relink before start x (y ∷ xs) last after v d (e, p, c) = (
    e,
    p,
    subst (λ s. Chained (store next last v) prev x s (y ∷ xs) last v)
        (ground (arith, Chained-end_ne x x (next x) y xs last after d.0 c))
        (Chained-relink x (next x) y xs last after v d.1 c),
  )

  -- A nonempty segment starts behind another struct after a store in its start.
  pub Chained-reroot :
      (before start x : ℕ) (xs : List ℕ) (last after v : ℕ)
      → AllNe x xs
      → Chained next prev before start (x ∷ xs) last after
      → Chained next (store prev x v) v start (x ∷ xs) last after
  Chained-reroot before start x xs last after v ne (e, p, c) =
      (e, ground arith, Chained-store_prev x v x (next x) xs last after ne c)

-- The fields of other structs than `k` may be those of another memory.
Chained-agree :
    (next prev next' prev' : ℕ → ℕ) (k before start : ℕ) (xs : List ℕ) (last after : ℕ)
    → ((x : ℕ) → x ≢ k → (next' x ≡ next x) × (prev' x ≡ prev x))
    → AllNe k xs
    → Chained next prev before start xs last after
    → Chained next' prev' before start xs last after
Chained-agree next prev next' prev' k before start [] last after same ne c = c
Chained-agree next prev next' prev' k before start (x ∷ xs) last after same ne (e, p, c) =
    let (same_next, same_prev) = same x ne.0 in
    (
      e,
      same_prev ∙ p,
      subst (λ s. Chained next' prev' x s xs last after) (sym same_next)
          (Chained-agree next prev next' prev' k x (next x) xs last after same ne.1 c),
    )

pub IsDll-agree :
    (d d' : Dll) (k : ℕ) (xs : List ℕ)
    → ((x : ℕ) → x ≢ k → (d'.next x ≡ d.next x) × (d'.prev x ≡ d.prev x))
    → d'.head ≡ d.head
    → d'.tail ≡ d.tail
    → AllNe k xs
    → IsDll d xs
    → IsDll d' xs
IsDll-agree d d' k xs same head tail ne v = record {
  distinct = v.distinct;
  nonnull = v.nonnull;
  chained =
      rw (head, tail)
        (Chained-agree d.next d.prev d'.next d'.prev k 0 d.head xs d.tail 0 same ne v.chained);
}
