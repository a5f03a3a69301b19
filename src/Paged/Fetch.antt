-- ===== src/Paged/Fetch.antt =====
-- cacheLoop of JuliaRehaanExample/pageCache.c on a list whose first node is not for the page.
use mathlib.Core.Path.{subst}
use cycology.Base.{
  ℕ, ◌+◌, ◌*◌, ◌^◌, ◌<◌, ◌≤◌, ◌≡◌, ◌≢◌, ◌⊎◌, refl, sym, ap, ◌∙◌, inl, inr, some, [], ◌∷◌, arith,
  AllNe-append, eq-cases, ne→==, store, store_at, store_same, store_other,
}
use cycology.Paged.{
  LogSysCon, File, Host, page_size, read_page, find, new_node, add_page, move_to_head, cache_loop,
}
use cycology.Paged.Nodes.{IsList, add_page-IsList}
use cycology.Paged.Search.{Absent, Searched, find-Searched}
use cycology.Paged.Coherent.{
  Working, IsCopy, Coherent, NotFirst, Fetched, read_page-IsCopy, move_to_head-Fetched,
}

module _ (host : Host) (c : LogSysCon) (file : File) (path page_num pages : ℕ)
    (v : Coherent c file path) (absent : Absent c path page_num v.nodes)
    (copy : IsCopy
      (read_page host file (c.buffers c.fresh) page_num pages)
      file
      (page_num * page_size)) where
  -- a node is the new one, or was there
  old_or_new : (x : ℕ) → x < c.fresh + 1 → (x ≡ c.fresh) ⊎ ((x ≢ c.fresh) × (x < c.fresh))
  old_or_new x h = elim (eq-cases x c.fresh) [ inl e ↦ inl e | inr ne ↦ inr (ne, omega arith) ]

  -- no node that was there is for the page
  apart : (x : ℕ) → x < c.fresh → x ≢ 0 → path ≡ c.path x → page_num ≢ c.page_num x
  apart x h nz = absent x (v.cover x h nz)

  new_unique :
      (x y : ℕ)
      → x < c.fresh + 1
      → x ≢ 0
      → y < c.fresh + 1
      → y ≢ 0
      → store c.path c.fresh path x ≡ store c.path c.fresh path y
      → store c.page_num c.fresh page_num x ≡ store c.page_num c.fresh page_num y
      → x ≡ y
  new_unique x y h nz h' nz' p q = elim (old_or_new x h) [
    | inl e ↦ elim (old_or_new y h') [
      | inl e' ↦ e ∙ sym e'
      | inr (ne', old') ↦ absurd (
          apart y old' nz'
            (sym (store_at c.path c.fresh path x e) ∙ p ∙ store_other c.path c.fresh path y ne')
            (sym (store_at c.page_num c.fresh page_num x e)
              ∙ q
              ∙ store_other c.page_num c.fresh page_num y ne'))
    ]
    | inr (ne, old) ↦ elim (old_or_new y h') [
      | inl e' ↦ absurd (
          apart x old nz
            (sym (store_at c.path c.fresh path y e') ∙ sym p ∙ store_other c.path c.fresh path x ne)
            (sym (store_at c.page_num c.fresh page_num y e')
              ∙ sym q
              ∙ store_other c.page_num c.fresh page_num x ne))
      | inr (ne', old') ↦
          v.unique x y old nz old' nz'
            (sym (store_other c.path c.fresh path x ne) ∙ p ∙ store_other c.path c.fresh path y ne')
            (sym (store_other c.page_num c.fresh page_num x ne)
              ∙ q
              ∙ store_other c.page_num c.fresh page_num y ne')
    ]
  ]

  new_agrees :
      (x : ℕ)
      → x < c.fresh + 1
      → x ≢ 0
      → path ≡ store c.path c.fresh path x
      → IsCopy
          (store c.buffers c.fresh (read_page host file (c.buffers c.fresh) page_num pages) x)
          file
          (store c.page_num c.fresh page_num x * page_size)
  new_agrees x h nz p = elim (old_or_new x h) [
    | inl e ↦
        rw
          (
            store_at c.buffers c.fresh (read_page host file (c.buffers c.fresh) page_num pages) x e,
            store_at c.page_num c.fresh page_num x e,
          )
          copy
    | inr (ne, old) ↦
        rw
          (
            store_other c.buffers c.fresh (read_page host file (c.buffers c.fresh) page_num pages) x
                ne,
            store_other c.page_num c.fresh page_num x ne,
          )
          (v.agrees x old nz (p ∙ store_other c.path c.fresh path x ne))
  ]

  add_page-Coherent : Coherent (add_page host file c path page_num pages) file path
  unfolding add_page new_node
  add_page-Coherent =
      let (tail, linked) =
        add_page-IsList host file c path page_num pages v.tail v.nodes v.started
          (v.below c.fresh (omega arith)) v.linked in
      record {
        nodes = c.fresh ∷ v.nodes;
        tail = tail;
        linked = linked;
        started = omega arith;
        below = λ a h. ((λ e. omega arith), v.below a (omega arith));
        cover = λ a h nz ne. elim (old_or_new a h) [
          | inl e ↦ ne.0 (sym e)
          | inr (_, old) ↦ v.cover a old nz ne.1
        ];
        count = omega (arith, v.count);
        own = λ a h nz. elim (old_or_new a h) [
          | inl e ↦ store_at c.page c.fresh c.fresh a e ∙ sym e
          | inr (ne, old) ↦ store_other c.page c.fresh c.fresh a ne ∙ v.own a old nz
        ];
        unique = new_unique;
        agrees = new_agrees;
      }

  add_page-Fetched : Fetched c (add_page host file c path page_num pages) file path page_num c.fresh
  unfolding add_page new_node
  add_page-Fetched = record {
    coherent = add_page-Coherent;
    head_ne = v.started;
    head_below = omega arith;
    head_path = store_same c.path c.fresh path;
    head_page = store_same c.page_num c.fresh page_num;
    head_buffer = refl;
    grown = omega arith;
  }

module _ (host : Host) (c : LogSysCon) (file : File) (path page_num pages fuel : ℕ) where
  -- The search, and what cacheLoop makes of its result.
  fetched :
      (v : Coherent c file path)
      → NotFirst c path page_num
      → IsCopy (read_page host file (c.buffers c.fresh) page_num pages) file (page_num * page_size)
      → Searched c path page_num v.nodes (find fuel c path page_num c.head)
      → (buffer : ℕ) × (c' : LogSysCon) × (cache_loop host fuel file c path page_num pages
          ≡ some (buffer, c'))
        × Fetched c c' file path page_num buffer
  unfolding cache_loop
  fetched v first copy (inl (absent, e)) =
      (c.fresh, _, rw e refl, add_page-Fetched host c file path page_num pages v absent copy)
  fetched v first copy (inr ([], x, zs, e, p, q, r)) =
      let linked = subst (IsList c v.tail) e v.linked in
      let same : c.head ≡ x = linked.chained.0 in
      absurd (
        first (λ z. linked.nonnull.0 (sym same ∙ z)) (p ∙ ap c.path (sym same))
          (q ∙ ap c.page_num (sym same)))
  fetched v first copy (inr (y ∷ ys, x, zs, e, p, q, r)) =
      let linked = subst (IsList c v.tail) e v.linked in
      let nz : x ≢ 0 = (AllNe-append 0 (y ∷ ys) (x ∷ zs) linked.nonnull).1.0 in
      (
        c.page x,
        move_to_head c x,
        rw (r, ne→== x 0 nz) refl,
        move_to_head-Fetched c file path v y ys x zs e page_num p q,
      )

  pub cache_loop-Fetched :
      Working host
      → pages < 2 ^ 31
      → (page_num * page_size < file.st_size → page_num < pages)
      → page_num * page_size < 2 ^ 31
      → Coherent c file path
      → NotFirst c path page_num
      → c.fresh ≤ fuel
      → (buffer : ℕ) × (c' : LogSysCon) × (cache_loop host fuel file c path page_num pages
          ≡ some (buffer, c'))
        × Fetched c c' file path page_num buffer
  cache_loop-Fetched w small counted small' v first enough =
      fetched v first
        (read_page-IsCopy host file (c.buffers c.fresh) page_num pages w small counted small')
        (find-Searched c path page_num v.nodes fuel 0 c.head v.tail v.linked.chained
          v.linked.nonnull (omega (arith, v.count)))
