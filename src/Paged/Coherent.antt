-- ===== src/Paged/Coherent.antt =====
-- What cacheLoop of JuliaRehaanExample/pageCache.c keeps of the list of nodes.
use mathlib.Core.Path.{subst}
use cycology.Base.{
  lt-cases, ℕ, suc, ◌+◌, ◌-◌, ◌*◌, ◌/◌, ◌^◌, ◌<◌, ◌≤◌, ◌≡◌, ◌≢◌, refl, sym, ap, ◌∙◌, true, inl, inr,
  List, ◌∷◌, ◌++◌, arith, ltb, if◌then◌else◌, AllNe, AllNe-append, append-AllNe, length,
  length_insert, ne→==, slt, slt_nonneg, mul32, lt→ltb,
}
use cycology.Paged.{LogSysCon, File, Host, page_size, pread, read_page, move_to_head, to_size}
use cycology.Paged.Nodes.{IsList, move_to_head-IsList}

-- fstat succeeds, pread gets what the file has of the bytes asked for, pwrite writes all bytes.
pub record Working (host : Host) : Type 0 where
  pub stat : host.stat_ok ≡ true
  pub reads :
      (file : File) (n at : ℕ)
      → host.bytes_read file n at ≡ (if ltb (file.st_size - at) n then file.st_size - at else n)
  pub writes : (n at : ℕ) → host.bytes_written n at ≡ n

-- The buffer has the bytes of the file from a position on, as far as the file goes.
abbrev pub IsCopy : (ℕ → ℕ) → File → ℕ → Type 0
IsCopy buffer file at =
    (i : ℕ) → i < page_size → at + i < file.st_size → buffer i ≡ file.bytes (at + i)

-- The list has all nodes, at most one for each page; the buffers of the nodes for a path are copies of
-- pages of the file.
pub record Coherent (c : LogSysCon) (file : File) (path : ℕ) : Type 0 where
  pub nodes : List ℕ
  pub tail : ℕ
  pub linked : IsList c tail nodes
  pub started : c.fresh ≢ 0
  pub below : (x : ℕ) → c.fresh ≤ x → AllNe x nodes
  pub cover : (x : ℕ) → x < c.fresh → x ≢ 0 → ¬ AllNe x nodes
  pub count : length nodes < c.fresh
  pub own : (x : ℕ) → x < c.fresh → x ≢ 0 → c.page x ≡ x
  pub unique :
      (x y : ℕ)
      → x < c.fresh
      → x ≢ 0
      → y < c.fresh
      → y ≢ 0
      → c.path x ≡ c.path y
      → c.page_num x ≡ c.page_num y
      → x ≡ y
  pub agrees :
      (x : ℕ)
      → x < c.fresh
      → x ≢ 0
      → path ≡ c.path x
      → IsCopy (c.buffers x) file (c.page_num x * page_size)

-- The first node is not for the page.
abbrev pub NotFirst : LogSysCon → ℕ → ℕ → Type 0
NotFirst c path page_num = c.head ≢ 0 → path ≡ c.path c.head → page_num ≢ c.page_num c.head

-- the page is the first of a list that is coherent again
pub record Fetched (c c' : LogSysCon) (file : File) (path page_num buffer : ℕ) : Type 0 where
  pub coherent : Coherent c' file path
  pub head_ne : c'.head ≢ 0
  pub head_below : c'.head < c'.fresh
  pub head_path : c'.path c'.head ≡ path
  pub head_page : c'.page_num c'.head ≡ page_num
  pub head_buffer : buffer ≡ c'.head
  pub grown : c'.fresh ≤ suc c.fresh

-- Its buffer is a copy of that page.
pub Fetched-IsCopy :
    (c c' : LogSysCon) (file : File) (path page_num buffer : ℕ)
    → Fetched c c' file path page_num buffer
    → IsCopy (c'.buffers buffer) file (page_num * page_size)
Fetched-IsCopy c c' file path page_num buffer f =
    rw (f.head_buffer, ← f.head_page)
      (f.coherent.agrees c'.head f.head_below f.head_ne (sym f.head_path))

move-AllNe :
    (a : ℕ) (ys : List ℕ) (x : ℕ) (zs : List ℕ) → AllNe a (ys ++ x ∷ zs) → AllNe a (x ∷ ys ++ zs)
move-AllNe a ys x zs ne =
    let (left, right) = AllNe-append a ys (x ∷ zs) ne in
    (right.0, append-AllNe a ys zs left right.1)

AllNe-move :
    (a : ℕ) (ys : List ℕ) (x : ℕ) (zs : List ℕ) → AllNe a (x ∷ ys ++ zs) → AllNe a (ys ++ x ∷ zs)
AllNe-move a ys x zs ne =
    let (left, right) = AllNe-append a ys zs ne.1 in append-AllNe a ys (x ∷ zs) left (ne.0, right)

-- An element of the middle is there.
among : (ys : List ℕ) (x : ℕ) (zs : List ℕ) → ¬ AllNe x (ys ++ x ∷ zs)
among ys x zs ne = (AllNe-append x ys (x ∷ zs) ne).1.0 refl

module _ (c : LogSysCon) (file : File) (path : ℕ) (v : Coherent c file path) where
  pub bounded : (x : ℕ) → ¬ AllNe x v.nodes → x < c.fresh
  bounded x there = elim (lt-cases x c.fresh) [ inl h ↦ h | inr h ↦ absurd (there (v.below x h)) ]

  module _ (y : ℕ) (ys : List ℕ) (x : ℕ) (zs : List ℕ) (e : v.nodes ≡ y ∷ ys ++ x ∷ zs) where
    move_to_head-Coherent : Coherent (move_to_head c x) file path
    unfolding move_to_head
    move_to_head-Coherent =
        let (tail, linked) =
          move_to_head-IsList c v.tail y ys x zs (subst (IsList c v.tail) e v.linked) in
        record {
          nodes = x ∷ y ∷ ys ++ zs;
          tail = tail;
          linked = linked;
          started = v.started;
          below = λ a h. move-AllNe a (y ∷ ys) x zs (subst (AllNe a) e (v.below a h));
          cover =
              λ a h nz ne. v.cover a h nz (subst (AllNe a) (sym e) (AllNe-move a (y ∷ ys) x zs ne));
          count = subst (λ n. n < c.fresh) (ap length e ∙ length_insert (y ∷ ys) x zs) v.count;
          own = v.own;
          unique = v.unique;
          agrees = v.agrees;
        }

    pub move_to_head-Fetched :
        (page_num : ℕ)
        → path ≡ c.path x
        → page_num ≡ c.page_num x
        → Fetched c (move_to_head c x) file path page_num (c.page x)
    unfolding move_to_head
    move_to_head-Fetched page_num p q =
        let there : ¬ AllNe x v.nodes = λ ne. among (y ∷ ys) x zs (subst (AllNe x) e ne) in
        let nz : x ≢ 0 =
          (AllNe-append 0 (y ∷ ys) (x ∷ zs) (subst (AllNe 0) e v.linked.nonnull)).1.0 in
        record {
          coherent = move_to_head-Coherent;
          head_ne = nz;
          head_below = bounded x there;
          head_path = sym p;
          head_page = sym q;
          head_buffer = v.own x (bounded x there) nz;
          grown = omega arith;
        }

-- what the code takes for the number of pages
abbrev pub pages_of : File → ℕ
pages_of file = (file.st_size + (page_size - 1)) / page_size

pub read_page-IsCopy :
    (host : Host) (file : File) (buffer : ℕ → ℕ) (page_num pages : ℕ)
    → Working host
    → pages < 2 ^ 31
    → (page_num * page_size < file.st_size → page_num < pages)
    → page_num * page_size < 2 ^ 31
    → IsCopy (read_page host file buffer page_num pages) file (page_num * page_size)
unfolding read_page pread to_size
read_page-IsCopy host file buffer page_num pages w small counted small' i h h' =
    let at = page_num * page_size in
    let inside : page_num < pages = counted (omega arith) in
    let test : slt page_num pages ≡ true =
      slt_nonneg page_num pages (omega arith) (omega arith) ∙ lt→ltb page_num pages inside in
    let plain : to_size (mul32 page_num page_size) ≡ at = ground arith in
    let got : ltb i (host.bytes_read file page_size at) ≡ true =
      rw (w.reads file page_size at) (ground arith) in
    rw (test, ne→== page_num pages (omega arith), plain, got) refl
