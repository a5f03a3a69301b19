-- ===== src/Paged/Splice.antt =====
-- xmp_write of JuliaRehaanExample/fusexmp_fh.c as a change of the bytes of the file.
use mathlib.Core.Path.{subst}
use cycology.Base.{
  ℕ, ◌+◌, ◌-◌, ◌*◌, ◌<◌, ◌≤◌, ◌≡◌, ◌≢◌, ◌⊎◌, true, false, ne→==, inside-cases, refl, sym, ap, ◌∙◌,
  inl, inr, arith, ltb, leb, ◌==◌, ◌&&◌, if◌then◌else◌, store_at, store_other, eq→==, eq-cases,
  lt-cases, lt→ltb,
}
use cycology.Paged.{LogSysCon, File, Host, page_size, memcpy, pwrite}
use cycology.Paged.Coherent.{IsCopy, Coherent, Fetched, Fetched-IsCopy}
use cycology.Paged.Write.{Written, move_and_write}
use cycology.Paged.Spliced.{Spliced}

-- a write of `n` bytes that is whole and starts within the file
module _ (host : Host) (file : File) (page : ℕ → ℕ) (n at : ℕ)
    (writes : host.bytes_written n at ≡ n) (within : at ≤ file.st_size) where
  pub pwrite_size :
      (pwrite host file page n at).st_size
      ≡ (if ltb file.st_size (at + n) then at + n else file.st_size)
  unfolding pwrite
  pwrite_size = rw writes (ground arith)

  pub pwrite_inside :
      (j : ℕ) → at ≤ j → j < at + n → (pwrite host file page n at).bytes j ≡ page (j - at)
  unfolding pwrite
  pwrite_inside j low high =
      let from : leb at j ≡ true = ground arith in
      let some_bytes : (n == 0) ≡ false = ground arith in
      rw (writes, some_bytes, from, lt→ltb j (at + n) high) refl

  pub pwrite_outside :
      (j : ℕ)
      → (j < at) ⊎ (at + n ≤ j)
      → j < file.st_size
      → (pwrite host file page n at).bytes j ≡ file.bytes j
  unfolding pwrite
  pwrite_outside j out old =
      let apart : leb at j && ltb j (at + n) ≡ false = ground arith in
      let before : leb file.st_size j ≡ false = ground arith in
      elim (eq-cases n 0) [
        | inl e ↦ rw (writes, eq→== n 0 e) refl
        | inr ne ↦ rw (writes, ne→== n 0 ne, apart, before) refl
      ]

-- A byte of a page after data has moved into it.
memcpy_inside :
    (page src : ℕ → ℕ) (a moved len i : ℕ)
    → a ≤ i
    → i < a + len
    → memcpy page a src moved len i ≡ src (moved + (i - a))
unfolding memcpy
memcpy_inside page src a moved len i low high =
    let from : leb a i ≡ true = ground arith in rw (from, lt→ltb i (a + len) high) refl

memcpy_outside :
    (page src : ℕ → ℕ) (a moved len i : ℕ)
    → (i < a) ⊎ (a + len ≤ i)
    → memcpy page a src moved len i ≡ page i
unfolding memcpy
memcpy_outside page src a moved len i out =
    let apart : leb a i && ltb i (a + len) ≡ false = ground arith in rw apart refl

-- One page: `a` is where its data starts, `n` how many of its bytes go into the file.
module _ (host : Host) (file : File) (page src : ℕ → ℕ) (moved a len n at : ℕ)
    (writes : host.bytes_written n at ≡ n) (copy : IsCopy page file at) (fits : a + len ≤ page_size)
    (within : at + a ≤ file.st_size) (covers : a + len ≤ n) (bounded : n ≤ page_size)
    (old : at + n ≤ (if ltb file.st_size (at + a + len) then at + a + len else file.st_size)) where
  abbrev new_page : ℕ → ℕ
  new_page = memcpy page a src moved len

  back : (j : ℕ) → at ≤ j → at + (j - at) ≡ j
  back j low = omega arith

  new_size :
      (pwrite host file new_page n at).st_size
      ≡ (if ltb file.st_size (at + a + len) then at + a + len else file.st_size)
  new_size = pwrite_size host file new_page n at writes (omega arith) ∙ ground arith

  new_bytes :
      (j : ℕ)
      → j < (pwrite host file new_page n at).st_size
      → (pwrite host file new_page n at).bytes j ≡ (
          if leb (at + a) j && ltb j (at + a + len)
          then src (moved + (j - (at + a)))
          else file.bytes j)
  new_bytes j h =
      let bound : j < (if ltb file.st_size (at + a + len) then at + a + len else file.st_size) =
        subst (λ k. j < k) new_size h in
      elim (inside-cases (at + a) (at + a + len) j) [
        | inl (low, high) ↦
            let from : leb (at + a) j ≡ true = ground arith in
            let same : j - at - a ≡ j - (at + a) = omega arith in
            rw (from, lt→ltb j (at + a + len) high)
              (pwrite_inside host file new_page n at writes (omega arith) j (omega arith)
                  (omega arith)
                ∙ memcpy_inside page src a moved len (j - at) (omega arith) (omega arith)
                ∙ ap (λ k. src (moved + k)) same)
        | inr out ↦
            let apart : leb (at + a) j && ltb j (at + a + len) ≡ false = ground arith in
            let before : j < file.st_size = ground arith in
            rw apart (elim (inside-cases at (at + n) j) [
              | inl (low, high) ↦
                  pwrite_inside host file new_page n at writes (omega arith) j low high
                  ∙ memcpy_outside page src a moved len (j - at) (ground arith)
                  ∙ copy (j - at) (omega arith) (omega arith)
                  ∙ ap file.bytes (back j low)
              | inr out' ↦ pwrite_outside host file new_page n at writes (omega arith) j out' before
            ])
      ]

  pwrite-Spliced : Spliced file src moved (at + a) len (pwrite host file new_page n at)
  pwrite-Spliced = record { size = new_size; bytes = new_bytes }

-- the list after the page is written
module _ (host : Host) (w : Written) (c con : LogSysCon) (path page_num buf_ptr : ℕ) (src : ℕ → ℕ)
    (moved a len n : ℕ) (writes : host.bytes_written n (page_num * page_size) ≡ n)
    (f : Fetched c con w.file path page_num buf_ptr) (fits : a + len ≤ page_size)
    (within : page_num * page_size + a ≤ w.file.st_size) (covers : a + len ≤ n)
    (bounded : n ≤ page_size)
    (old : page_num * page_size + n ≤ (
      if ltb w.file.st_size (page_num * page_size + a + len)
      then page_num * page_size + a + len
      else w.file.st_size))
    (full : (n ≡ page_size)
      ⊎ ((if ltb w.file.st_size (page_num * page_size + a + len)
            then page_num * page_size + a + len
            else w.file.st_size)
          ≤ page_num * page_size + n)) where
  pub written-Spliced :
      Spliced w.file src moved
        (page_num * page_size + a)
        len
        (move_and_write host w con buf_ptr src moved a len n (page_num * page_size)).file
  unfolding move_and_write
  written-Spliced =
      pwrite-Spliced host w.file (con.buffers buf_ptr) src moved a len n (page_num * page_size)
        writes (Fetched-IsCopy c con w.file path page_num buf_ptr f) fits within covers bounded old

  -- the size that the file has then
  abbrev grown : ℕ
  grown =
      if ltb w.file.st_size (page_num * page_size + a + len)
      then page_num * page_size + a + len
      else w.file.st_size

  same_page :
      (q i : ℕ)
      → q ≡ page_num
      → i < page_size
      → q * page_size + i < grown
      → (pwrite host w.file
            (memcpy (con.buffers buf_ptr) a src moved len)
            n
            (page_num * page_size)).bytes
          (q * page_size + i)
        ≡ memcpy (con.buffers buf_ptr) a src moved len i
  same_page q i e small inside =
      let written : i < n = elim full [ inl all ↦ omega arith | inr rest ↦ omega arith ] in
      let place : q * page_size + i - page_num * page_size ≡ i = omega arith in
      pwrite_inside host w.file (memcpy (con.buffers buf_ptr) a src moved len) n
        (page_num * page_size) writes (omega arith) (q * page_size + i) (omega arith) (omega arith)
      ∙ ap (memcpy (con.buffers buf_ptr) a src moved len) place

  other_page :
      (q i : ℕ)
      → q ≢ page_num
      → i < page_size
      → q * page_size + i < grown
      → (q * page_size + i < w.file.st_size)
        × ((pwrite host w.file
                (memcpy (con.buffers buf_ptr) a src moved len)
                n
                (page_num * page_size)).bytes
              (q * page_size + i)
            ≡ w.file.bytes (q * page_size + i))
  other_page q i ne small inside =
      let out : (q * page_size + i < page_num * page_size)
          ⊎ (page_num * page_size + n ≤ q * page_size + i) =
        elim (lt-cases q page_num) [
          | inl below ↦ inl (omega arith)
          | inr above ↦ inr (omega arith)
        ] in
      let before : q * page_size + i < w.file.st_size = elim out [
        | inl low ↦ omega arith
        | inr high ↦ ground arith
      ] in
      (
        before,
        pwrite_outside host w.file (memcpy (con.buffers buf_ptr) a src moved len) n
            (page_num * page_size) writes (omega arith) (q * page_size + i) out before,
      )

  pub written-Coherent :
      Coherent
        (move_and_write host w con buf_ptr src moved a len n (page_num * page_size)).con
        (move_and_write host w con buf_ptr src moved a len n (page_num * page_size)).file
        path
  unfolding move_and_write
  written-Coherent = record {
    nodes = f.coherent.nodes;
    tail = f.coherent.tail;
    linked = f.coherent.linked;
    started = f.coherent.started;
    below = f.coherent.below;
    cover = f.coherent.cover;
    count = f.coherent.count;
    own = f.coherent.own;
    unique = f.coherent.unique;
    agrees = λ x h nz p i small inside.
        (let inside' : con.page_num x * page_size + i < grown =
            subst (λ k. con.page_num x * page_size + i < k) written-Spliced.size inside in
          elim (eq-cases x buf_ptr) [
            | inl e ↦
                ap (λ (g : ℕ → ℕ). g i) (store_at con.buffers buf_ptr _ x e)
                ∙ sym (
                    same_page (con.page_num x) i (ap con.page_num (e ∙ f.head_buffer) ∙ f.head_page)
                      small inside')
            | inr ne ↦
                let apart : con.page_num x ≢ page_num = λ q. ne (
                  f.coherent.unique x con.head h nz f.head_below f.head_ne (sym p ∙ sym f.head_path)
                    (q ∙ sym f.head_page)
                  ∙ sym f.head_buffer) in
                let (before, kept) = other_page (con.page_num x) i apart small inside' in
                ap (λ (g : ℕ → ℕ). g i) (store_other con.buffers buf_ptr _ x ne)
                ∙ f.coherent.agrees x h nz p i small before
                ∙ sym kept
          ]);
  }
