-- ===== src/Handlers/Listing.antt =====
-- A directory that is listed by calls of xmp_readdir of
-- fuse-3.0.2/example/passthroughBlocked_fh.c, each from the offset of the last entry that was taken.
use mathlib.Core.Path.{subst}
use cycology.Base.{
  ℕ, zero, suc, ◌-◌, ◌<◌, ◌≤◌, ◌≡◌, refl, ap, sym, ◌∙◌, false, inl, inr, Option, none, some, List,
  [], ◌∷◌, ◌++◌, arith, ◌>>=◌, length, eq→==, Bool-cases,
}
use cycology.Handlers.Dirs.{
  Dirent, XmpDirp, Filled, DirHost, xmp_opendir, next_entry, filled, readdir_loop, xmp_readdir,
}

-- From a position on, the host's stream has the entries of a list, each with the position behind it.
abbrev pub Entries : DirHost → ℕ → List (Dirent × ℕ) → Type 0
Entries host pos [] = host.readdir pos ≡ none
Entries host pos ((e, p) ∷ es) = (host.readdir pos ≡ some (e, p)) × Entries host p es

-- the same, from an entry that is kept on
abbrev Ahead : DirHost → XmpDirp → List (Dirent × ℕ) → Type 0
Ahead host d [] = next_entry host d ≡ none
Ahead host d ((e, p) ∷ es) = (next_entry host d ≡ some (e, p)) × Entries host p es

abbrev pub all_filled : DirHost → List (Dirent × ℕ) → List Filled
all_filled host [] = []
all_filled host (e ∷ es) = filled host e ∷ all_filled host es

-- the offset of the last entry that was taken
abbrev pub last_off : ℕ → List Filled → ℕ
last_off off [] = off
last_off off (f ∷ fs) = last_off f.off fs

-- Calls with empty buffers, each from where the one before it came to.
abbrev pub listing : ℕ → DirHost → ℕ → XmpDirp → ℕ → Option (XmpDirp × List Filled)
listing zero host fuel d off = some (d, [])
listing (suc calls) host fuel d off = xmp_readdir host fuel d off >>= λ (d', buf).
    listing calls host fuel d' (last_off off buf) >>= λ (d'', more). some (d'', buf ++ more)

-- what one call leaves of the entries
record Delivered (host : DirHost) (d : XmpDirp) (buf : List Filled) (es : List (Dirent × ℕ))
    (r : Option (XmpDirp × List Filled)) : Type 0 where
  taken : List (Dirent × ℕ)
  rest : List (Dirent × ℕ)
  dirp : XmpDirp
  parts : es ≡ taken ++ rest
  result : r ≡ some (dirp, buf ++ all_filled host taken)
  ahead : Ahead host dirp rest
  offset : dirp.offset ≡ last_off d.offset (all_filled host taken)

module _ (host : DirHost) where
  -- a stream behind an entry that was taken
  abbrev behind : ℕ → XmpDirp
  behind p = record { dp = p; entry = none; offset = p }

  behind-Ahead : (p : ℕ) (es : List (Dirent × ℕ)) → Entries host p es → Ahead host (behind p) es
  unfolding next_entry
  behind-Ahead p [] h = h
  behind-Ahead p ((e, q) ∷ es) h = h

  filled_off : (e : Dirent) (p : ℕ) → (filled host (e, p)).off ≡ p
  unfolding filled
  filled_off e p = refl

  append_assoc :
      (xs : List Filled) (x : Filled) (ys : List Filled) → (xs ++ x ∷ []) ++ ys ≡ xs ++ x ∷ ys
  append_assoc [] x ys = refl
  append_assoc (z ∷ xs) x ys = ap (λ l. z ∷ l) (append_assoc xs x ys)

  append_none : (xs : List Filled) → xs ++ [] ≡ xs
  append_none [] = refl
  append_none (z ∷ xs) = ap (λ l. z ∷ l) (append_none xs)

  -- an entry that is taken, and what the loop does behind it
  taken_first :
      (d : XmpDirp) (buf : List Filled) (e : Dirent) (p : ℕ) (es : List (Dirent × ℕ))
      (r : Option (XmpDirp × List Filled))
      → Delivered host (behind p) (buf ++ filled host (e, p) ∷ []) es r
      → Delivered host d buf ((e, p) ∷ es) r
  taken_first d buf e p es r v = record {
    taken = (e, p) ∷ v.taken;
    rest = v.rest;
    dirp = v.dirp;
    parts = ap (λ l. (e, p) ∷ l) v.parts;
    result =
        v.result
        ∙ ap (λ l. some (v.dirp, l))
            (append_assoc buf (filled host (e, p)) (all_filled host v.taken));
    ahead = v.ahead;
    offset = v.offset ∙ ap (λ o. last_off o (all_filled host v.taken)) (sym (filled_off e p));
  }

  next_kept :
      (d : XmpDirp) (e : Dirent) (p : ℕ)
      → next_entry host (record d { dp = p; entry = some e }) ≡ some (e, p)
  unfolding next_entry
  next_kept d e p = refl

  -- At the end no entry is kept.
  end_next :
      (dp offset : ℕ) (entry : Option Dirent)
      → next_entry host (record { dp = dp; entry = entry; offset = offset }) ≡ none
      → next_entry host (record { dp = dp; entry = none; offset = offset }) ≡ none
  unfolding next_entry
  end_next dp offset none h = h
  end_next dp offset (some e) h = absurd (ground (arith, h))

  -- The loop takes the first entries that are left, as many as the buffer has room for.
  readdir_loop-Delivered :
      (es : List (Dirent × ℕ)) (fuel : ℕ) (d : XmpDirp) (buf : List Filled)
      → Ahead host d es
      → length es < fuel
      → Delivered host d buf es (readdir_loop host fuel d buf)
  unfolding readdir_loop
  readdir_loop-Delivered es zero d buf h enough = absurd (omega arith)
  readdir_loop-Delivered [] (suc fuel) d buf h enough =
      rw (readdir_loop, h)
        (record {
          taken = [];
          rest = [];
          dirp = record d { entry = none };
          parts = refl;
          result = ap (λ l. some (record d { entry = none }, l)) (sym (append_none buf));
          ahead = end_next d.dp d.offset d.entry h;
          offset = refl;
        })
  readdir_loop-Delivered ((e, p) ∷ es) (suc fuel) d buf (h, hs) enough =
      rw (readdir_loop, h)
        (elim (Bool-cases (host.filler buf (filled host (e, p)))) [
          | inl full ↦ rw full (record {
            taken = [];
            rest = (e, p) ∷ es;
            dirp = record d { dp = p; entry = some e };
            parts = refl;
            result =
                ap (λ l. some (record d { dp = p; entry = some e }, l)) (sym (append_none buf));
            ahead = (next_kept d e p, hs);
            offset = refl;
          })
          | inr room ↦ rw room (
              taken_first d buf e p es _ (
                readdir_loop-Delivered es fuel (behind p) (buf ++ filled host (e, p) ∷ [])
                  (behind-Ahead p es hs) (omega arith)))
        ])

  length-rest : (taken rest es : List (Dirent × ℕ)) → es ≡ taken ++ rest → length rest ≤ length es
  length-rest taken rest es e = subst (λ l. length rest ≤ length l) (sym e) (behind_all taken)
    where
      behind_all : (xs : List (Dirent × ℕ)) → length rest ≤ length (xs ++ rest)
      behind_all [] = omega arith
      behind_all (x ∷ xs) = let h = behind_all xs in omega arith

  all_filled-append :
      (xs ys : List (Dirent × ℕ))
      → all_filled host (xs ++ ys) ≡ all_filled host xs ++ all_filled host ys
  all_filled-append [] ys = refl
  all_filled-append (x ∷ xs) ys = ap (λ l. filled host x ∷ l) (all_filled-append xs ys)

  module _ (accepts : (f : Filled) → host.filler [] f ≡ false) (fuel : ℕ) where
    -- A call takes one of the entries that are left at least.
    call :
        (es : List (Dirent × ℕ)) (d : XmpDirp)
        → Ahead host d es
        → length es < suc fuel
        → (v : Delivered host d [] es (readdir_loop host (suc fuel) d [])) × (length v.rest
            ≤ length es - 1)
    unfolding readdir_loop taken_first
    call [] d h enough =
        let v = readdir_loop-Delivered [] (suc fuel) d [] h enough in
        (v, length-rest v.taken v.rest [] v.parts)
    call ((e, p) ∷ es) d (h, hs) enough =
        let w =
          readdir_loop-Delivered es fuel (behind p) (filled host (e, p) ∷ []) (behind-Ahead p es hs)
            (omega arith) in
        let taken = accepts (filled host (e, p)) in
        let bound = length-rest w.taken w.rest es w.parts in
        rw (readdir_loop, h, taken) (taken_first d [] e p es _ w, omega (arith, bound))

    both :
        (calls off : ℕ) (es : List (Dirent × ℕ)) (d : XmpDirp)
        → d.offset ≡ off
        → (v : Delivered host d [] es (readdir_loop host (suc fuel) d [])) → (d' : XmpDirp)
        → listing calls host (suc fuel) v.dirp v.dirp.offset ≡ some (d', all_filled host v.rest)
        → listing (suc calls) host (suc fuel) d off ≡ some (d', all_filled host es)
    unfolding xmp_readdir
    both calls off es d e v d' more =
        let came : last_off off (all_filled host v.taken) ≡ v.dirp.offset =
          ap (λ o. last_off o (all_filled host v.taken)) (sym e) ∙ sym v.offset in
        let all : all_filled host v.taken ++ all_filled host v.rest ≡ all_filled host es =
          sym (all_filled-append v.taken v.rest) ∙ ap (all_filled host) (sym v.parts) in
        rw (eq→== off d.offset (sym e), v.result, came, more) (ap (λ l. some (d', l)) all)

    -- With as many calls as there are entries a directory is listed.
    listing_rest :
        (calls : ℕ) (es : List (Dirent × ℕ)) (d : XmpDirp) (off : ℕ)
        → d.offset ≡ off
        → Ahead host d es
        → length es ≤ calls
        → length es < suc fuel
        → (d' : XmpDirp) × (listing calls host (suc fuel) d off ≡ some (d', all_filled host es))
    listing_rest zero [] d off e h enough turns = (d, refl)
    listing_rest zero (x ∷ es) d off e h enough turns = absurd (omega arith)
    listing_rest (suc calls) es d off e h enough turns =
        let (v, bound) = call es d h turns in
        let (d', more) =
          listing_rest calls v.rest v.dirp v.dirp.offset refl v.ahead (omega arith) (omega arith) in
        (d', both calls off es d e v d' more)

    -- A directory is opened and listed by calls that go on where the one before ended, with as many
    -- calls as it has entries: each entry is delivered, once and in the order of the stream, however
    -- much the buffers hold, if they hold one entry.
    pub listing-all_filled :
        (start : ℕ) (es : List (Dirent × ℕ)) (calls : ℕ)
        → Entries host start es
        → length es ≤ calls
        → length es ≤ fuel
        → (d' : XmpDirp) × (listing calls host (suc fuel) (xmp_opendir start) 0
            ≡ some (d', all_filled host es))
    unfolding xmp_opendir next_entry
    listing-all_filled start [] calls h enough turns =
        listing_rest calls [] (xmp_opendir start) 0 refl h enough (omega arith)
    listing-all_filled start (e ∷ es) calls h enough turns =
        listing_rest calls (e ∷ es) (xmp_opendir start) 0 refl h enough (omega arith)
