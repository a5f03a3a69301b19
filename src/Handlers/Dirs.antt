-- ===== src/Handlers/Dirs.antt =====
-- The handlers of directories in fuse-3.0.2/example/passthroughBlocked_fh.c: makePath, xmp_opendir and
-- xmp_readdir, and those that pass their call to the host. What the host answers is an argument.
use cycology.Base.{
  ℕ, zero, suc, ◌+◌, ◌-◌, ◌*◌, ◌/◌, ◌%◌, ◌^◌, Bool, false, true, Option, none, some, List, [], ◌∷◌,
  ◌++◌, ◌==◌, if◌then◌else◌, neg32, minus_one, store,
}
use cycology.Files.{OpenFile}
use cycology.Handlers.{Stat, xmp_fstat}

-- a path is the list of its characters
unfoldable pub make_path : List ℕ → List ℕ → List ℕ
make_path root_path path = root_path ++ path

-- what the handlers return for the result of a call
unfoldable pub answer : ℕ → ℕ → ℕ
answer errno res = if res == minus_one then neg32 errno else 0

-- Each handler takes the host's call, `errno` after it and the root first.
unfoldable pub xmp_access : (List ℕ → ℕ → ℕ) → ℕ → List ℕ → List ℕ → ℕ → ℕ
xmp_access access errno root_path path mask = answer errno (access (make_path root_path path) mask)

unfoldable pub xmp_mkdir : (List ℕ → ℕ → ℕ) → ℕ → List ℕ → List ℕ → ℕ → ℕ
xmp_mkdir mkdir errno root_path path mode = answer errno (mkdir (make_path root_path path) mode)

unfoldable pub xmp_rmdir : (List ℕ → ℕ) → ℕ → List ℕ → List ℕ → ℕ
xmp_rmdir rmdir errno root_path path = answer errno (rmdir (make_path root_path path))

-- the type of a file in its mode, and that of a FIFO
unfoldable pub is_fifo : ℕ → Bool
is_fifo mode = mode / 2 ^ 12 % 2 ^ 4 == 1

unfoldable pub xmp_mknod : (List ℕ → ℕ → ℕ) → (List ℕ → ℕ → ℕ → ℕ) → ℕ → List ℕ → List ℕ → ℕ → ℕ → ℕ
xmp_mknod mkfifo mknod errno root_path path mode rdev =
    let full_path = make_path root_path path in
    answer errno (if is_fifo mode then mkfifo full_path mode else mknod full_path mode rdev)

-- The link is below the root, its target is as given.
unfoldable pub xmp_symlink : (List ℕ → List ℕ → ℕ) → ℕ → List ℕ → List ℕ → List ℕ → ℕ
xmp_symlink symlink errno root_path from to = answer errno (symlink from (make_path root_path to))

unfoldable pub xmp_link : (List ℕ → List ℕ → ℕ) → ℕ → List ℕ → List ℕ → List ℕ → ℕ
xmp_link link errno root_path from to =
    answer errno (link (make_path root_path from) (make_path root_path to))

-- The attributes of an open file, or what lstat says of a path below the root.
unfoldable pub xmp_getattr : (List ℕ → ℕ × Stat) → ℕ → List ℕ → List ℕ → Option OpenFile → ℕ × Stat
xmp_getattr lstat errno root_path path none =
    let (res, stbuf) = lstat (make_path root_path path) in (answer errno res, stbuf)
xmp_getattr lstat errno root_path path (some o_file) = (answer errno 0, xmp_fstat o_file)

-- The host's call takes the buffer and gives it back; a 0 goes behind what it stores.
unfoldable pub xmp_readlink :
    (List ℕ → (ℕ → ℕ) → ℕ → ℕ × (ℕ → ℕ)) → ℕ → List ℕ → List ℕ → (ℕ → ℕ) → ℕ → ℕ × (ℕ → ℕ)
xmp_readlink readlink errno root_path path buf size =
    let (res, buf') = readlink (make_path root_path path) buf ((size + (2 ^ 64 - 1)) % 2 ^ 64) in
    (answer errno res, (if res == minus_one then buf' else store buf' res 0))

abbrev pub einval : ℕ
einval = 22

unfoldable pub xmp_rename : (List ℕ → List ℕ → ℕ) → ℕ → List ℕ → List ℕ → List ℕ → ℕ → ℕ
xmp_rename rename errno root_path from to flags =
    if flags == 0
    then answer errno (rename (make_path root_path from) (make_path root_path to))
    else neg32 einval

-- an entry as the host's readdir gives it
pub record Dirent : Type 0 where
  pub d_name : List ℕ
  pub d_ino : ℕ
  pub d_type : ℕ

-- the fields of `struct stat` that xmp_readdir sets
pub record DirStat : Type 0 where
  pub st_ino : ℕ
  pub st_mode : ℕ

-- `struct xmp_dirp`; of the host's stream `dp` the position
pub record XmpDirp : Type 0 where
  pub dp : ℕ
  pub entry : Option Dirent
  pub offset : ℕ

-- what is passed to `filler`
pub record Filled : Type 0 where
  pub name : List ℕ
  pub st : DirStat
  pub plus : Bool
  pub off : ℕ

-- The host's calls: the entry at a position of the stream with the position behind it, and the stat
-- structure of an entry, if it is asked for and found. `filler` says whether a buffer is full for an
-- entry.
pub record DirHost : Type 0 where
  pub readdir : ℕ → Option (Dirent × ℕ)
  pub fstatat : Dirent → Option DirStat
  pub filler : List Filled → Filled → Bool

-- xmp_opendir with a stream that the host has opened at its start
unfoldable pub xmp_opendir : ℕ → XmpDirp
xmp_opendir start = record { dp = start; entry = none; offset = 0 }

-- the entry that the loop goes on with, and the position of the stream then
unfoldable pub next_entry : DirHost → XmpDirp → Option (Dirent × ℕ)
next_entry host d = elim d.entry [ none ↦ host.readdir d.dp | some e ↦ some (e, d.dp) ]

unfoldable pub filled : DirHost → Dirent × ℕ → Filled
filled host (e, next_off) = record {
  name = e.d_name;
  st = elim (host.fstatat e) [
    | none ↦ record { st_ino = e.d_ino; st_mode = e.d_type * 2 ^ 12 }
    | some st ↦ st
  ];
  plus = elim (host.fstatat e) [ none ↦ false | some st ↦ true ];
  off = next_off;
}

-- the loop of xmp_readdir; `none`: out of fuel
unfoldable pub readdir_loop : DirHost → ℕ → XmpDirp → List Filled → Option (XmpDirp × List Filled)
readdir_loop host zero d buf = none
readdir_loop host (suc fuel) d buf = elim (next_entry host d) [
  | none ↦ some (record d { entry = none }, buf)
  | some (e, next_off) ↦
      let f = filled host (e, next_off) in
      let rest =
        readdir_loop host fuel (record { dp = next_off; entry = none; offset = next_off })
          (buf ++ f ∷ []) in
      if host.filler buf f then some (record d { dp = next_off; entry = some e }, buf) else rest
]

-- the buffer is empty at first; the result is 0
unfoldable pub xmp_readdir : DirHost → ℕ → XmpDirp → ℕ → Option (XmpDirp × List Filled)
xmp_readdir host fuel d offset =
    if offset == d.offset
    then readdir_loop host fuel d []
    else readdir_loop host fuel (record { dp = offset; entry = none; offset = offset }) []
