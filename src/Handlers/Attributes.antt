-- ===== src/Handlers/Attributes.antt =====
-- The handlers of fuse-3.0.2/example/passthroughBlocked_fh.c for the modes, owners and times of files, for
-- extended attributes and for locks. Those that are not finished call `unimplemented` first.
use cycology.Base.{ℕ, Bool, Option, none, some, List, ◌==◌, if◌then◌else◌, ◌>>=◌, neg32, minus_one}
use cycology.Disk.{Timespec}
use cycology.Handlers.Dirs.{make_path, answer}

-- `none`: it reads through the null pointer.
unfoldable pub unimplemented : Option ℕ
unimplemented = none

-- Each handler takes the host's call, `errno` after it and the root first, and `opened` says whether
-- `fi` is not null.
unfoldable pub xmp_chmod : (List ℕ → ℕ → ℕ) → ℕ → List ℕ → List ℕ → ℕ → Bool → Option ℕ
xmp_chmod chmod errno root_path path mode opened = unimplemented >>= λ bad.
    some (answer errno (if opened then 0 else chmod (make_path root_path path) mode))

unfoldable pub xmp_chown : (List ℕ → ℕ → ℕ → ℕ) → ℕ → List ℕ → List ℕ → ℕ → ℕ → Bool → Option ℕ
xmp_chown lchown errno root_path path uid gid opened = unimplemented >>= λ bad.
    some (answer errno (if opened then 0 else lchown (make_path root_path path) uid gid))

-- The path that goes to the host is not the full one.
unfoldable pub xmp_truncate : (List ℕ → ℕ → ℕ) → ℕ → List ℕ → ℕ → Bool → Option ℕ
xmp_truncate truncate errno path size opened =
    unimplemented >>= λ bad. some (answer errno (if opened then 0 else truncate path size))

unfoldable pub xmp_utimens :
    (List ℕ → Timespec → Timespec → ℕ) → ℕ → List ℕ → List ℕ → Timespec → Timespec → Bool → Option ℕ
xmp_utimens utimensat errno root_path path access modification opened = unimplemented >>= λ bad.
    some (
      answer errno (if opened then 0 else utimensat (make_path root_path path) access modification))

-- the calls of the host are commented out, with 0 as their result
unfoldable pub xmp_fsync : ℕ → Option ℕ
xmp_fsync errno = unimplemented >>= λ bad. some (answer errno 0)

abbrev pub eopnotsupp : ℕ
eopnotsupp = 95

unfoldable pub xmp_fallocate : ℕ → Option ℕ
xmp_fallocate mode = unimplemented >>= λ bad. some (if mode == 0 then 0 else neg32 eopnotsupp)

unfoldable pub xmp_flock : ℕ → Option ℕ
xmp_flock errno = unimplemented >>= λ bad. some (answer errno 0)

unfoldable pub xmp_flush : ℕ → ℕ
xmp_flush errno = answer errno 0

-- The value has `size` bytes.
unfoldable pub xmp_setxattr :
    (List ℕ → List ℕ → (ℕ → ℕ) → ℕ → ℕ → ℕ) → ℕ → List ℕ → List ℕ → List ℕ → (ℕ → ℕ) → ℕ → ℕ → ℕ
xmp_setxattr lsetxattr errno root_path path name value size flags =
    answer errno (lsetxattr (make_path root_path path) name value size flags)

-- what the handlers return for the result of a call that gives a size
unfoldable pub answer_size : ℕ → ℕ → ℕ
answer_size errno res = if res == minus_one then neg32 errno else res

-- The host's call gives the buffer back.
unfoldable pub xmp_getxattr :
    (List ℕ → List ℕ → (ℕ → ℕ) → ℕ → ℕ × (ℕ → ℕ))
    → ℕ
    → List ℕ
    → List ℕ
    → List ℕ
    → (ℕ → ℕ)
    → ℕ
    → ℕ × (ℕ → ℕ)
xmp_getxattr lgetxattr errno root_path path name value size =
    let (res, value') = lgetxattr (make_path root_path path) name value size in
    (answer_size errno res, value')

unfoldable pub xmp_listxattr :
    (List ℕ → (ℕ → ℕ) → ℕ → ℕ × (ℕ → ℕ)) → ℕ → List ℕ → List ℕ → (ℕ → ℕ) → ℕ → ℕ × (ℕ → ℕ)
xmp_listxattr llistxattr errno root_path path list size =
    let (res, list') = llistxattr (make_path root_path path) list size in
    (answer_size errno res, list')

unfoldable pub xmp_removexattr : (List ℕ → List ℕ → ℕ) → ℕ → List ℕ → List ℕ → List ℕ → ℕ
xmp_removexattr lremovexattr errno root_path path name =
    answer errno (lremovexattr (make_path root_path path) name)
