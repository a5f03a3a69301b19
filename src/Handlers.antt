-- ===== src/Handlers.antt =====
-- Handlers of fuse-3.0.2/example/passthroughBlocked_fh.c for files that are open: xmp_fstat, xmp_read,
-- xmp_statfs and xmp_release. The two fields of the handle in `fi` are arguments.
pub mod Release
pub mod Dirs
pub mod Listing
pub mod Attributes
pub mod Buffer
use cycology.Base.{
  store, ℕ, ◌+◌, ◌-◌, ◌*◌, ◌%◌, ◌^◌, Bool, Option, none, some, not, ◌&&◌, ◌||◌, ltb, leb, ◌==◌,
  if◌then◌else◌, ◌>>=◌, add32, mul32, neg32, minus_one, word_mod, is_neg,
}
use cycology.Disk.{block_size, FullPage, Timespec, Inode}
use cycology.Nand.{Features, Nand, Io}
use cycology.Log.{ActiveLog, Allocated}
use cycology.Mount.{PageCache, CycState}
use cycology.Files.{OpenFile, Memory, table_size, write_curr_log_header}

-- the fields of `struct stat` that xmp_fstat sets
pub record Stat : Type 0 where
  pub st_ino : ℕ
  pub st_mode : ℕ
  pub st_nlink : ℕ
  pub st_uid : ℕ
  pub st_gid : ℕ
  pub st_rdev : ℕ
  pub st_size : ℕ
  pub st_blksize : ℕ
  pub st_blocks : ℕ
  pub st_atim : Timespec
  pub st_mtim : Timespec
  pub st_ctim : Timespec

-- a word as a number of 64 bits
unfoldable pub to_long : ℕ → ℕ
to_long w = if is_neg w then w + (2 ^ 64 - word_mod) else w

-- the result is 0
unfoldable pub xmp_fstat : OpenFile → Stat
xmp_fstat file = record {
  st_ino = to_long file.address;
  st_mode = file.inode.i_mode;
  st_nlink = file.inode.i_links_count;
  st_uid = file.inode.i_uid;
  st_gid = file.inode.i_gid;
  st_rdev = 0;
  st_size = file.inode.i_size;
  st_blksize = 1024;
  st_blocks = to_long file.inode.i_pages * 2 % 2 ^ 64;
  st_atim = file.inode.i_atime;
  st_mtim = file.inode.i_mtime;
  st_ctim = file.inode.i_ctime;
}

-- xmp_read's result and the bytes of `buf`
pub record Read : Type 0 where
  pub result : ℕ
  pub buf : ℕ → ℕ

-- `bytes_read` and `temp_buf` are what `pread` returns and stores for the first page. The calls for the
-- pages behind it are commented out, with 0 as their result, so a read beyond the first page fails.
unfoldable pub xmp_read : ℕ → ℕ → (ℕ → ℕ) → (ℕ → ℕ) → ℕ → ℕ → Read
xmp_read flag bytes_read temp_buf buf size offset =
    let at = offset % 1024 in
    let res = if leb size (1024 - at) then size else 1024 - at in
    let buf' : ℕ → ℕ = λ i. if ltb i res then temp_buf (at + i) else buf i in
    if flag % 2 == 1
    then record { result = minus_one; buf = buf }
    else if not ((bytes_read == 1024) || leb size bytes_read)
    then record { result = minus_one; buf = buf }
    else if leb 1024 (size - res) || ltb 0 (size - res)
    then record { result = minus_one; buf = buf' }
    else record { result = res; buf = buf' }

-- the fields of `struct statvfs` that xmp_statfs sets
pub record StatVfs : Type 0 where
  pub f_bsize : ℕ
  pub f_blocks : ℕ
  pub f_bavail : ℕ
  pub f_namemax : ℕ

unfoldable pub xmp_statfs : Features → StatVfs
xmp_statfs f = record {
  f_bsize = 1024;
  f_blocks = to_long (mul32 block_size f.num_blocks);
  f_bavail = to_long (mul32 block_size (add32 f.num_blocks (neg32 2)));
  f_namemax = 255;
}

-- what xmp_release returns and changes
pub record Released : Type 0 where
  pub result : ℕ
  pub state : CycState
  pub memory : Memory
  pub nand : Nand

-- the last open of a modified file ends: its header is written
unfoldable pub release_modified :
    Io → Nand → CycState → Memory → FullPage → FullPage → ℕ → Option Released
release_modified io n state memory fresh buf file =
    let log = (memory.files file).main_extent_log in
    if log == 0
    then none
    else write_curr_log_header io n (memory.logs log) fresh buf state.lists >>= λ a. some (record {
      result = 0;
      state = record state { lists = a.lists };
      memory = record memory { logs = store memory.logs log a.log };
      nand = a.nand;
    })

-- `modified` is the field of the structs of open files, which no function sets. `none` besides: the
-- file's number is no index of the table of open files, or its entry is null.
unfoldable pub xmp_release :
    Io → Nand → CycState → Memory → (ℕ → ℕ) → FullPage → FullPage → ℕ → Option Released
xmp_release io n state memory modified fresh buf o_file =
    let file = memory.files o_file in
    let released = state.cache.open_file_table file.inode.i_file_no in
    let opens = add32 file.current_opens minus_one in
    let memory' = record memory {
      files = store memory.files o_file (record file { current_opens = opens });
    } in
    if not (ltb file.inode.i_file_no table_size)
    then none
    else if (opens == 0) && (released == 0)
    then none
    else if (opens == 0) && (modified released == 1)
    then release_modified io n state memory' fresh buf released
    else some (record { result = 0; state = state; memory = memory'; nand = n })
