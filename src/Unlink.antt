-- ===== src/Unlink.antt =====
-- xmp_unlink of fuse-3.0.2/example/passthroughBlocked_fh.c.
pub mod Recycled
use cycology.Base.{
  store, ℕ, ◌-◌, Bool, Option, none, some, not, ltb, ◌==◌, if◌then◌else◌, ◌>>=◌, add32, neg32,
  minus_one,
}
use cycology.Disk.{FullPage, LogHeader}
use cycology.Disk.Images.{header_of}
use cycology.Nand.{Nand, Io, read_nand}
use cycology.Log.Recycle.{logs_recycle}
use cycology.Mount.{PageCache, CycState}
use cycology.Files.{table_size}

-- What the host's file system answers: the links that `stat` reports, if it succeeds; whether `unlink`
-- succeeds; and `errno` after a call that fails.
pub record Host : Type 0 where
  pub links : Option ℕ
  pub unlinked : Bool
  pub errno : ℕ

-- what xmp_unlink returns and changes
pub record Unlinked : Type 0 where
  pub result : ℕ
  pub state : CycState
  pub nand : Nand

-- the call of `unlink` and the result
unfoldable pub unlink_stub : Host → CycState → Nand → Unlinked
unlink_stub host state n = record {
  result = if host.unlinked then 0 else neg32 host.errno;
  state = state;
  nand = n;
}

-- the header, read from the store, without the file
unfoldable pub without_file : LogHeader → LogHeader
without_file h = record h {
  file_count = add32 h.file_count minus_one;
  file_id = store h.file_id 0 0;
}

-- from the log's number on
unfoldable pub remove_from_log : Io → Nand → CycState → Host → FullPage → ℕ → Option Unlinked
remove_from_log io n state host buf2 log_id =
    if not (ltb log_id state.vaddr_map.size)
    then none
    else (read_nand io n buf2 (state.vaddr_map.map log_id) >>= λ r.
        (let last = without_file (header_of r.1.contents) in
          if last.file_count == 0
          then (logs_recycle io n state.lists last (state.vaddr_map.map log_id) >>= λ l.
              some (unlink_stub host (record state { lists = l.1 }) l.0))
          else some (unlink_stub host state n)))

-- the branch for the last link of a file that is not open
unfoldable pub remove_file : Io → Nand → CycState → Host → FullPage → FullPage → ℕ → Option Unlinked
remove_file io n state host buf buf2 file_id =
    if not (ltb file_id state.vaddr_map.size)
    then none
    else (read_nand io n buf (state.vaddr_map.map file_id) >>= λ r.
        remove_from_log io n state host buf2 (header_of r.1.contents).log_id)

-- `file_id` is the number in the stub file. `none` besides: a file that is open is left as it is, and
-- no value is returned.
unfoldable pub xmp_unlink : Io → Nand → CycState → Host → FullPage → FullPage → ℕ → Option Unlinked
xmp_unlink io n state host buf buf2 file_id = elim host.links [
  | none ↦ some (record { result = neg32 host.errno; state = state; nand = n })
  | some links ↦
      if ltb 1 links
      then some (unlink_stub host state n)
      else if not (ltb file_id table_size)
      then none
      else if state.cache.open_file_table file_id == 0
      then remove_file io n state host buf buf2 file_id
      else none
]
