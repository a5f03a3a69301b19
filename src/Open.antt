-- ===== src/Open.antt =====
-- xmp_open of fuse-3.0.2/example/passthroughBlocked_fh.c. The stub file's number is an argument.
pub mod Count
use cycology.Base.{
  store, ℕ, ◌+◌, Bool, Option, none, some, not, ◌&&◌, ltb, ◌==◌, if◌then◌else◌, ◌>>=◌, add32,
  minus_one,
}
use cycology.Disk.{FullPage, Inode}
use cycology.Disk.Images.{header_of}
use cycology.Nand.{Nand, Io, read_nand}
use cycology.Log.{ActiveLog, init_active_log}
use cycology.Mount.{PageCache, CycState}
use cycology.Files.{OpenFile, Memory, table_size, init_open_file}

-- what xmp_open returns and changes; `handle` is what it stores in `fi`, if anything
pub record Opened : Type 0 where
  pub result : ℕ
  pub handle : Option (ℕ × ℕ)
  pub state : CycState
  pub memory : Memory

-- The table and the memory after a new log for `log_id`. The log that xmp_open declares inside the
-- branch is this one; the one declared outside stays null.
unfoldable pub add_log : CycState → Memory → ℕ → CycState × Memory
add_log state memory log_id =
    let p = memory.next in
    let log = init_active_log (memory.logs p) (add32 (state.vaddr_map.map log_id) 1) in
    (
      record state {
        cache = record state.cache { open_file_table = store state.cache.open_file_table log_id p };
      },
      record memory {
        logs = store memory.logs p (record log { file_count = add32 log.file_count 1 });
        next = p + 1;
      },
    )

-- The table and the memory after a new openFile for `file_id` with the log `log`. The inode is copied
-- from the place of the variable `ind`, not from what it points to: `ind` is what that place holds.
unfoldable pub add_open_file : CycState × Memory → ℕ → Inode → ℕ → CycState × Memory
add_open_file (state, memory) log ind file_id =
    let p = memory.next in
    (
      record state {
        cache = record state.cache {
          open_file_table = store state.cache.open_file_table file_id p;
        };
      },
      record memory {
        files = store memory.files p (init_open_file (memory.files p) log ind file_id);
        next = p + 1;
      },
    )

-- `oFile->currentOpens++`, the handle and the result
unfoldable pub count_open : CycState × Memory → ℕ → ℕ → Opened
count_open (state, memory) file flags =
    let old = memory.files file in
    record {
      result = 0;
      handle = some (flags, file);
      state = state;
      memory = record memory {
        files = store memory.files file (record old { current_opens = add32 old.current_opens 1 });
      };
    }

-- the branch for a file that is not open
unfoldable pub open_new : Io → Nand → CycState → Memory → FullPage → Inode → ℕ → ℕ → Option Opened
open_new io n state memory buf ind file_id flags =
    if not (ltb file_id state.vaddr_map.size)
    then none
    else (read_nand io n buf (state.vaddr_map.map file_id) >>= λ r.
        (let log_id = (header_of r.1.contents).f_inode.i_log_no in
          let log = state.cache.open_file_table log_id in
          if not (ltb log_id table_size)
          then none
          else if not (log == 0)
          then some (count_open (add_open_file (state, memory) log ind file_id) memory.next flags)
          else if not (ltb log_id state.vaddr_map.size)
          then none
          else some (
              count_open (add_open_file (add_log state memory log_id) log ind file_id)
                (memory.next + 1) flags)))

-- The page of the last header that is read where the log is new is not used. `none` besides: an index
-- that the table of open files or the address map does not have.
unfoldable pub xmp_open : Io → Nand → CycState → Memory → FullPage → Inode → ℕ → ℕ → Option Opened
xmp_open io n state memory buf ind file_id flags =
    let file = state.cache.open_file_table file_id in
    if file_id == minus_one
    then some (record { result = minus_one; handle = none; state = state; memory = memory })
    else if not (ltb file_id table_size)
    then none
    else if not (file == 0)
    then some (count_open (state, memory) file flags)
    else open_new io n state memory buf ind file_id flags
