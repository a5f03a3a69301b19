-- ===== src/Files.antt =====
-- Files: getLogForFile, initOpenFile and writeCurrLogHeader of fuse-3.0.2/example/helper.c, and
-- xmp_create of fuse-3.0.2/example/passthroughBlocked_fh.c.
pub mod Create
pub mod Creation
pub mod Header
use cycology.Base.{
  store, not, ℕ, ◌+◌, ◌-◌, ◌*◌, ◌/◌, ◌%◌, ◌^◌, Bool, true, false, Option, none, some, ltb, ◌&&◌,
  ◌==◌, if◌then◌else◌, ◌>>=◌, is_neg, add32, div32, neg32,
}
use cycology.Disk.{block_size, ltype_files, ptype_inode, FreeList, FullPage, Inode, LogHeader}
use cycology.Disk.Images.{header_image}
use cycology.Nand.{Nand, Io, write_nand}
use cycology.Addresses.{get_free_ptr, set_address}
use cycology.Log.{
  ActiveLog, WriteablePage, FreeBlock, Allocated, get_free_block, get_free_page, init_inode,
  init_log_header,
}
use cycology.Mount.{PageCache, CycState}

-- `struct openFile`, its fields that the functions below set
pub record OpenFile : Type 0 where
  pub current_opens : ℕ
  pub main_extent_log : ℕ
  pub inode : Inode
  pub address : ℕ

-- The logs and files that `malloc` gave room for, by their pointers. It returns `next`, never null, and
-- the struct there holds what it held before.
pub record Memory : Type 0 where
  pub logs : ℕ → ActiveLog
  pub files : ℕ → OpenFile
  pub next : ℕ

-- entries of openFileTable
abbrev pub table_size : ℕ
table_size = 254

-- `int` to `long`
abbrev widen : ℕ → ℕ
widen w = if is_neg w then w + (2 ^ 64 - 2 ^ 32) else w

-- what getLogForFile returns, stores through `logHeaderPage` and changes
pub record LogForFile : Type 0 where
  pub log : ℕ
  pub header_page : ℕ
  pub state : CycState
  pub memory : Memory
  pub nand : Nand

-- The new log, in the memory that held `old`.
unfoldable pub new_log : ActiveLog → ℕ → ℕ → ℕ → FreeBlock → ActiveLog
new_log old file_id log_id mode b =
    let h =
      init_log_header (record old.log { f_inode = init_inode old.log.f_inode mode file_id log_id })
        log_id ltype_files in
    record old {
      log = record h {
        first_erases = b.erases;
        erases = widen b.erases;
        first = div32 b.free_page block_size;
        file_count = 1;
        file_id = store h.file_id 0 file_id;
      };
      last = div32 b.free_page block_size;
      next_page = b.free_page;
    }

-- `none` besides: an identifier that is no index of the table of open files
unfoldable pub get_log_for_file :
    Io → Nand → CycState → Memory → FullPage → ℕ → ℕ → Option LogForFile
get_log_for_file io n state memory buf file_id mode =
    let (log_id, map) = get_free_ptr state.vaddr_map in
    (get_free_block io n state.lists buf true >>= λ b.
    if ltb log_id table_size
    then some (record {
      log = memory.next;
      header_page = b.free_page;
      state = record state {
        vaddr_map = set_address map log_id b.free_page;
        cache = record state.cache {
          open_file_table = store state.cache.open_file_table log_id memory.next;
        };
        lists = b.lists;
      };
      memory = record memory {
        logs =
            store memory.logs memory.next (new_log (memory.logs memory.next) file_id log_id mode b);
        next = memory.next + 1;
      };
      nand = b.nand;
    })
    else none)

-- The other fields keep what the struct held.
unfoldable pub init_open_file : OpenFile → ℕ → Inode → ℕ → OpenFile
init_open_file old log ind file_id = record old {
  current_opens = 1;
  main_extent_log = log;
  inode = ind;
  address = file_id;
}

-- The page `buf` with the log's header over the beginning of its contents.
abbrev pub header_page : FullPage → LogHeader → FullPage
header_page page h = record page { contents = header_image h page.contents }

-- The log with its new place, and the free lists and store that are left. The result of writeNAND is
-- not looked at.
unfoldable pub write_curr_log_header :
    Io → Nand → ActiveLog → FullPage → FullPage → FreeList → Option Allocated
write_curr_log_header io n log fresh buf lists = do
  a ← get_free_page io n lists log fresh buf
  (_, n') ← write_nand io a.nand (header_page a.buf.page a.log.log) a.buf.address false
  some (record a { nand = n' })

-- what xmp_create returns and changes; `handle` is what it stores in `fi`, if anything: the flags and
-- the file's pointer; `stub` is the number that it writes to the stub file
pub record Created : Type 0 where
  pub result : ℕ
  pub handle : Option (ℕ × ℕ)
  pub stub : Option ℕ
  pub state : CycState
  pub memory : Memory
  pub nand : Nand

-- `i_links_count` of the log's inode goes up by one
unfoldable pub add_link : ActiveLog → ActiveLog
add_link log =
    let ind = log.log.f_inode in
    record log {
      log = record log.log { f_inode = record ind { i_links_count = add32 ind.i_links_count 1 } };
    }

-- the file that gets its openFile, in the memory and the table
unfoldable pub add_file : LogForFile → ℕ → LogForFile
add_file r file_id =
    let log = add_link (r.memory.logs r.log) in
    let p = r.memory.next in
    record r {
      state = record r.state {
        vaddr_map = set_address r.state.vaddr_map file_id r.header_page;
        cache = record r.state.cache {
          open_file_table = store r.state.cache.open_file_table file_id p;
        };
      };
      memory = record {
        logs = store r.memory.logs r.log log;
        files =
            store r.memory.files p
              (init_open_file (r.memory.files p) r.log log.log.f_inode file_id);
        next = p + 1;
      };
    }

-- the end of xmp_create: the header goes to the store
unfoldable pub write_header : Io → LogForFile → ℕ → ℕ → FullPage → FullPage → Option Created
write_header io r file_id flags fresh buf = do
  a ← get_free_page io r.nand r.state.lists (r.memory.logs r.log) fresh buf
  (_, n') ←
      write_nand io a.nand (record (header_page a.buf.page a.log.log) { page_type = ptype_inode })
        a.buf.address false
  some (record {
    result = 0;
    handle = some (flags, r.memory.next - 1);
    stub = some file_id;
    state = record r.state { lists = a.lists };
    memory = record r.memory { logs = store r.memory.logs r.log a.log };
    nand = n';
  })

-- `opened` tells whether the stub file could be opened, `errno` why not. `fresh` and `buf` are what the
-- page that getFreePage obtains and the buffers of getFreeBlock hold.
unfoldable pub xmp_create :
    Io → Nand → CycState → Memory → Bool → ℕ → ℕ → ℕ → FullPage → FullPage → Option Created
xmp_create io n state memory opened errno mode flags fresh buf =
    let (file_id, map) = get_free_ptr state.vaddr_map in
    (get_log_for_file io n (record state { vaddr_map = map }) memory buf file_id mode >>= λ r.
    if not (ltb file_id table_size)
    then none
    else if opened
    then write_header io (add_file r file_id) file_id flags fresh buf
    else some (record {
      result = neg32 errno;
      handle = none;
      stub = none;
      state = (add_file r file_id).state;
      memory = (add_file r file_id).memory;
      nand = r.nand;
    }))
