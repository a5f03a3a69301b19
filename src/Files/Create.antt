-- ===== src/Files/Create.antt =====
-- xmp_create of a file that gets a block of the partially used free list.
use mathlib.Core.Path.{sym}
use cycology.Base.{
  store, ℕ, ◌+◌, ◌*◌, ◌-◌, ◌/◌, ◌%◌, ◌^◌, ◌<◌, ◌≡◌, ◌≢◌, refl, inr, ◌∙◌, some, false, arith, add32,
  minus_one, div32_nonneg,
}
use cycology.Disk.{block_bytes, FullPage, LogHeader}
use cycology.Disk.Images.{header_image, header_of, inode_image, inode_of, Image}
use cycology.Nand.{Nand, write_nand}
use cycology.Nand.Layout.{IsFormatted}
use cycology.Nand.Pages.{page_at, next_page_at, SamePage}
use cycology.Nand.Write.{working, Programmed, write_nand-Programmed}
use cycology.Log.{ActiveLog, FreeBlock, Allocated, get_free_page, init_inode, init_log_header}
use cycology.Log.Steps.{IsPlaced, Advanced, next_position}
use cycology.Log.Pages.{get_free_page-Advanced}
use cycology.Files.{LogForFile, Created, new_log, add_link, write_header, header_page}

-- The header of a new log with one file, as far as the functions set it.
pub record IsNewHeader (h : LogHeader) (file_id log_id mode first : ℕ) : Type 0 where
  pub log : h.log_id ≡ log_id
  pub log_type : h.log_type ≡ 1
  pub first_block : h.first ≡ first
  pub prev : h.prev ≡ minus_one
  pub active : h.active ≡ 1
  pub total : h.total ≡ 1
  pub files : h.file_count ≡ 1
  pub file : h.file_id 0 ≡ file_id
  pub inode_file : h.f_inode.i_file_no ≡ file_id
  pub inode_log : h.f_inode.i_log_no ≡ log_id
  pub inode_mode : h.f_inode.i_mode ≡ mode
  pub links : h.f_inode.i_links_count ≡ 1

-- A header is read back from the words that it was written to.
header_of-header_image :
    (h : LogHeader) (w image : Image) (file_id log_id mode first : ℕ)
    → IsNewHeader h file_id log_id mode first
    → ((i : ℕ) → i < 256 → image i ≡ header_image h w i)
    → IsNewHeader (header_of image) file_id log_id mode first
unfolding header_of header_image inode_of inode_image
header_of-header_image h w image file_id log_id mode first new same = record {
  log = same 2 (omega arith) ∙ new.log;
  log_type = rw (same 9 (omega arith), new.log_type);
  first_block = same 5 (omega arith) ∙ new.first_block;
  prev = same 3 (omega arith) ∙ new.prev;
  active = same 7 (omega arith) ∙ new.active;
  total = same 8 (omega arith) ∙ new.total;
  files = same 10 (omega arith) ∙ new.files;
  file = same 11 (omega arith) ∙ new.file;
  inode_file = same 24 (omega arith) ∙ new.inode_file;
  inode_log = same 25 (omega arith) ∙ new.inode_log;
  inode_mode = same 20 (omega arith) ∙ new.inode_mode;
  links = same 26 (omega arith) ∙ new.links;
}

-- the log of a new file after getFreePage counts its first page
abbrev pub counted : ActiveLog → LogHeader
counted log = record log.log { active = add32 log.log.active 1 }

pub new_header :
    (old : ActiveLog) (file_id log_id mode k : ℕ) (b : FreeBlock)
    → b.free_page ≡ k
    → k < 2 ^ 31
    → IsNewHeader
        (counted (add_link (new_log old file_id log_id mode b)))
        file_id
        log_id
        mode
        (k / 16)
unfolding new_log add_link init_log_header init_inode
new_header old file_id log_id mode k b e small = record {
  log = refl;
  log_type = refl;
  first_block = rw e (div32_nonneg k 16 small);
  prev = refl;
  active = refl;
  total = refl;
  files = refl;
  file = refl;
  inode_file = refl;
  inode_log = refl;
  inode_mode = refl;
  links = refl;
}

pub new_log-IsPlaced :
    (n : Nand) (old : ActiveLog) (file_id log_id mode k : ℕ) (b : FreeBlock)
    → IsFormatted n.features
    → b.free_page ≡ k
    → k < n.features.num_blocks * 16
    → k % 16 < 15
    → IsPlaced n (add_link (new_log old file_id log_id mode b))
unfolding new_log add_link init_log_header
new_log-IsPlaced n old file_id log_id mode k b v e inside index = record {
  prev = refl;
  last = rw (e, div32_nonneg k 16 (omega (arith, v.size, v.small))) (omega arith);
  next_page = inr (rw (e, div32_nonneg k 16 (omega (arith, v.size, v.small))), rw e index);
}

-- the header on page `k` of the store, which is else that of `n`
pub record IsStored (n : Nand) (file_id log_id mode k : ℕ) (n' : Nand) : Type 0 where
  pub features : n'.features ≡ n.features
  pub page_type : (page_at n' k).page_type ≡ 3
  pub header : IsNewHeader (header_of (page_at n' k).contents) file_id log_id mode (k / 16)
  pub others : (j : ℕ) → j ≢ k → SamePage (page_at n' j) (page_at n j)
  pub counter : next_page_at n' (k / 16) ≡ k % 16 + 1

-- the outcome of write_header
pub record IsWritten (n : Nand) (r : LogForFile) (file_id log_id mode flags k : ℕ) (c : Created)
    : Type 0 where
  pub result : c.result ≡ 0
  pub handle : c.handle ≡ some (flags, r.memory.next - 1)
  pub stub : c.stub ≡ some file_id
  pub state : c.state ≡ r.state
  pub files : c.memory.files ≡ r.memory.files
  pub stored : IsStored n file_id log_id mode k c.nand

module _ (n : Nand) (v : IsFormatted n.features) (r : LogForFile) (file_id log_id mode flags k : ℕ)
    (fresh buf : FullPage) (inside : k < n.features.num_blocks * 16) (index : k % 16 < 14)
    (free : next_page_at n (k / 16) ≡ k % 16) (same : r.nand ≡ n)
    (next : (r.memory.logs r.log).next_page ≡ k) (placed : IsPlaced n (r.memory.logs r.log))
    (new : IsNewHeader (counted (r.memory.logs r.log)) file_id log_id mode (k / 16)) where
  abbrev Outcome : Type 0
  Outcome =
      (c : Created) × (write_header working r file_id flags fresh buf ≡ some c)
      × IsWritten n r file_id log_id mode flags k c

  abbrev inode_page : Allocated → FullPage
  inode_page a = record (header_page a.buf.page a.log.log) { page_type = 3 }

  stored :
      (a : Allocated) (log : LogHeader) (n' : Nand)
      → a.log.log ≡ log
      → IsNewHeader log file_id log_id mode (k / 16)
      → Programmed n (inode_page a) k (add32 (next_page_at n (k / 16)) 1) n'
      → IsStored n file_id log_id mode k n'
  stored a log n' e h made = record {
    features = made.features;
    page_type = made.page.page_type;
    header =
        header_of-header_image log a.buf.page.contents (page_at n' k).contents file_id log_id mode
          (k / 16) h (λ i lt. rw (← e) (made.page.contents i lt));
    others = made.others;
    counter = ground (arith, made.next_page (k / 16), free);
  }

  pub write_header_lem : Outcome
  unfolding write_header
  write_header_lem = go (
      get_free_page-Advanced n v r.state.lists (r.memory.logs r.log) fresh buf placed
        (rw next (omega arith)))
    where
      written_page :
          (a : Allocated)
          → get_free_page working n r.state.lists (r.memory.logs r.log) fresh buf ≡ some a
          → Advanced n r.state.lists
              (r.memory.logs r.log)
              fresh
              (next_position (r.memory.logs r.log))
              a
          → (n' : Nand) × (write_nand working n (inode_page a) k false ≡ some (block_bytes, n'))
            × Programmed n (inode_page a) k (add32 (next_page_at n (k / 16)) 1) n'
          → Outcome
      written_page a run made (n', ran, programmed) = (
        record {
          result = 0;
          handle = some (flags, r.memory.next - 1);
          stub = some file_id;
          state = record r.state { lists = a.lists };
          memory = record r.memory { logs = store r.memory.logs r.log a.log };
          nand = n';
        },
        rw (same, run, made.nand, made.address, next, ran),
        record {
          result = refl;
          handle = refl;
          stub = refl;
          state = rw made.lists;
          files = refl;
          stored = stored a (counted (r.memory.logs r.log)) n' made.header new programmed;
        },
      )

      go :
          (a : Allocated) × (get_free_page working n r.state.lists (r.memory.logs r.log) fresh buf
              ≡ some a)
            × Advanced n r.state.lists
                (r.memory.logs r.log)
                fresh
                (next_position (r.memory.logs r.log))
                a
          → Outcome
      go (a, run, made) =
          written_page a run made
            (write_nand-Programmed n v (inode_page a) k inside (omega arith) (sym free))
