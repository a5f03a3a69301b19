-- ===== src/Files/Creation.antt =====
-- xmp_create as a whole.
use mathlib.Core.Path.{subst, ap}
use cycology.Base.{
  store, AllNe, ℕ, ◌+◌, ◌/◌, ◌%◌, ◌<◌, ◌≡◌, refl, ◌∙◌, some, true, List, [], ◌∷◌, arith, lt→ltb,
  eq→==,
}
use cycology.Disk.{AddrMap, FullPage}
use cycology.Nand.{Nand}
use cycology.Nand.Layout.{IsFormatted}
use cycology.Nand.Pages.{next_page_at}
use cycology.Nand.Write.{working}
use cycology.Nand.Chain.{next_link, Chain}
use cycology.Addresses.{get_free_ptr, set_address}
use cycology.Addresses.Alloc.{IsFree, get_free_ptr-IsFree}
use cycology.Log.{FreeBlock, get_free_block}
use cycology.Log.Blocks.{get_free_block_partial}
use cycology.Mount.{CycState}
use cycology.Files.{
  Memory, LogForFile, Created, new_log, get_log_for_file, add_link, add_file, write_header,
  xmp_create, init_open_file,
}
use cycology.Addresses.Alloc.{FreeFrom-set_address}
use cycology.Files.Create.{IsStored, IsWritten, write_header_lem, new_header, new_log-IsPlaced}

-- The file `f` is created in log `l`, whose header is on page `k`; the virtual addresses `xs` and the
-- pages `ks` are left.
pub record IsCreated (n : Nand) (memory : Memory) (f l mode flags k : ℕ) (xs ks : List ℕ)
    (c : Created) : Type 0 where
  pub result : c.result ≡ 0
  pub handle : c.handle ≡ some (flags, memory.next + 1)
  pub stub : c.stub ≡ some f
  pub stored : IsStored n f l mode k c.nand
  pub file_address : c.state.vaddr_map.map f ≡ k
  pub log_address : c.state.vaddr_map.map l ≡ k
  pub addresses : IsFree c.state.vaddr_map xs
  pub partial : Chain c.nand c.state.lists.partial_head ks
  pub log_entry : c.state.cache.open_file_table l ≡ memory.next
  pub file_entry : c.state.cache.open_file_table f ≡ memory.next + 1
  pub opens : (c.memory.files (memory.next + 1)).current_opens ≡ 1
  pub main_extent_log : (c.memory.files (memory.next + 1)).main_extent_log ≡ memory.next
  pub address : (c.memory.files (memory.next + 1)).address ≡ f

Chain-IsStored :
    {n n' : Nand} {f l mode j : ℕ}
    → IsStored n f l mode j n'
    → (p : ℕ) (ks : List ℕ) → AllNe j ks
    → Chain n p ks
    → Chain n' p ks
Chain-IsStored e p [] all c = c
Chain-IsStored {n} {n'} e p (k ∷ ks) all c = (
  c.0,
  c.1,
  rw e.features c.2,
  rw (e.others k all.0).next_log_block (Chain-IsStored e (next_link n k) ks all.1 c.3),
)

module _ (n : Nand) (v : IsFormatted n.features) (state : CycState) (memory : Memory)
    (errno mode flags : ℕ) (fresh buf : FullPage) (f l k : ℕ) (xs ks : List ℕ)
    (addresses : IsFree state.vaddr_map (f ∷ l ∷ xs)) (f_small : f < 254) (l_small : l < 254)
    (chain : Chain n state.lists.partial_head (k ∷ ks)) (apart : AllNe (k + 1) ks)
    (index : k % 16 < 13) (free : next_page_at n (k / 16) ≡ k % 16 + 1) where
  -- the map after the two calls of getFreePtr
  abbrev popped : AddrMap
  popped = (get_free_ptr (get_free_ptr state.vaddr_map).1).1

  -- what getLogForFile returns with the block `b`
  abbrev log_for_file : FreeBlock → LogForFile
  log_for_file b = record {
    log = memory.next;
    header_page = b.free_page;
    state = record state {
      vaddr_map = set_address popped l b.free_page;
      cache = record state.cache {
        open_file_table = store state.cache.open_file_table l memory.next;
      };
      lists = b.lists;
    };
    memory = record memory {
      logs = store memory.logs memory.next (new_log (memory.logs memory.next) f l mode b);
      next = memory.next + 1;
    };
    nand = b.nand;
  }

  file_id_lem : (get_free_ptr state.vaddr_map).0 ≡ f
  file_id_lem = (get_free_ptr-IsFree state.vaddr_map f (l ∷ xs) addresses 0).0

  map_lem : IsFree (get_free_ptr state.vaddr_map).1 (l ∷ xs)
  map_lem = (get_free_ptr-IsFree state.vaddr_map f (l ∷ xs) addresses 0).1

  log_id_lem : (get_free_ptr (get_free_ptr state.vaddr_map).1).0 ≡ l
  log_id_lem = (get_free_ptr-IsFree (get_free_ptr state.vaddr_map).1 l xs map_lem 0).0

  get_log_for_file_lem :
      (b : FreeBlock)
      → get_free_block working n state.lists buf true ≡ some b
      → get_log_for_file working n
          (record state { vaddr_map = (get_free_ptr state.vaddr_map).1 })
          memory
          buf
          f
          mode
        ≡ some (log_for_file b)
  unfolding get_log_for_file
  get_log_for_file_lem b run = rw (run, log_id_lem, lt→ltb l 254 l_small)

  addresses_lem : (a : ℕ) → IsFree (set_address (set_address popped l a) f a) xs
  unfolding set_address
  addresses_lem a =
      FreeFrom-set_address (set_address popped l a) f a popped.free_ptr xs addresses.2.1 (
        subst (λ i. IsFree (set_address popped i a) xs) log_id_lem
          (get_free_ptr-IsFree (get_free_ptr state.vaddr_map).1 l xs map_lem a).2)

  file_address_lem : (a : ℕ) → (set_address (set_address popped l a) f a).map f ≡ a
  unfolding set_address
  file_address_lem a = ground arith

  log_address_lem : (a : ℕ) → (set_address (set_address popped l a) f a).map l ≡ a
  unfolding set_address
  log_address_lem a = ground arith

  -- the outcome, from what write_header makes of the new file
  IsWritten-IsCreated :
      (b : FreeBlock) (c : Created)
      → b.free_page ≡ k + 1
      → Chain n b.lists.partial_head ks
      → IsWritten n (add_file (log_for_file b) f) f l mode flags (k + 1) c
      → IsCreated n memory f l mode flags (k + 1) xs ks c
  unfolding add_file init_open_file
  IsWritten-IsCreated b c page rest made = record {
    result = made.result;
    handle = made.handle ∙ ap (λ p. some (flags, p)) (omega arith);
    stub = made.stub;
    stored = made.stored;
    file_address = rw (made.state, page) (file_address_lem (k + 1));
    log_address = rw (made.state, page) (log_address_lem (k + 1));
    addresses = rw (made.state, page) (addresses_lem (k + 1));
    partial = rw made.state (Chain-IsStored made.stored b.lists.partial_head ks apart rest);
    log_entry = rw made.state (ground (arith, addresses.2.0));
    file_entry = rw made.state (ground arith);
    opens = rw made.files (ground arith);
    main_extent_log = rw made.files (ground arith);
    address = rw made.files (ground arith);
  }

  logs_lem :
      (b : FreeBlock)
      → (add_file (log_for_file b) f).memory.logs memory.next
        ≡ add_link (new_log (memory.logs memory.next) f l mode b)
  unfolding add_file
  logs_lem b = rw (eq→== memory.next memory.next refl)

  log_lem : (b : FreeBlock) → (add_file (log_for_file b) f).log ≡ memory.next
  unfolding add_file
  log_lem b = refl

  nand_lem : (b : FreeBlock) → (add_file (log_for_file b) f).nand ≡ b.nand
  unfolding add_file
  nand_lem b = refl

  next_page_lem :
      (b : FreeBlock)
      → (add_link (new_log (memory.logs memory.next) f l mode b)).next_page ≡ b.free_page
  unfolding add_link new_log
  next_page_lem b = refl

  written_lem :
      (b : FreeBlock)
      → b.free_page ≡ k + 1
      → b.nand ≡ n
      → (c : Created) × (write_header working (add_file (log_for_file b) f) f flags fresh buf
          ≡ some c)
        × IsWritten n (add_file (log_for_file b) f) f l mode flags (k + 1) c
  written_lem b page same =
      write_header_lem n v (add_file (log_for_file b) f) f l mode flags (k + 1) fresh buf
        (omega (arith, chain.2)) (omega arith) counter (nand_lem b ∙ same)
        (rw (log_lem b, logs_lem b, next_page_lem b) page)
        (rw (log_lem b, logs_lem b)
          (new_log-IsPlaced n (memory.logs memory.next) f l mode (k + 1) b v page
            (omega (arith, chain.2)) (omega arith)))
        (rw (log_lem b, logs_lem b)
          (new_header (memory.logs memory.next) f l mode (k + 1) b page
            (omega (arith, chain.2, v.size, v.small))))
    where
      block : (k + 1) / 16 ≡ k / 16
      block = omega arith

      counter : next_page_at n ((k + 1) / 16) ≡ (k + 1) % 16
      counter = rw block (omega (arith, free))

  -- With two virtual addresses below 254 and a block of the partially used free list left, whose
  -- entry in the list is a page with an index below 13 in its block, the page after it being the
  -- next free page of the block and in no later entry, xmp_create succeeds, the calls of the host
  -- succeeding: the file and its log get the two addresses, both mapped to the page that follows
  -- the block's entry in the list; that page holds a header with the file's inode, and no other
  -- page changes; the rest of the addresses and of the list stay free; the tables hold the log
  -- and the file, which is open once and refers to the log.
  pub xmp_create-IsCreated :
      (c : Created) × (xmp_create working n state memory true errno mode flags fresh buf ≡ some c)
      × IsCreated n memory f l mode flags (k + 1) xs ks c
  unfolding xmp_create
  xmp_create-IsCreated = first (get_free_block_partial n v state.lists buf k ks chain)
    where
      written :
          (b : FreeBlock)
          → get_free_block working n state.lists buf true ≡ some b
          → b.free_page ≡ k + 1
          → Chain n b.lists.partial_head ks
          → (c : Created) × (write_header working (add_file (log_for_file b) f) f flags fresh buf
              ≡ some c)
            × IsWritten n (add_file (log_for_file b) f) f l mode flags (k + 1) c
          → (c : Created) × (xmp_create working n state memory true errno mode flags fresh buf
              ≡ some c)
            × IsCreated n memory f l mode flags (k + 1) xs ks c
      written b run page rest (c, ran, made) = (
        c,
        rw (file_id_lem, get_log_for_file_lem b run, lt→ltb f 254 f_small, ran),
        IsWritten-IsCreated b c page rest made,
      )

      first :
          (b : FreeBlock) × (get_free_block working n state.lists buf true ≡ some b)
            × (b.free_page ≡ k + 1)
            × (b.erases ≡ state.lists.partial_head_erases)
            × (b.nand ≡ n)
            × Chain n b.lists.partial_head ks
            × (b.lists.complete_head ≡ state.lists.complete_head)
            × (b.lists.complete_tail ≡ state.lists.complete_tail)
          → (c : Created) × (xmp_create working n state memory true errno mode flags fresh buf
              ≡ some c)
            × IsCreated n memory f l mode flags (k + 1) xs ks c
      first (b, run, page, erases, same, rest, head, tail) =
          written b run page rest (written_lem b page same)
