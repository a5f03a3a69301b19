-- ===== src/Disk/Images.antt =====
-- A struct as the words that it fills, and read back from them: what `memcpy` and the casts of
-- page contents in makefs.c, helper.c and passthroughBlocked_fh.c do. Numbers are 4 bytes wide, but
-- `erases`, `i_size` and the times 8 (the low word first), `logType` 2 and `pageType` 1. Padding is
-- written as 0 and never read.
use cycology.Base.{
  ℕ, ◌+◌, ◌-◌, ◌*◌, ◌/◌, ◌%◌, List, [], ◌∷◌, ltb, leb, ◌==◌, ◌&&◌, if◌then◌else◌, word_mod,
}
use cycology.Disk.{contents_words, FullPage, SuperPage, AddrMap, Inode, LogHeader}

-- memory from some address on, in words
abbrev pub Image : Type 0
Image = ℕ → ℕ

-- the image `w`, its words from `at` on replaced by the `n` words of `v`
abbrev pub paste : Image → ℕ → ℕ → Image → Image
paste w at n v i = if leb at i && ltb i (at + n) then v (i - at) else w i

-- the image `w`, its first words replaced by those of the list
abbrev pub words_over : List ℕ → Image → Image
words_over [] w i = w i
words_over (x ∷ xs) w i = if i == 0 then x else words_over xs (λ j. w (1 + j)) (i - 1)

abbrev pub shift : ℕ → Image → Image
shift n w i = w (n + i)

abbrev lo : ℕ → ℕ
lo n = n % word_mod

abbrev pub hi : ℕ → ℕ
hi n = n / word_mod

abbrev wide : ℕ → ℕ → ℕ
wide l h = l + h * word_mod

unfoldable pub page_image : FullPage → Image
page_image p i =
    if ltb i contents_words
    then p.contents i
    else words_over
        (p.erase_count ∷ p.next_log_block ∷ p.next_block_erases ∷ p.meta_inode ∷ p.meta_offset
          ∷ p.page_type ∷ [])
        (λ _. 0) (i - contents_words)

unfoldable pub page_of : Image → FullPage
page_of w = record {
  contents = w;
  erase_count = w 256;
  next_log_block = w 257;
  next_block_erases = w 258;
  meta_inode = w 259;
  meta_offset = w 260;
  page_type = w 261 % 256;
}

-- The struct is written over the beginning of `w`.
unfoldable pub super_image : SuperPage → Image → Image
super_image s = words_over (
    s.free_lists.partial_head ∷ s.free_lists.partial_head_erases ∷ s.free_lists.partial_tail
    ∷ s.free_lists.complete_head ∷ s.free_lists.complete_head_erases ∷ s.free_lists.complete_tail
    ∷ s.latest_journal ∷ s.latest_vaddr_map ∷ s.prev_vaddr_map ∷ s.prev_journal ∷ [])

unfoldable pub super_of : Image → SuperPage
super_of w = record {
  free_lists = record {
    partial_head = w 0;
    partial_head_erases = w 1;
    partial_tail = w 2;
    complete_head = w 3;
    complete_head_erases = w 4;
    complete_tail = w 5;
  };
  latest_journal = w 6;
  latest_vaddr_map = w 7;
  prev_vaddr_map = w 8;
  prev_journal = w 9;
}

-- The flexible array `map` follows the two counts; `size` of its entries are copied.
unfoldable pub map_image : AddrMap → Image → Image
map_image m w i =
    if i == 0
    then m.size
    else if i == 1
    then m.free_ptr
    else if ltb i (2 + m.size)
    then m.map (i - 2)
    else w i

unfoldable pub map_of : Image → AddrMap
map_of w = record { size = w 0; free_ptr = w 1; map = shift 2 w }

abbrev inode_words : Inode → List ℕ
inode_words d =
    d.i_mode
    ∷ d.i_uid
    ∷ d.i_gid
    ∷ d.i_flags
    ∷ d.i_file_no
    ∷ d.i_log_no
    ∷ d.i_links_count
    ∷ 0
    ∷ lo d.i_atime.sec
    ∷ hi d.i_atime.sec
    ∷ lo d.i_atime.nsec
    ∷ hi d.i_atime.nsec
    ∷ lo d.i_mtime.sec
    ∷ hi d.i_mtime.sec
    ∷ lo d.i_mtime.nsec
    ∷ hi d.i_mtime.nsec
    ∷ lo d.i_ctime.sec
    ∷ hi d.i_ctime.sec
    ∷ lo d.i_ctime.nsec
    ∷ hi d.i_ctime.nsec
    ∷ d.i_pages
    ∷ 0
    ∷ lo d.i_size
    ∷ hi d.i_size
    ∷ d.indirect
    ∷ d.double_ind
    ∷ d.triple_ind
    ∷ []

unfoldable pub inode_image : Inode → Image → Image
inode_image d w = paste (words_over (inode_words d) w) 27 16 d.direct_page

unfoldable pub inode_of : Image → Inode
inode_of w = record {
  i_mode = w 0;
  i_uid = w 1;
  i_gid = w 2;
  i_flags = w 3;
  i_file_no = w 4;
  i_log_no = w 5;
  i_links_count = w 6;
  i_atime = record { sec = wide (w 8) (w 9); nsec = wide (w 10) (w 11) };
  i_mtime = record { sec = wide (w 12) (w 13); nsec = wide (w 14) (w 15) };
  i_ctime = record { sec = wide (w 16) (w 17); nsec = wide (w 18) (w 19) };
  i_pages = w 20;
  i_size = wide (w 22) (w 23);
  indirect = w 24;
  double_ind = w 25;
  triple_ind = w 26;
  direct_page = shift 27 w;
}

abbrev header_words : LogHeader → List ℕ
header_words h =
    lo h.erases
    ∷ hi h.erases
    ∷ h.log_id
    ∷ h.prev
    ∷ h.prev_erases
    ∷ h.first
    ∷ h.first_erases
    ∷ h.active
    ∷ h.total
    ∷ h.log_type
    ∷ h.file_count
    ∷ []

-- The bytes of the union behind `fInode` are of no use to the member `file`, and are left alone.
unfoldable pub header_image : LogHeader → Image → Image
unfolding inode_image
header_image h w =
    paste (paste (words_over (header_words h) w) 11 8 h.file_id) 20 44
      (inode_image h.f_inode (shift 20 w))

unfoldable pub header_of : Image → LogHeader
unfolding inode_of
header_of w = record {
  erases = wide (w 0) (w 1);
  log_id = w 2;
  prev = w 3;
  prev_erases = w 4;
  first = w 5;
  first_erases = w 6;
  active = w 7;
  total = w 8;
  log_type = w 9 % 65536;
  file_count = w 10;
  file_id = shift 11 w;
  f_inode = inode_of (shift 20 w);
}
