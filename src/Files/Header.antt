-- ===== src/Files/Header.antt =====
-- writeCurrLogHeader of helper.c: a log's header at the log's next page.
use cycology.Base.{
  ◌+◌, ◌*◌, ◌/◌, ◌%◌, ◌<◌, ◌≡◌, ◌≢◌, refl, ◌∙◌, false, some, arith, add32, minus_one, slt_nonneg,
  ne→==,
}
use cycology.Disk.{FullPage, FreeList, LogHeader}
use cycology.Nand.{Features, Nand, write_nand, block_offset, beyond}
use cycology.Nand.Layout.{IsFormatted}
use cycology.Nand.Pages.{next_page_at}
use cycology.Nand.Write.{working, Programmed, write_nand-Programmed}
use cycology.Log.{ActiveLog, Allocated, get_free_page}
use cycology.Log.Steps.{IsPlaced, Advanced, next_position}
use cycology.Log.Pages.{get_free_page-Advanced}
use cycology.Files.{header_page, write_curr_log_header}

eight_not_beyond : (f : Features) → IsFormatted f → 0 < f.num_blocks → beyond f 8 ≡ false
unfolding beyond
eight_not_beyond f v h = rw (slt_nonneg 8 f.mem_size (omega arith) v.small) (ground (arith, v.size))

-- Page -1 counts as the page of index -1 in block 0.
write_nand_lost :
    (n : Nand) (buf : FullPage)
    → IsFormatted n.features
    → 0 < n.features.num_blocks
    → next_page_at n 0 ≢ minus_one
    → write_nand working n buf minus_one false ≡ some (minus_one, n)
unfolding write_nand block_offset
write_nand_lost n buf v h free =
    rw (eight_not_beyond n.features v h, ne→== minus_one (next_page_at n 0) (omega arith))

module _ (n : Nand) (v : IsFormatted n.features) (lists : FreeList) (log : ActiveLog)
    (fresh buf : FullPage) (placed : IsPlaced n log) where
  -- the header after the page that holds it is counted
  abbrev counted : LogHeader
  counted = record log.log { active = add32 log.log.active 1 }

  -- At a page of its last block that is the next free one, other than the last two, the log writes
  -- its header there, with the page counted, and goes on to the next place; the block's counter of
  -- pages moves on, and no other page changes.
  pub write_curr_log_header-Programmed :
      log.next_page / 16 ≡ log.last
      → log.next_page % 16 < 14
      → log.next_page % 16 ≡ next_page_at n (log.next_page / 16)
      → fresh.page_type < 256
      → (a : Allocated) × (write_curr_log_header working n log fresh buf lists ≡ some a)
        × (a.log.next_page ≡ next_position log)
        × (a.log.log ≡ counted)
        × Programmed n
            (header_page a.buf.page counted)
            log.next_page
            (add32 (next_page_at n (log.next_page / 16)) 1)
            a.nand
  unfolding write_curr_log_header
  write_curr_log_header-Programmed block index free type =
      go (get_free_page-Advanced n v lists log fresh buf placed (omega arith))
    where
      go :
          (a : Allocated) × (get_free_page working n lists log fresh buf ≡ some a)
            × Advanced n lists log fresh (next_position log) a
          → (a : Allocated) × (write_curr_log_header working n log fresh buf lists ≡ some a)
            × (a.log.next_page ≡ next_position log)
            × (a.log.log ≡ counted)
            × Programmed n
                (header_page a.buf.page counted)
                log.next_page
                (add32 (next_page_at n (log.next_page / 16)) 1)
                a.nand
      go (a, run, made) =
          let (n', ran, programmed) =
            write_nand-Programmed n v (header_page a.buf.page counted) log.next_page
              (omega (arith, placed.last)) (rw made.page_type type) free in
          (
            record a { nand = n' },
            rw (run, made.nand, made.address, made.header, ran),
            made.next_page,
            made.header,
            programmed,
          )

  -- At page -1 the header is lost: the write is refused, unless the counter of block 0 is -1 too; the
  -- store stays as it is, and yet the page is counted as active and the log goes on to the last page
  -- but one of its block.
  write_curr_log_header_lost :
      log.next_page ≡ minus_one
      → next_page_at n 0 ≢ minus_one
      → (a : Allocated) × (write_curr_log_header working n log fresh buf lists ≡ some a)
        × (a.nand ≡ n)
        × (a.log.log ≡ counted)
        × (a.log.next_page ≡ log.last * 16 + 14)
  unfolding write_curr_log_header
  write_curr_log_header_lost lost free =
      go (get_free_page-Advanced n v lists log fresh buf placed (omega arith))
    where
      go :
          (a : Allocated) × (get_free_page working n lists log fresh buf ≡ some a)
            × Advanced n lists log fresh (next_position log) a
          → (a : Allocated) × (write_curr_log_header working n log fresh buf lists ≡ some a)
            × (a.nand ≡ n)
            × (a.log.log ≡ counted)
            × (a.log.next_page ≡ log.last * 16 + 14)
      go (a, run, made) = (
        record a { nand = n },
        rw (
          run,
          made.nand,
          made.address,
          lost,
          made.header,
          write_nand_lost n (header_page a.buf.page counted) v (omega (arith, placed.last)) free,
        ),
        refl,
        made.header,
        made.next_page ∙ ground (arith, lost),
      )
