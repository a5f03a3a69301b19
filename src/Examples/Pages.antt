-- ===== src/Examples/Pages.antt =====
-- The theorems on the first prototype at a file of 3000 bytes.
use cycology.Base.{ℕ, ◌-◌, ◌%◌, ◌≡◌, refl, some, none, true, [], ◌∷◌, arith, ltb, if◌then◌else◌}
use cycology.Paged.{LogSysCon, File, Host, Read, xmp_init, xmp_read}
use cycology.Paged.Coherent.{Working, Coherent, NotFirst}
use cycology.Paged.Empty.{xmp_init-Coherent}
use cycology.Paged.Plain.{IsPlain, IsRead, xmp_read-IsRead}
use cycology.Paged.Stuck.{xmp_read_stuck}
use cycology.Paged.Write.{Written, xmp_write}
use cycology.Paged.Store.{IsWritten, xmp_write-IsWritten}
use cycology.Paged.Back.{IsSame, xmp_read-xmp_write}
use cycology.Paged.Ends.{IsUnwritten, xmp_write_page_end}

abbrev some_file : File
some_file = record { st_size = 3000; bytes = λ j. j % 256 }

abbrev good_host : Host
good_host = record {
  stat_ok = true;
  errno = 5;
  bytes_read = λ file n at. if ltb (file.st_size - at) n then file.st_size - at else n;
  bytes_written = λ n at. n;
}

good_host-Working : Working good_host
good_host-Working = record { stat = refl; reads = λ file n at. refl; writes = λ n at. refl }

-- one node, for page 0 of the file with path 7
abbrev one_node : LogSysCon
one_node = record {
  head = 1;
  next = λ x. 0;
  prev = λ x. 0;
  path = λ x. 7;
  page_num = λ x. 0;
  page = λ x. x;
  buffers = λ x i. i % 256;
  fresh = 2;
}

one_node-Coherent : Coherent one_node some_file 7
one_node-Coherent = record {
  nodes = 1 ∷ [];
  tail = 1;
  linked = record {
    distinct = (tt, tt);
    nonnull = (λ e. omega arith, tt);
    chained = (refl, refl, (refl, refl));
  };
  started = λ e. omega arith;
  below = λ x h. ((λ e. omega arith), tt);
  cover = λ x h nz ne. ne.0 (omega arith);
  count = omega arith;
  own = λ x h nz. refl;
  unique = λ x y h nz h' nz' p q. omega arith;
  agrees = λ x h nz p i small inside. omega arith;
}

abbrev zeros : ℕ → ℕ
zeros i = 0

-- the memory before anything is allocated
abbrev one_fresh : LogSysCon
one_fresh = record one_node { fresh = 1 }

no_first : (page_num : ℕ) → NotFirst (xmp_init one_fresh) 7 page_num
unfolding xmp_init
no_first page_num nz = absurd (nz refl)

xmp_read-IsRead_example :
    (r : Read) × (xmp_read good_host 3000 some_file (xmp_init one_fresh) 7 zeros 2000 500 ≡ some r)
    × IsRead some_file 7 500 2000 r
unfolding xmp_init
xmp_read-IsRead_example =
    xmp_read-IsRead good_host some_file (xmp_init one_fresh) 7 zeros 2000 500 3000 good_host-Working
      (omega arith) (xmp_init-Coherent one_fresh some_file 7 refl) (no_first 0) (omega arith)
      (omega arith)

xmp_read_stuck_example :
    (r : Read) × (xmp_read good_host 9 some_file one_node 7 zeros 100 0 ≡ some r)
    × (r.res ≡ 100)
    × IsPlain some_file 0 100 r.buf
    × (xmp_read good_host 9000 some_file r.con 7 zeros 100 1023 ≡ none)
xmp_read_stuck_example =
    xmp_read_stuck good_host some_file one_node 7 zeros 100 0 8 good_host-Working (omega arith)
      (omega arith) (omega arith) (omega arith) one_node-Coherent (λ e. omega arith) refl refl 7
      zeros 100 1023 9000 (omega arith) (omega arith) (λ p e. omega arith)

xmp_write-IsWritten_example :
    (w : Written) × (xmp_write good_host 3000 some_file (xmp_init one_fresh) 7 zeros 2000 500
      ≡ some w)
    × IsWritten some_file 7 zeros 500 2000 w
unfolding xmp_init
xmp_write-IsWritten_example =
    xmp_write-IsWritten good_host some_file 7 zeros 2000 500 3000 good_host-Working (omega arith)
      (omega arith) (omega arith) (omega arith) (xmp_init one_fresh)
      (xmp_init-Coherent one_fresh some_file 7 refl) (no_first 0) (omega arith)

xmp_write_page_end_example :
    (w : Written) × (xmp_write good_host 9 some_file (xmp_init one_fresh) 7 zeros 1023 1023
      ≡ some w)
    × IsUnwritten some_file w
unfolding xmp_init
xmp_write_page_end_example =
    xmp_write_page_end good_host some_file 7 zeros 1 9 good_host-Working (omega arith) (omega arith)
      (omega arith) (xmp_init one_fresh) (xmp_init-Coherent one_fresh some_file 7 refl) (no_first 1)
      (omega arith)

xmp_read-xmp_write_example :
    (w : Written) × (r : Read) × (xmp_write good_host 5000 some_file
        (xmp_init one_fresh)
        7
        (λ i. i % 7)
        2000
        500
      ≡ some w)
    × (xmp_read good_host 5000 w.file w.con 7 zeros 2000 500 ≡ some r)
    × (w.res ≡ 2000)
    × (r.res ≡ 2000)
    × IsSame 2000 (λ i. i % 7) r.buf
unfolding xmp_init
xmp_read-xmp_write_example =
    xmp_read-xmp_write good_host some_file 7 (λ i. i % 7) zeros 2000 500 5000 good_host-Working
      (omega arith) (omega arith) (omega arith) (omega arith) (omega arith) (xmp_init one_fresh)
      (xmp_init-Coherent one_fresh some_file 7 refl) (no_first 0) (omega arith)
