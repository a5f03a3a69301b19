-- ===== src/Paged/Empty.antt =====
-- The list that xmp_init of JuliaRehaanExample/fusexmp_fh.c makes.
use cycology.Base.{ℕ, ◌≡◌, refl, [], arith}
use cycology.Paged.{LogSysCon, File, xmp_init}
use cycology.Paged.Coherent.{Coherent}

pub xmp_init-Coherent :
    (memory : LogSysCon) (file : File) (path : ℕ)
    → memory.fresh ≡ 1
    → Coherent (xmp_init memory) file path
unfolding xmp_init
xmp_init-Coherent memory file path e = record {
  nodes = [];
  tail = 0;
  linked = record { distinct = tt; nonnull = tt; chained = (refl, refl) };
  started = omega (arith, e);
  below = λ x h. tt;
  cover = λ x h nz. absurd (omega (arith, e));
  count = omega (arith, e);
  own = λ x h nz. absurd (omega (arith, e));
  unique = λ x y h nz h' nz' p q. absurd (omega (arith, e));
  agrees = λ x h nz p. absurd (omega (arith, e));
}
