-- ===== src/Tests/Pngs.antt =====
-- An image of 2 by 2 pixels.
use xmrig_nonces_heatmap.Prelude.{
  ℕ, ◌*◌, ◌+◌, ◌≤◌, ◌≡◌, refl, true, false, Bytes, [], ◌∷◌, some, arith, length, All, not, ◌&&◌,
  ◌==◌, eq_nat, is_some, if◌then◌else◌,
}
use xmrig_nonces_heatmap.Png.{LibPng, writepng_libpng, writepng_auto, row_pointers, lodepng_error}
use xmrig_nonces_heatmap.Png.Rows.{image_of}
use xmrig_nonces_heatmap.Png.Paths.{succeeds, jumps_late, jumps_last, libpng-ends, auto-throws}

abbrev works : LibPng
works = record {
  create_write_struct = true;
  create_info_struct = true;
  fopen = true;
  set_header = true;
  malloc = true;
  write_png = true;
}

-- the disk is full
abbrev full : LibPng
full = record works { write_png = false }

abbrev image : Bytes
image = 0 ∷ 1 ∷ 2 ∷ 3 ∷ 4 ∷ 5 ∷ 6 ∷ 7 ∷ 8 ∷ 9 ∷ 10 ∷ 11 ∷ 12 ∷ 13 ∷ 14 ∷ 15 ∷ []

libpng-ends_example :
    (is_some (writepng_libpng works 2 2).error ≡ not (succeeds works))
    × ((writepng_libpng works 2 2).held ≡ record {
      write_struct = false;
      info_struct = false;
      file = jumps_late works;
      row_pointers = jumps_last works;
    })
    × (image_of 2 image (writepng_libpng works 2 2).rows ≡ (if succeeds works then image else []))
    × All (λ offset. offset + 2 * 4 ≤ length image) (writepng_libpng works 2 2).rows
libpng-ends_example = libpng-ends works 2 2 image refl (omega arith)

two_rows : (writepng_libpng works 2 2).rows ≡ 0 ∷ 8 ∷ []
unfolding writepng_libpng row_pointers
two_rows = refl

-- the file stays open
full_held : (writepng_libpng full 2 2).held.file ≡ true
unfolding writepng_libpng
full_held = refl

-- lodepng's error for a file that cannot be opened
abbrev cannot_open : ℕ
cannot_open = 79

auto-throws_example :
    is_some (writepng_auto true full cannot_open 2 2)
    ≡ (not (true && succeeds full) && not (cannot_open == 0))
auto-throws_example = auto-throws true full cannot_open 2 2

auto_test : writepng_auto true full 79 2 2 ≡ some (lodepng_error 79)
unfolding writepng_auto writepng_libpng
auto_test = refl
