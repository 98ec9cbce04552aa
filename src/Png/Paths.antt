-- ===== src/Png/Paths.antt =====
-- How `writepng_libpng` and `writepng_auto` end, on every path.
use xmrig_nonces_heatmap.Prelude.{
  ℕ, ◌*◌, ◌^◌, ◌+◌, ◌≤◌, ◌<◌, ◌≡◌, refl, ◌∙◌, subst, Bool, true, false, Bytes, [], arith, ◌&&◌, not,
  is_some, ◌==◌, eq_nat, length, All, if◌then◌else◌,
}
use xmrig_nonces_heatmap.Png.{LibPng, row_pointers, writepng_libpng, writepng_auto}
use xmrig_nonces_heatmap.Png.Rows.{image_of, row_pointers-image, row_pointers-inside}

-- every call of libpng and `fopen` succeed
abbrev pub succeeds : LibPng → Bool
succeeds png =
    png.create_write_struct && png.create_info_struct && png.fopen && png.set_header && png.malloc
    && png.write_png

-- libpng jumps out behind `fopen`, and behind the allocation of the row pointers
abbrev pub jumps_late : LibPng → Bool
jumps_late png =
    png.create_write_struct
    && png.create_info_struct
    && png.fopen
    && not (png.set_header && png.malloc && png.write_png)

abbrev pub jumps_last : LibPng → Bool
jumps_last png = jumps_late png && png.set_header && png.malloc

-- what `libpng-ends` says of a run
Ends : LibPng → ℕ → ℕ → Bytes → Type 0
Ends png width height data' =
    (is_some (writepng_libpng png width height).error ≡ not (succeeds png))
    × ((writepng_libpng png width height).held ≡ record {
      write_struct = false;
      info_struct = false;
      file = jumps_late png;
      row_pointers = jumps_last png;
    })
    × (image_of width data' (writepng_libpng png width height).rows
        ≡ (if succeeds png then data' else []))
    × All (λ offset. offset + width * 4 ≤ length data') (writepng_libpng png width height).rows

ends_lem :
    (write_struct info_struct file header malloc write : Bool) (width height : ℕ) (data' : Bytes)
    → length data' ≡ height * width * 4
    → length data' < 2 ^ 64
    → Ends
        (record {
          create_write_struct = write_struct;
          create_info_struct = info_struct;
          fopen = file;
          set_header = header;
          malloc = malloc;
          write_png = write;
        })
        width
        height
        data'
unfolding Ends writepng_libpng image_of
ends_lem false i f d m w width height data' h small = (refl, refl, refl, tt)
ends_lem true false f d m w width height data' h small = (refl, refl, refl, tt)
ends_lem true true false d m w width height data' h small = (refl, refl, refl, tt)
ends_lem true true true false m w width height data' h small = (refl, refl, refl, tt)
ends_lem true true true true false w width height data' h small = (refl, refl, refl, tt)
ends_lem true true true true true false width height data' h small = (refl, refl, refl, tt)
ends_lem true true true true true true width height data' h small =
    let all : 0 + height ≡ height = omega arith in
    (
      refl,
      refl,
      row_pointers-image width 0 height data' (rw all h) small
          ∙ (let none_before : 0 * width * 4 ≡ 0 = omega arith in rw none_before refl),
      rw h (
          subst
            (λ k. All (λ offset. offset + width * 4 ≤ k * width * 4) (row_pointers width 0 height))
            all (row_pointers-inside width 0 height (rw (all, ← h) small))),
    )

-- `writepng_libpng` throws exactly when a call of libpng or `fopen` fails. It frees both structs of
-- libpng on every path; the file stays open exactly when libpng jumps behind `fopen`, and the row
-- pointers are lost exactly when it jumps behind their allocation. Where it does not throw, each row
-- that libpng reads lies in the image, of 4 bytes a pixel and fewer than 2^64 bytes, and the rows are
-- the image from its first byte to its last.
pub libpng-ends :
    (png : LibPng) (width height : ℕ) (data' : Bytes)
    → length data' ≡ height * width * 4
    → length data' < 2 ^ 64
    → (is_some (writepng_libpng png width height).error ≡ not (succeeds png))
      × ((writepng_libpng png width height).held ≡ record {
        write_struct = false;
        info_struct = false;
        file = jumps_late png;
        row_pointers = jumps_last png;
      })
      × (image_of width data' (writepng_libpng png width height).rows
          ≡ (if succeeds png then data' else []))
      × All (λ offset. offset + width * 4 ≤ length data') (writepng_libpng png width height).rows
unfolding Ends
libpng-ends png width height data' h small =
    ends_lem png.create_write_struct png.create_info_struct png.fopen png.set_header png.malloc
      png.write_png width height data' h small

-- `writepng_auto` throws exactly when lodepng fails and libpng was not built in or failed before.
pub auto-throws :
    (feature : Bool) (png : LibPng) (error width height : ℕ)
    → is_some (writepng_auto feature png error width height)
      ≡ (not (feature && succeeds png) && not (error == 0))
unfolding writepng_auto writepng_libpng
auto-throws feature png error width height = ground arith
