-- ===== src/Png.antt =====
-- The writers of Heatmap.cpp as built with XMRIG_LIBPNG: libpng first, lodepng where that fails. The
-- two libraries are parameters. A row pointer is its offset in the image.
pub mod Rows
pub mod Paths
use xmrig_nonces_heatmap.Prelude.{
  ℕ, zero, suc, ◌+◌, ◌*◌, ◌%◌, ◌^◌, Bool, true, false, Bytes, List, [], ◌∷◌, Option, none, some,
  ◌==◌, eq_nat, if◌then◌else◌,
}

-- the exceptions
pub data Error : Type 0 where
  no_write_struct no_info_struct in_setjmp no_file : Error
  lodepng_error : ℕ → Error

-- What libpng and `fopen` do: whether the structs and the file are there, and whether the calls
-- behind `fopen` return. One that does not is a `longjmp`.
pub record LibPng : Type 0 where
  pub create_write_struct : Bool
  pub create_info_struct : Bool
  pub fopen : Bool
  pub set_header : Bool
  pub malloc : Bool
  pub write_png : Bool

-- what is not freed yet
pub record Held : Type 0 where
  pub write_struct : Bool
  pub info_struct : Bool
  pub file : Bool
  pub row_pointers : Bool

-- how the function ends: its exception, what it leaves behind, and the rows that libpng has written
pub record Written : Type 0 where
  pub error : Option Error
  pub held : Held
  pub rows : List ℕ

abbrev pub nothing_held : Held
nothing_held = record {
  write_struct = false;
  info_struct = false;
  file = false;
  row_pointers = false;
}

-- the loop over `row_pointers`, from row `y` on
unfoldable pub row_pointers : (width y n : ℕ) → List ℕ
row_pointers width y zero = []
row_pointers width y (suc n) = y * width * 4 % 2 ^ 64 ∷ row_pointers width (y + 1) n

-- the branch of `setjmp`: `png_destroy_write_struct`, and the exception
abbrev pub jump : Held → Written
jump held = record {
  error = some in_setjmp;
  held = record held { write_struct = false; info_struct = false };
  rows = [];
}

-- `writepng_libpng`
unfoldable pub writepng_libpng : LibPng → (width height : ℕ) → Written
unfolding row_pointers
writepng_libpng png width height =
    if png.create_write_struct
    then (let h = record nothing_held { write_struct = true } in
        if png.create_info_struct
        then (let h = record h { info_struct = true } in
            if png.fopen
            then (let h = record h { file = true } in
                if png.set_header
                then (if png.malloc
                    then (if png.write_png
                        then record {
                          error = none;
                          held = nothing_held;
                          rows = row_pointers width 0 height;
                        }
                        else jump (record h { row_pointers = true }))
                    else jump h)
                else jump h)
            else record {
              error = some no_file;
              held = record h { write_struct = false; info_struct = false };
              rows = [];
            })
        else record {
          error = some no_info_struct;
          held = record h { write_struct = false };
          rows = [];
        })
    else record { error = some no_write_struct; held = nothing_held; rows = [] }

-- `writepng_lodepng`, with the error that `lodepng::encode` gives
abbrev pub writepng_lodepng : ℕ → Option Error
writepng_lodepng error = if error == 0 then none else some (lodepng_error error)

-- `writepng_auto`; `feature` is XMRIG_LIBPNG
unfoldable pub writepng_auto : (feature : Bool) → LibPng → ℕ → (width height : ℕ) → Option Error
unfolding writepng_libpng
writepng_auto feature png error width height =
    if feature
    then elim (writepng_libpng png width height).error [
      | none ↦ none
      | some e ↦ writepng_lodepng error
    ]
    else writepng_lodepng error
