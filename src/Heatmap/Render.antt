-- ===== src/Heatmap/Render.antt =====
-- Heatmap.render as a whole: its image, and when it cannot crash.
use xmrig_nonces_heatmap.Prelude.{
  ℕ, ◌-◌, ◌*◌, ◌%◌, ◌^◌, ◌≤◌, ◌<◌, ◌≡◌, ◌↔◌, refl, sym, ap, ◌∙◌, subst, arith, false, List, Option,
  some, eq_nat, length, drop, length-take, length-drop, Bytes, ltb,
}
use xmrig_nonces_heatmap.Dict.{Dict}
use xmrig_nonces_heatmap.String
use xmrig_nonces_heatmap.String.{String}
use xmrig_nonces_heatmap.Float.{ceil_div}
use xmrig_nonces_heatmap.Heatmap.{
  ok, ◌>>=◌, max_uint32, Heatmap, Drawing, prepare, gen_name, nonces_heatmap, render, draw, plot,
  drawing, encoder,
}
use xmrig_nonces_heatmap.Heatmap.Prepare.{
  bind-ok, reject-ok, ok_unique, first, behind, IsDrawable, prepared, blocks, prepare-IsDrawable,
  IsDrawable-prepare, get_iterator-le,
}

length-blocks : (h : Heatmap) → first h < behind h → length (blocks h) ≡ behind h - first h
length-blocks h lt =
    let le = get_iterator-le false (length h.m_nonces) h.m_job.m_end in
    omega (
      arith,
      le,
      length-take (behind h - first h) (drop (first h) h.m_nonces),
      length-drop (first h) h.m_nonces,
    )

-- what `nonces_heatmap` draws has the width and the height that it was called with
nonces_heatmap-size :
    (nonces : List ℕ) (name : String) (x height radius lowest highest : ℕ) (d : Drawing)
    → nonces_heatmap nonces name x height radius lowest highest ≡ ok d
    → (d.width ≡ ceil_div (length nonces) x)
      × (d.height ≡ height)
      × (d.image_size ≡ ceil_div (length nonces) x * height * 4 % 2 ^ 32)
unfolding nonces_heatmap
nonces_heatmap-size nonces name x height radius lowest highest d e = grind arith

-- what was drawn and encoded
draw-ok :
    (encode : Drawing → ℕ) (h : Heatmap) (nonces : List ℕ) (r : Heatmap × Drawing)
    → draw encode h nonces ≡ ok r
    → (nonces_heatmap nonces h.m_name h.m_x h.m_job.m_height h.m_job.m_radius h.m_job.m_min_nonce
          h.m_job.m_max_nonce
        ≡ ok r.1)
      × (r.0 ≡ h)
      × (encode r.1 ≡ 0)
unfolding draw
draw-ok encode h nonces r e =
    let (d, drawn, k1) =
      bind-ok
        (nonces_heatmap nonces h.m_name h.m_x h.m_job.m_height h.m_job.m_radius h.m_job.m_min_nonce
          h.m_job.m_max_nonce)
        _ r e in
    let (encoded, k2) = reject-ok (ltb 0 (encode d)) (encoder (encode d)) _ r k1 in
    let same = ok_unique _ r k2 in
    subst
      (λ s.
        (nonces_heatmap nonces h.m_name h.m_x h.m_job.m_height h.m_job.m_radius h.m_job.m_min_nonce
            h.m_job.m_max_nonce
          ≡ ok s.1)
        × (s.0 ≡ h)
        × (encode s.1 ≡ 0))
      same (drawn, refl, ground (arith, encoded))

-- a size that is below 2^32 modulo 2^64 is kept by 32 bits exactly where it did not wrap
whole_size : (area : ℕ) → area % 2 ^ 64 ≤ max_uint32 → (area % 2 ^ 32 ≡ area) ↔ (area < 2 ^ 64)
whole_size area le = (λ e. omega (arith, le, e), λ lt. omega (arith, le, lt))

whole :
    (d : Drawing) (w h : ℕ)
    → d.width ≡ w
    → d.height ≡ h
    → d.image_size ≡ w * h * 4 % 2 ^ 32
    → w * h * 4 % 2 ^ 64 ≤ max_uint32
    → (d.image_size ≡ d.width * d.height * 4) ↔ (d.width * d.height * 4 < 2 ^ 64)
whole d w h ew eh es le =
    let area : d.width * d.height * 4 ≡ w * h * 4 = rw (ew, eh) in
    rw (area, es) (whole_size (w * h * 4) le)

-- without nonce limits, a named image is drawn with all points
nonces_heatmap-plot :
    (nonces : List ℕ) (name : String) (x height radius lowest highest : ℕ) (raw : Bytes)
    → name.m_data ≡ some raw
    → lowest ≡ 0
    → highest ≡ 0
    → nonces_heatmap nonces name x height radius lowest highest
      ≡ ok (
          drawing
            (String.c_str raw)
            (ceil_div (length nonces) x)
            height
            radius
            (plot x height 0 nonces))
unfolding nonces_heatmap
nonces_heatmap-plot nonces name x height radius lowest highest raw named low high =
    rw (named, low, high)

draw-plot :
    (encode : Drawing → ℕ) (h : Heatmap) (nonces : List ℕ) (raw : Bytes)
    → h.m_name.m_data ≡ some raw
    → h.m_job.m_min_nonce ≡ 0
    → h.m_job.m_max_nonce ≡ 0
    → ((d : Drawing) → encode d ≡ 0)
    → (d : Drawing) × (draw encode h nonces ≡ ok (h, d))
      × (d.points ≡ plot h.m_x h.m_job.m_height 0 nonces)
unfolding draw
draw-plot encode h nonces raw named lowest highest encodes =
    let d =
      drawing (String.c_str raw) (ceil_div (length nonces) h.m_x) h.m_job.m_height h.m_job.m_radius
        (plot h.m_x h.m_job.m_height 0 nonces) in
    (
      d,
      rw (
        nonces_heatmap-plot nonces h.m_name h.m_x h.m_job.m_height h.m_job.m_radius
            h.m_job.m_min_nonce h.m_job.m_max_nonce raw named lowest highest,
        encodes d,
      ),
      refl,
    )

module _ (builtin : Dict Bytes String) (getenv : Bytes → Option Bytes) (encode : Drawing → ℕ) where
  -- A render that succeeds had a drawable job. Its image has the saved width and the height of the
  -- job. Its buffer has the 4 bytes of every pixel exactly where these are fewer than 2^64 bytes: the
  -- check of the size, which is computed modulo 2^64, lets only larger images pass with a buffer that
  -- is too small.
  pub render-image :
      (h0 : Heatmap) (r : Heatmap × Drawing)
      → render builtin getenv encode h0 ≡ ok r
      → (x : ℕ) × IsDrawable h0 x
        × (r.0 ≡ prepared builtin getenv h0 x)
        × (r.1.width ≡ r.0.m_width)
        × (r.1.height ≡ h0.m_job.m_height)
        × ((r.1.image_size ≡ r.1.width * r.1.height * 4) ↔ (r.1.width * r.1.height * 4 < 2 ^ 64))
  unfolding render gen_name
  render-image h0 r e =
      let (p, checked, k) = bind-ok (prepare builtin getenv h0) _ r e in
      let (x, drawable, same) = prepare-IsDrawable builtin getenv h0 p checked in
      let k' = subst (λ q. draw encode q.0 q.1 ≡ ok r) same k in
      let (drawn, kept, encoded) = draw-ok encode (prepared builtin getenv h0 x) (blocks h0) r k' in
      let (width, height, size) = nonces_heatmap-size (blocks h0) _ _ _ _ _ _ r.1 drawn in
      let width' = width ∙ ap (λ n. ceil_div n x) (length-blocks h0 drawable.has_blocks) in
      let size' =
        size
        ∙ ap (λ n. ceil_div n x * h0.m_job.m_height * 4 % 2 ^ 32)
            (length-blocks h0 drawable.has_blocks) in
      (
        x,
        drawable,
        kept,
        width' ∙ sym (ap (λ h. h.m_width) kept),
        height,
        whole r.1 (ceil_div (behind h0 - first h0) x) h0.m_job.m_height width' height size'
            drawable.fits,
      )

  pub IsDrawable-render :
      (h : Heatmap) (x : ℕ) (raw : Bytes)
      → IsDrawable h x
      → (prepared builtin getenv h x).m_name.m_data ≡ some raw
      → h.m_job.m_min_nonce ≡ 0
      → h.m_job.m_max_nonce ≡ 0
      → ((d : Drawing) → encode d ≡ 0)
      → (d : Drawing) × (render builtin getenv encode h ≡ ok (prepared builtin getenv h x, d))
        × (d.points ≡ plot x h.m_job.m_height 0 (blocks h))
  unfolding render gen_name
  IsDrawable-render h x raw drawable named lowest highest encodes =
      let checked = IsDrawable-prepare builtin getenv h x drawable in
      let (d, drawn, points) =
        draw-plot encode (prepared builtin getenv h x) (blocks h) raw named lowest highest
          encodes in
      (d, ap (λ m. m >>= λ p. draw encode p.0 p.1) checked ∙ drawn, points)
