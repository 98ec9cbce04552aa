-- ===== src/Tests/Images.antt =====
-- Heatmap at small images.
use xmrig_nonces_heatmap.Prelude.{
  ℕ, ◌+◌, ◌-◌, ◌*◌, ◌/◌, ◌%◌, ◌^◌, ◌≤◌, ◌<◌, ◌≡◌, ◌↔◌, inl, refl, negsuc, true, ◌&&◌, Bytes, codes,
  List, [], ◌∷◌, Option, none, some, arith, length, All, any, leb,
}
use xmrig_nonces_heatmap.String
use xmrig_nonces_heatmap.String.{String}
use xmrig_nonces_heatmap.Job.{Job, default_job}
use xmrig_nonces_heatmap.Env
use xmrig_nonces_heatmap.Float.{ceil_div}
use xmrig_nonces_heatmap.Float.Exact.{ceil_div_exact}
use xmrig_nonces_heatmap.Heatmap.{
  Heatmap, Drawing, ok, throw, heatmap, get_iterator, plot, plot_custom, max_uint32, prepare,
  invalid_end, gen_name,
}
use xmrig_nonces_heatmap.Heatmap.Points.{plot-in_image, plot_custom-crash}
use xmrig_nonces_heatmap.Heatmap.Prepare.{IsDrawable, prepared, blocks, prepare_iff, first, behind}
use xmrig_nonces_heatmap.Heatmap.Render.{render-image, IsDrawable-render}
use xmrig_nonces_heatmap.Heatmap.Errors.{prepare-Refused}

abbrev nonces : List ℕ
nonces = 5 ∷ 4000000000 ∷ 77 ∷ 1000000 ∷ 4294967295 ∷ []

plot-in_image_example :
    (length (plot 2 4096 0 nonces) ≡ 5)
    × All (λ p. p.0 < ceil_div 5 2) (plot 2 4096 0 nonces)
    × (All (λ p. p.1 < 4096) (plot 2 4096 0 nonces) ↔ All (λ v. max_uint32 % 4096 < v) nonces)
plot-in_image_example =
    plot-in_image 2 4096 nonces (omega arith) (omega arith) (omega arith) (omega arith)
      (omega arith) (omega arith)
      (omega arith, (omega arith, (omega arith, (omega arith, (omega arith, tt)))))

plot_custom-crash_example :
    (plot_custom 2 100 70 80 0 nonces ≡ none)
    ↔ (((80 + 2 ^ 32 - 70) % 2 ^ 32 / 100 ≡ 0) × (any (λ v. leb 70 v && leb v 80) nonces ≡ true))
plot_custom-crash_example = plot_custom-crash 2 100 70 80 0 nonces

-- the last four blocks but one, in columns of one
abbrev job : Job
job = record default_job {
  m_name = String.copy_c (some (codes "a.png"));
  m_start = negsuc 3;
  m_end = negsuc 0;
  m_height = 10;
  m_x = 1;
}

abbrev state : Heatmap
state = heatmap job nonces

drawable : IsDrawable state 1
unfolding get_iterator
drawable = record {
  has_height = omega arith;
  has_blocks = omega arith;
  uses = inl ((λ e. absurd (omega (arith, e))), refl);
  fits = omega (arith, ceil_div_exact 3 1 (omega arith) (omega arith) (omega arith) (omega arith));
}

abbrev no_variables : Bytes → Option Bytes
no_variables name = none

abbrev checked_state : Heatmap × List ℕ
checked_state = (prepared [] no_variables state 1, blocks state)

prepare_iff_example : (prepare [] no_variables state ≡ ok checked_state) ↔ (
    (x : ℕ) × IsDrawable state x
    × (checked_state ≡ (prepared [] no_variables state x, blocks state)))
prepare_iff_example = prepare_iff [] no_variables state checked_state

named : (prepared [] no_variables state 1).m_name.m_data ≡ some (codes "a.png")
unfolding gen_name Env.expand String.copy_c String.c_str get_iterator
named = refl

abbrev encode : Drawing → ℕ
encode d = 0

abbrev image : Drawing
image =
    (IsDrawable-render [] no_variables encode state 1 (codes "a.png") drawable named refl refl
      (λ d. refl)).0

abbrev rendered : Heatmap × Drawing
rendered = (prepared [] no_variables state 1, image)

render-image_example :
    (x : ℕ) × IsDrawable state x
    × (rendered.0 ≡ prepared [] no_variables state x)
    × (rendered.1.width ≡ rendered.0.m_width)
    × (rendered.1.height ≡ 10)
    × ((rendered.1.image_size ≡ rendered.1.width * rendered.1.height * 4)
        ↔ (rendered.1.width * rendered.1.height * 4 < 2 ^ 64))
render-image_example =
    render-image [] no_variables encode state rendered
      (IsDrawable-render [] no_variables encode state 1 (codes "a.png") drawable named refl refl
        (λ d. refl)).1

-- the end lies before the start
abbrev reversed : Heatmap
reversed = heatmap (record job { m_end = negsuc 3 }) nonces

reversed_throws : prepare [] no_variables reversed ≡ throw invalid_end
unfolding prepare get_iterator
reversed_throws = refl

prepare-Refused_example : behind reversed ≤ first reversed
prepare-Refused_example = prepare-Refused [] no_variables reversed invalid_end reversed_throws
