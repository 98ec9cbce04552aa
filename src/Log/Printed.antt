-- ===== src/Log/Printed.antt =====
-- A message whose colours are well formed, as the backends get it.
use xmrig_nonces_heatmap.Prelude.{
  ℕ, zero, suc, ◌+◌, ◌-◌, ◌<◌, ◌≡◌, refl, sym, ap, Bool, true, false, ◌&&◌, Bytes, codes, List, [],
  ◌∷◌, ◌++◌, some, ◌==◌, eq_nat, if◌then◌else◌, ltb, length, length-append, arith, Bool-cases, inl,
  inr, append_assoc, min,
}
use xmrig_nonces_heatmap.String
use xmrig_nonces_heatmap.Log.{
  Level, is_no_level, no_level, emerg, alert, crit, err, warning, notice, info, debug,
  max_buffer_size, clear, Time, style, room, strip_all, print, emit, emit_all, Output, backend,
  stdout,
}
use xmrig_nonces_heatmap.Log.Strip.{Segment, plain, colour, written, visible, strip-segments}
use xmrig_nonces_heatmap.Log.Stamp.{
  plain_stamp, stamp_segments, written-stamp, visible-stamp, length-stamp,
}
use xmrig_nonces_heatmap.Log.Compose.{time_text, code_text, time_bound, colour_bound}
use xmrig_nonces_heatmap.Log.Lines.{IsCString, shown, compose-shown}

written-append : (xs ys : List Segment) → written (xs ++ ys) ≡ written xs ++ written ys
unfolding written
written-append [] ys = refl
written-append (plain text _ ∷ xs) ys =
    rw (written-append xs ys) (sym (append_assoc text (written xs) (written ys)))
written-append (colour code _ ∷ xs) ys =
    rw (written-append xs ys) (sym (append_assoc (style code) (written xs) (written ys)))

visible-append : (xs ys : List Segment) → visible (xs ++ ys) ≡ visible xs ++ visible ys
unfolding visible
visible-append [] ys = refl
visible-append (plain text _ ∷ xs) ys =
    rw (visible-append xs ys) (sym (append_assoc text (visible xs) (visible ys)))
visible-append (colour code _ ∷ xs) ys = visible-append xs ys

-- the colour of a level
level_segments : Level → List Segment
level_segments no_level = []
level_segments emerg = colour (codes "1;31") (refl, (refl, (refl, (refl, tt)))) ∷ []
level_segments alert = colour (codes "1;31") (refl, (refl, (refl, (refl, tt)))) ∷ []
level_segments crit = colour (codes "1;31") (refl, (refl, (refl, (refl, tt)))) ∷ []
level_segments err = colour (codes "0;31") (refl, (refl, (refl, (refl, tt)))) ∷ []
level_segments warning = colour (codes "0;33") (refl, (refl, (refl, (refl, tt)))) ∷ []
level_segments notice = colour (codes "1;37") (refl, (refl, (refl, (refl, tt)))) ∷ []
level_segments info = []
level_segments debug = colour (codes "0;90") (refl, (refl, (refl, (refl, tt)))) ∷ []

level_lem :
    (level : Level)
    → (written (level_segments level) ≡ code_text level) × (visible (level_segments level) ≡ [])
unfolding written visible level_segments
level_lem no_level = (refl, refl)
level_lem emerg = (refl, refl)
level_lem alert = (refl, refl)
level_lem crit = (refl, refl)
level_lem err = (refl, refl)
level_lem warning = (refl, refl)
level_lem notice = (refl, refl)
level_lem info = (refl, refl)
level_lem debug = (refl, refl)

-- the time without its colours
abbrev pub plain_time : Level → Time → Bytes
plain_time level t = if is_no_level level then [] else plain_stamp t

time_segments : Level → Time → List Segment
time_segments level t = if is_no_level level then [] else stamp_segments t

time_lem :
    (level : Level) (t : Time)
    → (written (time_segments level t) ≡ time_text level t)
      × (visible (time_segments level t) ≡ plain_time level t)
unfolding written visible time_segments
time_lem level t = elim (Bool-cases (is_no_level level)) [
  | inl e ↦ rw e (refl, refl)
  | inr e ↦ rw e (written-stamp t, visible-stamp t)
]

-- the line with its colours, and the line without
pub coloured_line : Level → Time → List Segment → Bytes
coloured_line level t segments =
    (time_text level t ++ code_text level) ++ (written segments ++ (clear ++ 10 ∷ []))

pub plain_line : Level → Time → List Segment → Bytes
plain_line level t segments = plain_time level t ++ (visible segments ++ 10 ∷ [])

-- what each backend is called with: `offset` is where the message begins, also without colours
unfoldable pub calls : ℕ → Level → Time → List Segment → List Output
calls zero level t segments = []
calls (suc n) level t segments =
    backend level (coloured_line level t segments) (length (time_text level t))
      (length (coloured_line level t segments)) true
    ∷ backend level (plain_line level t segments) (length (plain_time level t))
        (length (plain_line level t segments)) false
    ∷ calls n level t segments

unfoldable pub outputs : ℕ → Level → Time → List Segment → List Output
outputs zero level t segments = stdout (plain_line level t segments) ∷ []
outputs (suc n) level t segments = calls (suc n) level t segments

line_segments : Level → Time → List Segment → List Segment
line_segments level t segments =
    time_segments level t
    ++ (level_segments level
        ++ (segments ++ (colour (codes "0") (refl, tt) ∷ plain (10 ∷ []) (refl, tt) ∷ [])))

written-line :
    (level : Level) (t : Time) (segments : List Segment)
    → written (line_segments level t segments) ≡ coloured_line level t segments
unfolding line_segments coloured_line
written-line level t segments =
    simp (written-append, (time_lem level t).0, (level_lem level).0, append_assoc)
      (unfold written in refl)

visible-line :
    (level : Level) (t : Time) (segments : List Segment)
    → visible (line_segments level t segments) ≡ plain_line level t segments
unfolding line_segments plain_line
visible-line level t segments =
    simp (visible-append, (time_lem level t).1, (level_lem level).1, append_assoc)
      (unfold visible plain_line in refl)

-- a line fits its buffer
coloured_bound :
    (level : Level) (t : Time) (segments : List Segment)
    → length (written segments) < room (length (time_text level t))
    → length (coloured_line level t segments) < max_buffer_size
unfolding coloured_line
coloured_bound level t segments fits = omega (
  arith,
  length-append (time_text level t ++ code_text level) (written segments ++ (clear ++ 10 ∷ [])),
  length-append (time_text level t) (code_text level),
  length-append (written segments) (clear ++ 10 ∷ []),
  time_bound level t,
  (colour_bound level).0,
)

-- the loop over the colours gives the line without them
strip-line :
    (level : Level) (t : Time) (segments : List Segment)
    → length (written segments) < room (length (time_text level t))
    → strip_all (coloured_line level t segments) ≡ some (plain_line level t segments)
unfolding strip_all
strip-line level t segments fits =
    let w = written-line level t segments in
    let small = coloured_bound level t segments fits in
    rw (← w, ← visible-line level t segments)
      (strip-segments (line_segments level t segments) []
        (suc (length (written (line_segments level t segments)))) tt (omega (arith, ap length w))
        (omega arith))

offset_lem :
    (level : Level) (t : Time)
    → (if length (time_text level t) == 0 then 0 else length (time_text level t) - 11)
      ≡ length (plain_time level t)
offset_lem level t = elim (Bool-cases (is_no_level level)) [
  | inl e ↦ rw e refl
  | inr e ↦ rw e (ground (arith, length-stamp t))
]

emit_all-calls :
    (n : ℕ) (level : Level) (t : Time) (segments : List Segment) (m_buf : Bytes)
    → String.c_str m_buf ≡ coloured_line level t segments
    → emit_all n level m_buf
        (length (time_text level t))
        (length (coloured_line level t segments))
        (plain_line level t segments)
      ≡ calls n level t segments
unfolding emit_all calls
emit_all-calls zero level t segments m_buf seen = refl
emit_all-calls (suc n) level t segments m_buf seen =
    rw (seen, offset_lem level t, emit_all-calls n level t segments m_buf seen)

emit-outputs :
    (n : ℕ) (level : Level) (t : Time) (segments : List Segment) (m_buf : Bytes)
    → String.c_str m_buf ≡ coloured_line level t segments
    → emit n level m_buf
        (length (time_text level t))
        (length (coloured_line level t segments))
        (plain_line level t segments)
      ≡ outputs n level t segments
unfolding emit outputs
emit-outputs zero level t segments m_buf seen = refl
emit-outputs (suc n) level t segments m_buf seen =
    emit_all-calls (suc n) level t segments m_buf seen

-- the place of the line's end, as `print` counts it
size_lem :
    (level : Level) (t : Time) (segments : List Segment)
    → length (written segments) < room (length (time_text level t))
    → length (time_text level t ++ code_text level)
        + min (length (written segments)) (room (length (time_text level t)))
        + 5
      ≡ length (coloured_line level t segments)
unfolding coloured_line
size_lem level t segments fits = omega (
  arith,
  length-append (time_text level t ++ code_text level) (written segments ++ (clear ++ 10 ∷ [])),
  length-append (written segments) (clear ++ 10 ∷ []),
)

-- what the buffer shows of a text that fits
seen_lem :
    (level : Level) (t : Time) (segments : List Segment) (m_buf : Bytes)
    → length (written segments) < room (length (time_text level t))
    → String.c_str m_buf
      ≡ (time_text level t ++ code_text level)
        ++ shown (room (length (time_text level t))) (written segments)
    → String.c_str m_buf ≡ coloured_line level t segments
unfolding coloured_line
seen_lem level t segments m_buf fits seen =
    let short : ltb (length (written segments)) (room (length (time_text level t))) ≡ true =
      ground arith in
    rw short at seen

-- A message that fits into the buffer with its time, its colours well formed, is printed: the loop
-- over the colours ends, and every backend gets the line with its colours and the line without them,
-- each with its size and the place where the message begins. Without a backend the second one goes
-- to stdout, unless the program runs in the background.
pub print-outputs :
    (is_background : Bool) (backends : ℕ) (level : Level) (t : Time) (segments : List Segment)
    (buf : Bytes)
    → length buf ≡ max_buffer_size
    → IsCString (written segments)
    → length (written segments) < room (length (time_text level t))
    → (is_background && (backends == 0)) ≡ false
    → print is_background backends level t (some (written segments)) buf
      ≡ some (outputs backends level t segments)
unfolding print
print-outputs is_background backends level t segments buf whole text fits heard =
    let (m_buf, composed, seen) = compose-shown level t (written segments) buf whole text in
    let line = seen_lem level t segments m_buf fits seen in
    rw (
      heard,
      composed,
      line,
      strip-line level t segments fits,
      size_lem level t segments fits,
      emit-outputs backends level t segments m_buf line,
      print,
    )
