-- ===== src/Log/Compose.antt =====
-- What `print` leaves in the buffer. Every write starts where the one before ended, or behind the NUL
-- of a text that was cut.
use xmrig_nonces_heatmap.Prelude.{
  ℕ, ◌+◌, ◌-◌, ◌≤◌, ◌≡◌, refl, sym, Bool, true, false, Bytes, [], ◌∷◌, ◌++◌, Option, none, some,
  ◌==◌, not, ◌&&◌, eq_nat, if◌then◌else◌, ltb, length, take, length-append, length-take, All, arith,
  Bool-cases, inl, inr, append_assoc, append-nil, min, subst,
}
use xmrig_nonces_heatmap.Log.{
  Level, is_no_level, no_level, emerg, alert, crit, err, warning, notice, info, debug,
  max_buffer_size, clear, colors_map, Time, stamp, print_at, print_stamp, timestamp, color,
  put_color, endl, Composed, room, append_text, compose,
}
use xmrig_nonces_heatmap.Log.Stamp.{stamp_bound}
use xmrig_nonces_heatmap.Log.Writes.{Holds, Holds-start, store-Holds, print_at-Holds, print_at-cut}

-- the time and the colour in front of a text
abbrev pub time_text : Level → Time → Bytes
time_text level t = if is_no_level level then [] else stamp t

abbrev pub or_nothing : Option Bytes → Bytes
or_nothing none = []
or_nothing (some code) = code

abbrev pub code_text : Level → Bytes
code_text level = or_nothing (colors_map level)

-- the end of a line, with its NUL
abbrev pub line_end : Bytes
line_end = clear ++ 10 ∷ 0 ∷ []

-- what stands behind time and colour: a text that is too long is cut, and the end stands behind a NUL
abbrev pub body : ℕ → Bytes → Bytes
body limit text =
    if ltb (length text) limit then text ++ line_end else take (limit - 1) text ++ (0 ∷ line_end)

pub record IsComposed (offset size : ℕ) (line : Bytes) (r : Option Composed) : Type 0 where
  pub m_buf : Bytes
  pub result : r ≡ some (record { offset = offset; size = size; m_buf = m_buf })
  pub holds : Holds line m_buf

-- `endl` behind what `vsnprintf` wrote
ended :
    (offset size : ℕ) (p t text buf : Bytes)
    (first : (buf' : Bytes) × (print_at size (room offset) text buf ≡ some buf'))
    → Holds (p ++ t) first.0
    → size + min (length text) (room offset) ≡ length (p ++ t)
    → size + min (length text) (room offset) + 6 ≤ max_buffer_size
    → IsComposed offset
        (size + min (length text) (room offset) + 5)
        (p ++ (t ++ line_end))
        (append_text offset size text buf)
unfolding append_text endl
ended offset size p t text buf (buf', printed) h e fits =
    let s = store-Holds (size + min (length text) (room offset)) (p ++ t) line_end buf' h e fits in
    record {
      m_buf = s.buf';
      result = rw (printed, s.result, append_text, endl);
      holds = subst (λ l. Holds l s.buf') (append_assoc p t line_end) s.holds;
    }

append_text-IsComposed :
    (offset size : ℕ) (p text buf : Bytes)
    → Holds p buf
    → size ≡ length p
    → size ≤ offset + 7
    → offset ≤ 174
    → IsComposed offset
        (size + min (length text) (room offset) + 5)
        (p ++ body (room offset) text)
        (append_text offset size text buf)
append_text-IsComposed offset size p text buf h e coloured small =
    elim (Bool-cases (ltb (length text) (room offset))) [
      | inl short ↦
          let first =
            print_at-Holds size (room offset) p text buf h e (ground arith) (ground arith) in
          rw short (
            ended offset size p text text buf (first.buf', first.result)
              (Holds-start (p ++ text) (0 ∷ []) first.buf'
                (subst (λ l. Holds l first.buf') (sym (append_assoc p text (0 ∷ []))) first.holds))
              (ground (arith, length-append p text)) (ground arith))
      | inr long ↦
          let cut = take (room offset - 1) text ++ 0 ∷ [] in
          let first =
            print_at-cut size (room offset) p text buf h e (omega arith) (ground arith)
              (omega arith) in
          rw long (
            subst
              (λ l.
                IsComposed offset (size + min (length text) (room offset) + 5) (p ++ l)
                  (append_text offset size text buf))
              (append_assoc (take (room offset - 1) text) (0 ∷ []) line_end)
              (ended offset size p cut text buf (first.buf', first.result) first.holds
                (ground (
                  arith,
                  length-append p cut,
                  length-append (take (room offset - 1) text) (0 ∷ []),
                  length-take (room offset - 1) text,
                ))
                (omega arith)))
    ]

has_no_nul : Bytes → Bool
has_no_nul [] = true
has_no_nul (b ∷ s) = not (b == 0) && has_no_nul s

has_no_nul-All : (s : Bytes) → has_no_nul s ≡ true → All (λ b. (b == 0) ≡ false) s
unfolding has_no_nul
has_no_nul-All [] h = tt
has_no_nul-All (b ∷ s) h = (ground arith, has_no_nul-All s (ground arith))

pub colour_bound :
    (level : Level) → (length (code_text level) ≤ 7) × All (λ b. (b == 0) ≡ false) (code_text level)
unfolding has_no_nul
colour_bound no_level = (omega arith, tt)
colour_bound emerg = (omega arith, has_no_nul-All (code_text emerg) refl)
colour_bound alert = (omega arith, has_no_nul-All (code_text alert) refl)
colour_bound crit = (omega arith, has_no_nul-All (code_text crit) refl)
colour_bound err = (omega arith, has_no_nul-All (code_text err) refl)
colour_bound warning = (omega arith, has_no_nul-All (code_text warning) refl)
colour_bound notice = (omega arith, has_no_nul-All (code_text notice) refl)
colour_bound info = (omega arith, tt)
colour_bound debug = (omega arith, has_no_nul-All (code_text debug) refl)

-- `timestamp` on a buffer that nothing is asked of but its length
record Timed (level : Level) (t : Time) (r : Option (ℕ × Bytes)) : Type 0 where
  buf' : Bytes
  result : r ≡ some (length (time_text level t), buf')
  holds : Holds (time_text level t) buf'

print_stamp-Timed :
    (t : Time) (buf : Bytes)
    → Holds [] buf
    → (buf' : Bytes) × (print_stamp t buf ≡ some (length (stamp t), buf')) × Holds (stamp t) buf'
unfolding print_stamp
print_stamp-Timed t buf h =
    let s =
      print_at-Holds 0 (max_buffer_size - 1) [] (stamp t) buf h refl (omega (arith, stamp_bound t))
        (omega (arith, stamp_bound t)) in
    (s.buf', rw (s.result, print_stamp), Holds-start (stamp t) (0 ∷ []) s.buf' s.holds)

timestamp-Timed :
    (level : Level) (t : Time) (buf : Bytes) → Holds [] buf → Timed level t (timestamp level t buf)
unfolding timestamp
timestamp-Timed level t buf h = elim (Bool-cases (is_no_level level)) [
  | inl e ↦ record { buf' = buf; result = rw e; holds = rw e h }
  | inr e ↦
      let (buf', printed, held) = print_stamp-Timed t buf h in
      record { buf' = buf'; result = rw (e, printed); holds = rw e held }
]

pub time_bound : (level : Level) (t : Time) → length (time_text level t) ≤ 174
time_bound level t = ground (arith, stamp_bound t)

put_color-Holds :
    (code : Option Bytes) (p buf : Bytes)
    → Holds p buf
    → length p ≤ 174
    → length (or_nothing code) ≤ 7
    → (buf' : Bytes) × (put_color code (length p) buf ≡ some (length (p ++ or_nothing code), buf'))
      × Holds (p ++ or_nothing code) buf'
unfolding put_color
put_color-Holds none p buf h small short = (buf, rw (append-nil p), rw (append-nil p) h)
put_color-Holds (some code) p buf h small short =
    let s = store-Holds (length p) p code buf h refl (omega arith) in
    (s.buf', rw (s.result, length-append p code, put_color), s.holds)

-- The whole of `print` up to `endl`: no write leaves the buffer, whatever the text is.
pub compose-IsComposed :
    (level : Level) (t : Time) (text buf : Bytes)
    → length buf ≡ max_buffer_size
    → IsComposed
        (length (time_text level t))
        (length (time_text level t ++ code_text level)
          + min (length text) (room (length (time_text level t)))
          + 5)
        ((time_text level t ++ code_text level) ++ body (room (length (time_text level t))) text)
        (compose level t text buf)
unfolding compose color
compose-IsComposed level t text buf whole =
    let timed = timestamp-Timed level t buf (record { rest = buf; split = refl; whole = whole }) in
    let (buf', printed, held) =
      put_color-Holds (colors_map level) (time_text level t) timed.buf' timed.holds
        (time_bound level t) (colour_bound level).0 in
    let a =
      append_text-IsComposed (length (time_text level t))
        (length (time_text level t ++ code_text level)) (time_text level t ++ code_text level) text
        buf' held refl
        (omega (arith, length-append (time_text level t) (code_text level), (colour_bound level).0))
        (time_bound level t) in
    record {
      m_buf = a.m_buf;
      result = rw (timed.result, printed, a.result, compose, color);
      holds = a.holds;
    }
