-- ===== src/Logger/Printed.antt =====
-- Who shows a line, and what is left of the log after `destroy`.
use xmrig_nonces_heatmap.Prelude.{
  ℕ, zero, suc, ◌+◌, ◌<◌, ◌≡◌, refl, sym, ap, ◌∙◌, Bool, true, false, ◌&&◌, Bytes, List, [], ◌∷◌,
  ◌++◌, Option, some, length, if◌then◌else◌, ◌==◌, eq_nat, arith, append-nil, Bool-cases, inl, inr,
}
use xmrig_nonces_heatmap.Log
use xmrig_nonces_heatmap.Log.{
  Level, Time, Output, backend, stdout, console_print, room, max_buffer_size,
}
use xmrig_nonces_heatmap.Log.Strip.{Segment, written}
use xmrig_nonces_heatmap.Log.Compose.{time_text}
use xmrig_nonces_heatmap.Log.Lines.{IsCString}
use xmrig_nonces_heatmap.Log.Printed.{
  coloured_line, plain_line, plain_time, calls, outputs, print-outputs,
}
use xmrig_nonces_heatmap.Logger.{ConsoleLog, Logger, terminals, shown, print, destroy}

-- a text so many times
unfoldable pub times : ℕ → Bytes → Bytes
times zero s = []
times (suc n) s = s ++ times n s

one_more : (n : ℕ) (s : Bytes) → times (1 + n) s ≡ s ++ times n s
unfolding times
one_more n s = let e : 1 + n ≡ suc n = omega arith in rw e refl

none_more : (n : ℕ) (s : Bytes) → times (0 + n) s ≡ times n s
none_more n s = let e : 0 + n ≡ n = omega arith in rw e refl

-- a backend shows one of its two lines, where it has a terminal
one_backend :
    (tty colors : Bool) (level : Level) (line txt : Bytes) (offset plain size len n : ℕ)
    → console_print tty colors (backend level line offset size true)
        ++ (console_print tty colors (backend level txt plain len false)
            ++ times n (if colors then line else txt))
      ≡ times ((if tty then 1 else 0) + n) (if colors then line else txt)
unfolding console_print
one_backend true true level line txt offset plain size len n = sym (one_more n line)
one_backend true false level line txt offset plain size len n = sym (one_more n txt)
one_backend false true level line txt offset plain size len n = sym (none_more n line)
one_backend false false level line txt offset plain size len n = sym (none_more n txt)

-- each terminal shows one of its two lines
shown-calls :
    (colors : Bool) (bs : List ConsoleLog) (level : Level) (t : Time) (segments : List Segment)
    → shown colors bs (calls (length bs) level t segments)
      ≡ times
          (terminals bs)
          (if colors then coloured_line level t segments else plain_line level t segments)
unfolding shown calls times terminals
shown-calls colors [] level t segments = refl
shown-calls colors (b ∷ bs) level t segments = rw (shown-calls colors bs level t segments) (
    one_backend b.m_tty colors level (coloured_line level t segments) (plain_line level t segments)
      (length (time_text level t)) (length (plain_time level t))
      (length (coloured_line level t segments)) (length (plain_line level t segments))
      (terminals bs))

-- what a line becomes: stdout gets the plain line without backends
abbrev pub shown_text : Bool → List ConsoleLog → (line plain : Bytes) → Bytes
shown_text colors [] line plain = plain
shown_text colors (b ∷ bs) line plain = times (terminals (b ∷ bs)) (if colors then line else plain)

shown-outputs :
    (colors : Bool) (bs : List ConsoleLog) (level : Level) (t : Time) (segments : List Segment)
    → shown colors bs (outputs (length bs) level t segments)
      ≡ shown_text colors bs (coloured_line level t segments) (plain_line level t segments)
unfolding outputs shown console_print
shown-outputs colors [] level t segments = append-nil (plain_line level t segments)
shown-outputs colors (b ∷ bs) level t segments = shown-calls colors (b ∷ bs) level t segments

print-destroy :
    (level : Level) (t : Time) (text : Option Bytes) (buf : Bytes) (l : Logger)
    → print level t text buf (destroy l) ≡ some (destroy l)
unfolding print destroy
print-destroy level t text buf l = ground arith

log_quiet :
    (background : Bool) (n : ℕ) (level : Level) (t : Time) (text buf : Bytes)
    → (background && (n == 0)) ≡ true
    → Log.print background n level t (some text) buf ≡ some []
unfolding Log.print
log_quiet background n level t text buf h = rw h refl

shown_none : (colors : Bool) (bs : List ConsoleLog) → shown colors bs [] ≡ []
unfolding shown
shown_none colors [] = refl
shown_none colors (b ∷ bs) = refl

print_outputs :
    (level : Level) (t : Time) (text : Option Bytes) (buf : Bytes) (bs : List ConsoleLog)
    (outputs : List Output) (l : Logger)
    → l.d ≡ some bs
    → Log.print l.m_background (length bs) level t text buf ≡ some outputs
    → print level t text buf l
      ≡ some (record l { written = l.written ++ shown l.m_colors bs outputs })
unfolding print
print_outputs level t text buf bs outputs l h e = ground (arith, h, e)

-- A message that fits into the buffer with its time, its colours well formed, is shown once by every
-- terminal, with its colours where they are on and without them where not, and once on stdout
-- without colours where there is no backend; a program in the background without backends shows
-- nothing. After `destroy` nothing is shown, and `destroy` has closed every terminal once.
pub print-shown :
    (level : Level) (t : Time) (segments : List Segment) (buf : Bytes) (bs : List ConsoleLog)
    (l : Logger)
    → l.d ≡ some bs
    → length buf ≡ max_buffer_size
    → IsCString (written segments)
    → length (written segments) < room (length (time_text level t))
    → (print level t (some (written segments)) buf l
        ≡ some (
            if l.m_background && (length bs == 0) then l else record l {
              written =
                  l.written
                  ++ shown_text l.m_colors bs
                      (coloured_line level t segments)
                      (plain_line level t segments);
            }))
      × (print level t (some (written segments)) buf (destroy l) ≡ some (destroy l))
      × ((destroy l).closed ≡ l.closed + terminals bs)
unfolding destroy
print-shown level t segments buf bs l h whole text fits =
    let message = some (written segments) in
    (
      elim (Bool-cases (l.m_background && (length bs == 0))) [
        | inl quiet ↦ rw quiet (
            print_outputs level t message buf bs [] l h
              (log_quiet l.m_background (length bs) level t (written segments) buf quiet)
            ∙ ap (λ s. some (record l { written = s }))
                (ap (λ s. l.written ++ s) (shown_none l.m_colors bs) ∙ append-nil l.written))
        | inr loud ↦ rw loud (
            print_outputs level t message buf bs (outputs (length bs) level t segments) l h
              (print-outputs l.m_background (length bs) level t segments buf whole text fits loud)
            ∙ ap (λ s. some (record l { written = l.written ++ s }))
                (shown-outputs l.m_colors bs level t segments))
      ],
      print-destroy level t message buf l,
      rw h refl,
    )
