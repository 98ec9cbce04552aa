-- ===== src/Tests/Logs.antt =====
-- Lines of the log.
use xmrig_nonces_heatmap.Prelude.{
  ℕ, ◌≡◌, refl, false, true, Bytes, codes, List, [], ◌∷◌, ◌++◌, some, length-replicate, replicate,
  length, ◌+◌, eq_nat, arith, min,
}
use xmrig_nonces_heatmap.String
use xmrig_nonces_heatmap.Log.{
  err, no_level, Time, strip, strip_all, console_print, backend, print, compose, max_buffer_size,
  room, style, padded,
}
use xmrig_nonces_heatmap.Heatmap.{digits}
use xmrig_nonces_heatmap.Log.Strip.{Segment, plain, colour, written}
use xmrig_nonces_heatmap.Log.Compose.{time_text, code_text}
use xmrig_nonces_heatmap.Log.Lines.{shown, compose-shown}
use xmrig_nonces_heatmap.Log.Printed.{outputs, print-outputs}

padded_short : padded 3 (7) ≡ codes "007"
unfolding padded digits
padded_short = refl

strip_colour : strip_all (codes "a" ++ (style (codes "1;31") ++ codes "b")) ≡ some (codes "ab")
unfolding strip strip_all
strip_colour = refl

abbrev pub noon : Time
noon = record { year = 2022; month = 5; day = 1; hour = 12; minute = 0; second = 0; ms = 7 }

abbrev pub message : List Segment
message =
    colour (codes "1;37") (refl, (refl, (refl, (refl, tt))))
    ∷ plain (codes "ok") (refl, (refl, tt))
    ∷ []

abbrev pub m_buf_empty : Bytes
m_buf_empty = replicate max_buffer_size 0

print-outputs_example :
    print false 1 no_level noon (some (written message)) m_buf_empty
    ≡ some (outputs 1 no_level noon message)
unfolding written
print-outputs_example =
    print-outputs false 1 no_level noon message m_buf_empty
      (length-replicate {A = ℕ} max_buffer_size 0)
      (refl, (refl, (refl, (refl, (refl, (refl, (refl, (refl, (refl, tt))))))))) (omega arith) refl

compose-shown_example :
    (m_buf : Bytes) × (compose err noon (codes "x") m_buf_empty
      ≡ some (record {
        offset = length (time_text err noon);
        size =
            length (time_text err noon ++ code_text err)
            + min 1 (room (length (time_text err noon)))
            + 5;
        m_buf = m_buf;
      }))
    × (String.c_str m_buf
        ≡ (time_text err noon ++ code_text err)
          ++ shown (room (length (time_text err noon))) (codes "x"))
compose-shown_example =
    compose-shown err noon (codes "x") m_buf_empty (length-replicate {A = ℕ} max_buffer_size 0)
      (refl, tt)

-- a terminal without colours gets the plain line only
console_test :
    (console_print true false (backend err (codes "c") 0 1 true) ≡ [])
    × (console_print true false (backend err (codes "p") 0 1 false) ≡ codes "p")
unfolding console_print
console_test = (refl, refl)
