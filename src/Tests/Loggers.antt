-- ===== src/Tests/Loggers.antt =====
-- A log with one console, of a terminal without colours.
use xmrig_nonces_heatmap.Prelude.{
  ℕ, ◌≡◌, ◌+◌, refl, false, true, [], ◌∷◌, ◌++◌, some, length-replicate, length, ◌&&◌, ◌==◌, eq_nat,
  arith, if◌then◌else◌,
}
use xmrig_nonces_heatmap.Log.{no_level, max_buffer_size}
use xmrig_nonces_heatmap.Log.Strip.{written}
use xmrig_nonces_heatmap.Log.Printed.{coloured_line, plain_line}
use xmrig_nonces_heatmap.Logger.{
  ConsoleLog, Logger, logger, console_log, add, destroy, print, terminals,
}
use xmrig_nonces_heatmap.Logger.Printed.{shown_text, print-shown}
use xmrig_nonces_heatmap.Tests.Logs.{noon, message, m_buf_empty}

abbrev console : ConsoleLog
console = record { m_tty = true }

abbrev one : Logger
one = record logger { d = some (console ∷ []); m_colors = false }

one_lem : add console (console_log true false logger).1 ≡ one
unfolding add console_log
one_lem = refl

print-shown_example :
    (print no_level noon (some (written message)) m_buf_empty one
      ≡ some (
          if one.m_background && (length (console ∷ []) == 0) then one else record one {
            written =
                one.written
                ++ shown_text one.m_colors
                    (console ∷ [])
                    (coloured_line no_level noon message)
                    (plain_line no_level noon message);
          }))
    × (print no_level noon (some (written message)) m_buf_empty (destroy one) ≡ some (destroy one))
    × ((destroy one).closed ≡ one.closed + terminals (console ∷ []))
unfolding written
print-shown_example =
    print-shown no_level noon message m_buf_empty (console ∷ []) one refl
      (length-replicate {A = ℕ} max_buffer_size 0)
      (refl, (refl, (refl, (refl, (refl, (refl, (refl, (refl, (refl, tt))))))))) (omega arith)
