-- ===== src/Tests/Consoles.antt =====
-- A console that reads `h`, two bytes at once, `q`, and the end of the terminal.
use xmrig_nonces_heatmap.Prelude.{◌≡◌, refl, true, false, not, codes, [], ◌∷◌, some, pos}
use xmrig_nonces_heatmap.Handles.{console, end_console, timer, single_shot}
use xmrig_nonces_heatmap.Handles.Keys.{
  Input, failed, run, keys, reads_of, has_failed, end_console-run,
}

abbrev input : Input
input = failed ((1, b'h') ∷ (2, b'x') ∷ (1, b'q') ∷ []) 4094

end_console-run_example :
    ((end_console (run input (console true true))).told ≡ keys (reads_of input))
    × ((end_console (run input (console true true))).m_tty
        ≡ some (record {
          stopped = false;
          closing = true;
          closes = 1;
          freed = not (has_failed input);
        }))
    × ((end_console (run input (console true true))).raw ≡ false)
end_console-run_example = end_console-run input

keys_test : keys (reads_of input) ≡ codes "hq"
unfolding keys
keys_test = refl

single_shot_test : (single_shot 5000 (pos 1) timer).running ≡ some (5000, 0)
unfolding single_shot
single_shot_test = refl
