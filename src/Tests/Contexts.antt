-- ===== src/Tests/Contexts.antt =====
-- Two contexts: the first writes and closes, is closed again by the end of its write, and is deleted.
use xmrig_nonces_heatmap.Prelude.{◌≡◌, refl, pos, true, false, eq_nat, [], ◌∷◌, none, some, arith}
use xmrig_nonces_heatmap.Dict.{find, assign, erase, insert}
use xmrig_nonces_heatmap.HttpData.{HttpData}
use xmrig_nonces_heatmap.HttpContext
use xmrig_nonces_heatmap.HttpContext.{HttpContext, http_context}
use xmrig_nonces_heatmap.Contexts.{
  Contexts, contexts, create, get, close, write, delete, close_handles, close_all,
}
use xmrig_nonces_heatmap.Contexts.Life.{
  Reach, started, created, wrote, closed, IsSound, Reach-IsSound,
}

abbrev message : HttpData
message = record {
  method = 3;
  status = pos 0;
  user_type = 2;
  headers = [];
  body = [];
  url = [];
  rpc_id = 1;
  m_id = 0;
}

-- the context at 8 writes and is to be closed after it, and is closed before
abbrev written_to : Contexts
written_to = write true 8 true (create 9 message (create 8 message contexts))

abbrev closed_once : Contexts
closed_once = record written_to {
  storage = (1, 9) ∷ [];
  heap =
      assign 8
        (record (http_context (record message { m_id = 0 })) { stored = false; closing = true })
        written_to.heap;
}

close_lem : close 8 (pos 0) written_to ≡ some closed_once
unfolding close create write find assign erase insert HttpContext.close
close_lem = refl

closed_once-Reach : Reach closed_once
unfolding create write find assign erase insert
closed_once-Reach =
    closed
      (wrote (created (created started 8 message refl (omega arith)) 9 message refl (omega arith)) 8
        true true (http_context message) refl)
      8 (pos 0) (http_context message) refl close_lem

Reach-IsSound_example : IsSound closed_once
Reach-IsSound_example = Reach-IsSound closed_once-Reach

-- `closeAll` leaves every entry in the map: once the contexts are deleted, `get` gives freed memory
abbrev all_closed : Contexts
all_closed = elim (close_all closed_once) [ none ↦ contexts | some w ↦ delete 9 (delete 8 w) ]

all_closed_dangling : (get 1 all_closed ≡ some 9) × (find 9 all_closed.heap ≡ none)
unfolding close_all close_handles delete find assign erase insert write create
all_closed_dangling = (refl, refl)
