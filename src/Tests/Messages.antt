-- ===== src/Tests/Messages.antt =====
-- HttpContext and HttpClient at one response.
use xmrig_nonces_heatmap.Prelude.{◌≡◌, refl, pos, negsuc, false, codes, List, [], ◌∷◌, length}
use xmrig_nonces_heatmap.HttpData.{HttpData}
use xmrig_nonces_heatmap.HttpContext.{
  HttpContext, http_context, handle, handle_all, close, on_headers_complete, message_complete,
}
use xmrig_nonces_heatmap.HttpContext.Headers.{Pieces, all_calls, insert_all, headers-in_pieces}
use xmrig_nonces_heatmap.HttpContext.Told.{Reach, created, then_step, callback, close-tells}
use xmrig_nonces_heatmap.HttpClient.{System}

abbrev message : HttpData
message = record {
  method = 3;
  status = pos 0;
  user_type = 2;
  headers = [];
  body = [];
  url = codes "/json_rpc";
  rpc_id = 1;
  m_id = 0;
}

-- "Content-" "Type": "text/" "plain"
abbrev pieces : List Pieces
pieces =
    record {
      name = codes "Content-";
      names = codes "Type" ∷ [];
      value = codes "text/";
      values = codes "plain" ∷ [];
    }
    ∷ []

headers-in_pieces_example :
    (on_headers_complete false
      (pos 200)
      0
      (handle_all (all_calls pieces) (http_context message))).data'.headers
    ≡ insert_all pieces []
headers-in_pieces_example =
    headers-in_pieces pieces (http_context message) false (pos 200) 0 (refl, tt) refl refl

-- the message is complete, and then the connection ends
abbrev complete : HttpContext
complete = handle message_complete (http_context message)

complete_reached : Reach message complete
complete_reached = then_step created (callback message_complete refl)

close-tells_example : length (close (negsuc 109) complete).told ≡ 1
unfolding handle
close-tells_example = close-tells message complete (negsuc 109) complete_reached refl refl refl

abbrev pub sys : System
sys = record {
  etimedout = negsuc 109;
  eproto = negsuc 70;
  ecanceled = negsuc 124;
  method_str = λ m. codes "POST";
  user_agent = codes "agent";
}
