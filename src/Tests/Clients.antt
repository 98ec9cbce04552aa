-- ===== src/Tests/Clients.antt =====
-- A client under TLS whose daemon sends no HTTP: two pieces, both refused by the parser.
use xmrig_nonces_heatmap.Prelude.{
  pos, ◌≡◌, ◌≤◌, ◌⊎◌, refl, inr, true, false, Bool, [], ◌∷◌, Option, none, some, length, All,
}
use xmrig_nonces_heatmap.HttpContext
use xmrig_nonces_heatmap.HttpClient
use xmrig_nonces_heatmap.HttpContext.{handle_all}
use xmrig_nonces_heatmap.HttpsClient
use xmrig_nonces_heatmap.HttpsClient.{Tls, https_client, parse_piece}
use xmrig_nonces_heatmap.Client.{Client, context, fetch, on_connect, on_read}
use xmrig_nonces_heatmap.Client.Answered.{IsTagged}
use xmrig_nonces_heatmap.Client.Pieces.{Laws}
use xmrig_nonces_heatmap.Client.Life.{Reach, fetched, then_step, connected, readable, Reach-told}
use xmrig_nonces_heatmap.Tests.Messages.{sys}
use xmrig_nonces_heatmap.Tests.Secure.{toy, pinned}

-- the parser is `true` after an error
abbrev refusing : Tls
refusing = record toy {
  Parser = Bool;
  parse = λ piece parser. ([], 0, true);
  is_init_finished = λ ssl. true;
  read_all = λ ssl. ((1 ∷ []) ∷ (2 ∷ []) ∷ [], false, ssl);
}

refusing-Laws : Laws refusing sys
refusing-Laws = record {
  timeout = refl;
  protocol = refl;
  ended = refl;
  Refused = λ parser. parser ≡ true;
  stops = λ b p h. inr refl;
  silent = λ b p h. refl;
  stays = λ b p h. refl;
}

abbrev fetched_client : Client refusing sys
fetched_client = fetch refusing sys true true false 1 pinned 4 9

abbrev connected_client : Client refusing sys
connected_client = on_connect refusing sys (pos 0) true fetched_client

abbrev or_connected : Option (Client refusing sys) → Client refusing sys
or_connected none = connected_client
or_connected (some c) = c

abbrev refused_client : Client refusing sys
refused_client = or_connected (on_read refusing sys true (pos 2) (1 ∷ 2 ∷ []) [] 0 connected_client)

refused_client-Reach : Reach refusing sys fetched_client refused_client
unfolding fetch on_connect on_read https_client HttpsClient.on_connect HttpsClient.on_read
refused_client-Reach =
    then_step (then_step fetched (connected (pos 0) true))
      (readable true (pos 2) (1 ∷ 2 ∷ []) [] 0 refl refl)

Reach-told_example :
    (length (context refusing sys refused_client).told ≤ 1)
    × All (IsTagged 4 9) (context refusing sys refused_client).told
    × (((context refusing sys refused_client).closing ≡ false)
        ⊎ (((context refusing sys refused_client).alive ≡ false)
            ⊎ (length (context refusing sys refused_client).told ≡ 1)))
Reach-told_example =
    Reach-told refusing sys refusing-Laws 4 9 true true false 1 pinned refused_client
      refused_client-Reach

-- the error was told
refused_test : length (context refusing sys refused_client).told ≡ 1
unfolding fetch on_connect on_read https_client HttpsClient.on_connect HttpsClient.on_read
    HttpClient.read HttpContext.close handle_all parse_piece
refused_test = refl
