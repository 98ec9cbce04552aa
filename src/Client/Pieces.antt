-- ===== src/Client/Pieces.antt =====
-- The loop of HttpsClient::read, which goes on over the pieces that `SSL_read` gives also where the
-- parser has refused one of them and the connection is closing.
use xmrig_nonces_heatmap.Prelude.{
  ℕ, ◌≡◌, ◌⊎◌, sym, subst, inl, inr, is_negative, true, false, Bytes, List, [], ◌∷◌, arith, length,
  ltb, Bool-cases, any,
}
use xmrig_nonces_heatmap.HttpContext.{HttpContext, Callback, handle_all}
use xmrig_nonces_heatmap.HttpContext.Open.{stored-handle_all}
use xmrig_nonces_heatmap.HttpClient
use xmrig_nonces_heatmap.HttpClient.{HttpClient, System}
use xmrig_nonces_heatmap.HttpsClient.{Tls, HttpsClient, parse_piece, parse_pieces}
use xmrig_nonces_heatmap.Client.Answered.{IsAnswered, handle_all-IsAnswered, close-IsAnswered}
use xmrig_nonces_heatmap.Client.Deaf.{
  IsDeaf, is_complete, IsDeaf-handle_all, handle_all-completes, close-IsDeaf,
}

-- The errors of libuv are negative. http_parser takes less than it was given after an error, and then
-- nothing more, or after the end of a message that upgrades the connection.
pub record Laws (tls : Tls) (sys : System) : Type 1 where
  pub timeout : is_negative sys.etimedout ≡ true
  pub protocol : is_negative sys.eproto ≡ true
  pub ended : is_negative tls.eof ≡ true
  pub Refused : Tls.Parser tls → Type 0
  pub stops :
      (b : Bytes) (p : Tls.Parser tls)
      → ltb (tls.parse b p).1 (length b) ≡ true
      → (any is_complete (tls.parse b p).0 ≡ true) ⊎ Refused (tls.parse b p).2
  pub silent : (b : Bytes) (p : Tls.Parser tls) → Refused p → (tls.parse b p).0 ≡ []
  pub stays : (b : Bytes) (p : Tls.Parser tls) → Refused p → Refused (tls.parse b p).2

module _ (tls : Tls) (sys : System) (laws : Laws tls sys) (type rpc_id : ℕ) where
  -- the connection is open, or nothing more can be told
  abbrev pub IsReady : HttpsClient tls sys → Type 0
  IsReady c =
      IsAnswered type rpc_id c.client.context
      × ((c.client.context.closing ≡ false) ⊎ (IsDeaf c.client.context ⊎ laws.Refused c.parser))

  handle_all_none :
      {c : HttpContext} → IsAnswered type rpc_id c → IsAnswered type rpc_id (handle_all [] c)
  unfolding handle_all
  handle_all_none v = v

  -- `HttpClient::read` closes with an error at most
  read-IsAnswered :
      (es : List Callback) (parsed size : ℕ) (c : HttpClient)
      → IsAnswered type rpc_id (handle_all es c.context)
      → IsAnswered type rpc_id (HttpClient.read sys es parsed size c).context
  unfolding HttpClient.read
  read-IsAnswered es parsed size c v = elim (Bool-cases (ltb parsed size)) [
    | inl less ↦
        rw less (close-IsAnswered type rpc_id sys.eproto (handle_all es c.context) laws.protocol v)
    | inr took ↦ rw took v
  ]

  read-IsDeaf :
      (es : List Callback) (parsed size : ℕ) (c : HttpClient)
      → IsDeaf (handle_all es c.context)
      → IsDeaf (HttpClient.read sys es parsed size c).context
  unfolding HttpClient.read
  read-IsDeaf es parsed size c d = elim (Bool-cases (ltb parsed size)) [
    | inl less ↦ rw less (close-IsDeaf sys.eproto (handle_all es c.context) d)
    | inr took ↦ rw took d
  ]

  pub read_open-IsAnswered :
      (es : List Callback) (parsed size : ℕ) (c : HttpClient)
      → c.context.closing ≡ false
      → IsAnswered type rpc_id c.context
      → IsAnswered type rpc_id (HttpClient.read sys es parsed size c).context
  read_open-IsAnswered es parsed size c o v =
      read-IsAnswered es parsed size c (handle_all-IsAnswered type rpc_id es c.context o v)

  -- an open connection stays open unless the parser refuses the piece
  open_piece :
      (piece : Bytes) (c : HttpsClient tls sys)
      → c.client.context.closing ≡ false
      → IsAnswered type rpc_id c.client.context
      → IsReady (parse_piece tls sys piece c)
  unfolding parse_piece HttpClient.read
  open_piece piece c o v =
      let es = (tls.parse piece c.parser).0 in
      let parsed = (tls.parse piece c.parser).1 in
      (
        read_open-IsAnswered es parsed (length piece) c.client o v,
        elim (Bool-cases (ltb parsed (length piece))) [
          | inl less ↦ elim (laws.stops piece c.parser less) [
            | inl complete ↦ inr (
                inl (
                  read-IsDeaf es parsed (length piece) c.client
                    (handle_all-completes es c.client.context complete)))
            | inr refused ↦ inr (inr refused)
          ]
          | inr took ↦ inl (rw took (ground (arith, (stored-handle_all es c.client.context).1, o)))
        ],
      )

  parse_piece-IsReady :
      (piece : Bytes) (c : HttpsClient tls sys) → IsReady c → IsReady (parse_piece tls sys piece c)
  unfolding parse_piece
  parse_piece-IsReady piece c (v, inl o) = open_piece piece c o v
  parse_piece-IsReady piece c (v, inr (inl deaf)) =
      let es = (tls.parse piece c.parser).0 in
      let parsed = (tls.parse piece c.parser).1 in
      let (v', d) = IsDeaf-handle_all type rpc_id es c.client.context deaf v in
      (
        read-IsAnswered es parsed (length piece) c.client v',
        inr (inl (read-IsDeaf es parsed (length piece) c.client d)),
      )
  parse_piece-IsReady piece c (v, inr (inr refused)) =
      let es = (tls.parse piece c.parser).0 in
      (
        read-IsAnswered es (tls.parse piece c.parser).1 (length piece) c.client (
            subst (λ es. IsAnswered type rpc_id (handle_all es c.client.context))
              (sym (laws.silent piece c.parser refused)) (handle_all_none v)),
        inr (inr (laws.stays piece c.parser refused)),
      )

  pub parse_pieces-IsReady :
      (pieces : List Bytes) (c : HttpsClient tls sys)
      → IsReady c
      → IsReady (parse_pieces tls sys pieces c)
  unfolding parse_pieces
  parse_pieces-IsReady [] c r = r
  parse_pieces-IsReady (piece ∷ pieces) c r =
      parse_pieces-IsReady pieces (parse_piece tls sys piece c) (parse_piece-IsReady piece c r)
