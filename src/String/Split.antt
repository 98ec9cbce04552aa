-- ===== src/String/Split.antt =====
-- `split` of base/tools/String.cpp: what its pieces are.
use xmrig_nonces_heatmap.Prelude.{
  ℕ, ◌≡◌, ◌≤◌, nat_beq_iff, refl, sym, ap, ◌∙◌, arith, Bool-cases, true, false, ◌==◌, eq_nat,
  if◌then◌else◌, Bytes, List, [], ◌∷◌, ◌++◌, append-nil, append_assoc, some, length, take, All,
  All-append, inl, inr,
}
use xmrig_nonces_heatmap.String.{String, bytes, of_buffer, emplace, split_loop, split}

-- the bytes of the pieces one after the other
unfoldable pub joined : List String → Bytes
joined [] = []
joined (s ∷ pieces) = bytes s ++ joined pieces

-- the bytes other than `sep`
unfoldable pub without : ℕ → Bytes → Bytes
without sep [] = []
without sep (b ∷ d) = if b == sep then without sep d else b ∷ without sep d

take_all : (d : Bytes) → take (length d) d ≡ d
take_all [] = refl
take_all (b ∷ d) = ap (λ t. b ∷ t) (take_all d)

joined-append : (out pieces : List String) → joined (out ++ pieces) ≡ joined out ++ joined pieces
unfolding joined
joined-append [] pieces = refl
joined-append (s ∷ out) pieces =
    ap (λ t. bytes s ++ t) (joined-append out pieces)
    ∙ sym (append_assoc (bytes s) (joined out) (joined pieces))

joined-emplace :
    (out : List String) (piece : Bytes) → joined (emplace out piece) ≡ joined out ++ piece
unfolding joined emplace of_buffer
joined-emplace out [] = sym (append-nil (joined out))
joined-emplace out (b ∷ piece) =
    joined-append out (of_buffer (some (b ∷ piece)) (length (b ∷ piece)) ∷ [])
    ∙ ap (λ t. joined out ++ t)
        (append-nil (take (length (b ∷ piece)) (b ∷ piece)) ∙ take_all (b ∷ piece))

joined-split_loop :
    (sep : ℕ) (d piece : Bytes) (out : List String)
    → joined (split_loop sep d piece out) ≡ joined out ++ (piece ++ without sep d)
unfolding split_loop without
joined-split_loop sep [] piece out =
    joined-emplace out piece ∙ ap (λ t. joined out ++ t) (sym (append-nil piece))
joined-split_loop sep (b ∷ d) piece out = elim (Bool-cases (b == sep)) [
  | inl t ↦ rw (
    t,
    joined-split_loop sep d [] (emplace out piece),
    joined-emplace out piece,
    append_assoc (joined out) piece (without sep d),
  )
  | inr f ↦ rw (
    f,
    joined-split_loop sep d (piece ++ b ∷ []) out,
    append_assoc piece (b ∷ []) (without sep d),
  )
]

-- a text that is not empty, and does not hold `sep`
pub record IsPiece (sep : ℕ) (s : String) : Type 0 where
  pub text : Bytes
  pub of_data : s ≡ record { m_data = some text; m_size = length text }
  pub not_empty : 1 ≤ length text
  pub no_sep : All (λ b. (b == sep) ≡ false) text

All-snoc : (P : ℕ → Type 0) (xs : Bytes) (b : ℕ) → All P xs → P b → All P (xs ++ b ∷ [])
All-snoc P [] b p q = (q, tt)
All-snoc P (x ∷ xs) b (p, ps) q = (p, All-snoc P xs b ps q)

emplace-IsPiece :
    (sep : ℕ) (out : List String) (piece : Bytes)
    → All (IsPiece sep) out
    → All (λ b. (b == sep) ≡ false) piece
    → All (IsPiece sep) (emplace out piece)
unfolding emplace of_buffer
emplace-IsPiece sep out [] all none_in = all
emplace-IsPiece sep out (b ∷ piece) all none_in =
    All-append _ out (of_buffer (some (b ∷ piece)) (length (b ∷ piece)) ∷ []) all (
      record {
        text = b ∷ piece;
        of_data =
            ap (λ t. record { m_data = some t; m_size = length (b ∷ piece) })
              (take_all (b ∷ piece));
        not_empty = omega arith;
        no_sep = none_in;
      },
      tt,
    )

split_loop-IsPiece :
    (sep : ℕ) (d piece : Bytes) (out : List String)
    → All (IsPiece sep) out
    → All (λ b. (b == sep) ≡ false) piece
    → All (IsPiece sep) (split_loop sep d piece out)
unfolding split_loop
split_loop-IsPiece sep [] piece out all none_in = emplace-IsPiece sep out piece all none_in
split_loop-IsPiece sep (b ∷ d) piece out all none_in = elim (Bool-cases (b == sep)) [
  | inl t ↦ rw t (
      split_loop-IsPiece sep d [] (emplace out piece) (emplace-IsPiece sep out piece all none_in)
        tt)
  | inr f ↦ rw f (split_loop-IsPiece sep d (piece ++ b ∷ []) out all (All-snoc _ piece b none_in f))
]

eq_self : (sep : ℕ) → (sep == sep) ≡ true
eq_self sep = (nat_beq_iff sep sep).1 refl

split_loop-append :
    (sep : ℕ) (d e piece : Bytes) (out : List String)
    → split_loop sep (d ++ sep ∷ e) piece out ≡ split_loop sep e [] (split_loop sep d piece out)
unfolding split_loop
split_loop-append sep [] e piece out = rw (eq_self sep)
split_loop-append sep (b ∷ d) e piece out = elim (Bool-cases (b == sep)) [
  | inl t ↦ rw (t, split_loop-append sep d e [] (emplace out piece))
  | inr f ↦ rw (f, split_loop-append sep d e (piece ++ b ∷ []) out)
]

emplace-append :
    (out more : List String) (piece : Bytes)
    → emplace (out ++ more) piece ≡ out ++ emplace more piece
unfolding emplace
emplace-append out more [] = refl
emplace-append out more (b ∷ piece) = append_assoc out more _

split_loop-out :
    (sep : ℕ) (d piece : Bytes) (out more : List String)
    → split_loop sep d piece (out ++ more) ≡ out ++ split_loop sep d piece more
unfolding split_loop
split_loop-out sep [] piece out more = emplace-append out more piece
split_loop-out sep (b ∷ d) piece out more = elim (Bool-cases (b == sep)) [
  | inl t ↦ rw (t, emplace-append out more piece, split_loop-out sep d [] out (emplace more piece))
  | inr f ↦ rw (f, split_loop-out sep d (piece ++ b ∷ []) out more)
]

-- a string that holds `d`
abbrev pub text : Bytes → String
text d = record { m_data = some d; m_size = length d }

split_lem : (d : Bytes) (sep : ℕ) → split (text d) sep ≡ split_loop sep d [] []
unfolding split split_loop emplace
split_lem [] sep = refl
split_lem (b ∷ d) sep = ground arith

-- The pieces that `split` makes of a string, one after the other, are the string without its
-- separators: nothing is lost or moved. Each piece is a string of its own size that is not empty
-- and does not hold the separator.
pub split-IsPiece :
    (d : Bytes) (sep : ℕ)
    → (joined (split (text d) sep) ≡ without sep d) × All (IsPiece sep) (split (text d) sep)
split-IsPiece d sep =
    rw (split_lem d sep)
      ((unfold joined in joined-split_loop sep d [] []), split_loop-IsPiece sep d [] [] tt tt)

-- A separator divides the work of `split`: the pieces of two texts with a separator between them
-- are the pieces of the first one and then those of the second one.
split-append :
    (d e : Bytes) (sep : ℕ)
    → split (text (d ++ sep ∷ e)) sep ≡ split (text d) sep ++ split (text e) sep
split-append d e sep =
    split_lem (d ++ sep ∷ e) sep
    ∙ split_loop-append sep d e [] []
    ∙ ap (split_loop sep e []) (sym (append-nil (split_loop sep d [] [])))
    ∙ split_loop-out sep e [] (split_loop sep d [] []) []
    ∙ rw (split_lem d sep, split_lem e sep)
