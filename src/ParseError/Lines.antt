-- ===== src/ParseError/Lines.antt =====
-- The lines of a text.
use xmrig_nonces_heatmap.Prelude.{
  ℕ, zero, suc, ◌+◌, ◌≤◌, ◌≡◌, refl, ap, ◌∙◌, false, Bytes, List, [], ◌∷◌, ◌++◌, ◌==◌, eq_nat,
  nat_beq_iff, if◌then◌else◌, length, take, get_or, All, arith, Bool-cases, inl, inr,
}
use xmrig_nonces_heatmap.ParseError.{get_lines}

-- the newlines in front of a place, and the bytes behind the last of them
unfoldable pub newlines : Bytes → ℕ
newlines [] = 0
newlines (b ∷ text) = if b == 10 then suc (newlines text) else newlines text

unfoldable pub column : ℕ → Bytes → ℕ
column n [] = n
column n (b ∷ text) = if b == 10 then column 0 text else column (suc n) text

abbrev pub IsLine : Bytes → Type 0
IsLine l = All (λ b. (b == 10) ≡ false) l

pub newlines-line : (l r : Bytes) → IsLine l → newlines (l ++ r) ≡ newlines r
unfolding newlines
newlines-line [] r h = refl
newlines-line (b ∷ l) r (hb, h) = rw hb (newlines-line l r h)

pub column-line : (n : ℕ) (l r : Bytes) → IsLine l → column n (l ++ r) ≡ column (n + length l) r
unfolding column
column-line n [] r h = ap (λ k. column k r) (omega arith)
column-line n (b ∷ l) r (hb, h) =
    rw hb (column-line (suc n) l r h ∙ ap (λ k. column k r) (omega arith))

-- the lines of a text, put together
unfoldable pub joined : List Bytes → Bytes
joined [] = []
joined (l ∷ []) = l
joined (l ∷ m ∷ ls) = l ++ (10 ∷ joined (m ∷ ls))

joined-longer : (b : ℕ) (l : Bytes) (ls : List Bytes) → joined ((b ∷ l) ∷ ls) ≡ b ∷ joined (l ∷ ls)
unfolding joined
joined-longer b l [] = refl
joined-longer b l (m ∷ ls) = refl

-- the lines of a text are some lines at least
pub record AreLines (text : Bytes) (ls : List Bytes) : Type 0 where
  pub first : Bytes
  pub rest : List Bytes
  pub cut : ls ≡ first ∷ rest
  pub whole : joined (first ∷ rest) ≡ text
  pub lines : All IsLine (first ∷ rest)

pub get_lines-AreLines : (text : Bytes) → AreLines text (get_lines text)
unfolding get_lines joined
get_lines-AreLines [] = record { first = []; rest = []; cut = refl; whole = refl; lines = (tt, tt) }
get_lines-AreLines (b ∷ text) =
    let a = get_lines-AreLines text in
    elim (Bool-cases (b == 10)) [
      | inl e ↦
          let newline : 10 ≡ b = ground (arith, nat_beq_iff b 10) in
          record {
            first = [];
            rest = a.first ∷ a.rest;
            cut = rw (e, a.cut) refl;
            whole = ap (λ t. 10 ∷ t) a.whole ∙ ap (λ c. c ∷ text) newline;
            lines = (tt, a.lines);
          }
      | inr e ↦ record {
        first = b ∷ a.first;
        rest = a.rest;
        cut = rw (e, a.cut) refl;
        whole = joined-longer b a.first a.rest ∙ ap (λ t. b ∷ t) a.whole;
        lines = ((e, a.lines.0), a.lines.1);
      }
    ]

pub take-IsLine : (n : ℕ) (l : Bytes) → IsLine l → IsLine (take n l)
take-IsLine zero l h = tt
take-IsLine (suc n) [] h = tt
take-IsLine (suc n) (b ∷ l) (hb, h) = (hb, take-IsLine n l h)

take_within : (o : ℕ) (l r : Bytes) → o ≤ length l → take o (l ++ r) ≡ take o l
take_within zero l r h = refl
take_within (suc o) [] r h = absurd (omega arith)
take_within (suc o) (b ∷ l) r h = ap (λ t. b ∷ t) (take_within o l r (omega arith))

pub take_beyond : (o : ℕ) (l r : Bytes) → take (length l + o) (l ++ r) ≡ l ++ take o r
take_beyond o [] r = ap (λ k. take k r) (omega arith)
take_beyond o (b ∷ l) r =
    let e : suc (length l) + o ≡ suc (length l + o) = omega arith in
    rw e (ap (λ t. b ∷ t) (take_beyond o l r))

get_or-line : (o : ℕ) (l r : Bytes) → o ≤ length l → get_or (l ++ 10 ∷ r) o 10 ≡ get_or l o 10
get_or-line zero [] r h = refl
get_or-line zero (b ∷ l) r h = refl
get_or-line (suc o) [] r h = absurd (omega arith)
get_or-line (suc o) (b ∷ l) r h = get_or-line o l r (omega arith)

pub get_or_beyond : (o : ℕ) (l r : Bytes) → get_or (l ++ r) (length l + o) 10 ≡ get_or r o 10
get_or_beyond o [] r = ap (λ k. get_or r k 10) (omega arith)
get_or_beyond o (b ∷ l) r =
    let e : suc (length l) + o ≡ suc (length l + o) = omega arith in rw e (get_or_beyond o l r)

pub take-joined :
    (o : ℕ) (l : Bytes) (ls : List Bytes) → o ≤ length l → take o (joined (l ∷ ls)) ≡ take o l
unfolding joined
take-joined o l [] h = refl
take-joined o l (m ∷ ls) h = take_within o l (10 ∷ joined (m ∷ ls)) h

pub get_or-joined :
    (o : ℕ) (l : Bytes) (ls : List Bytes)
    → o ≤ length l
    → get_or (joined (l ∷ ls)) o 10 ≡ get_or l o 10
unfolding joined
get_or-joined o l [] h = refl
get_or-joined o l (m ∷ ls) h = get_or-line o l (joined (m ∷ ls)) h

pub newlines_in_line : (l : Bytes) → IsLine l → newlines l ≡ 0
unfolding newlines
newlines_in_line [] h = refl
newlines_in_line (b ∷ l) (hb, h) = rw hb (newlines_in_line l h)

pub column_in_line : (n : ℕ) (l : Bytes) → IsLine l → column n l ≡ n + length l
unfolding column
column_in_line n [] h = omega arith
column_in_line n (b ∷ l) (hb, h) = rw hb (column_in_line (suc n) l h ∙ omega arith)
