-- ===== src/ParseError/Places.antt =====
-- The place that a report names, and the lines that it shows.
use xmrig_nonces_heatmap.Prelude.{
  ℕ, suc, ◌+◌, ◌-◌, ◌≤◌, ◌<◌, ◌≡◌, ◌⊎◌, subst, refl, sym, ap, ◌∙◌, true, false, Bytes, List, [],
  ◌∷◌, ◌++◌, Option, none, some, eq_nat, if◌then◌else◌, ltb, length, is_nil, take, get_or, All,
  arith, Bool-cases, inl, inr, length-append, length-take,
}
use xmrig_nonces_heatmap.ParseError.{Place, offset_loop, convert_offset}
use xmrig_nonces_heatmap.ParseError.Lines.{
  newlines, column, IsLine, newlines-line, column-line, joined, get_lines-AreLines, take-IsLine,
  take_beyond, get_or_beyond, take-joined, get_or-joined, newlines_in_line, column_in_line,
}

-- The place of a byte: its line, counted from `before`, and its column, both from 1 on. The lines to
-- show are the one with the place and at most one before it. Where no byte is, there is a newline.
pub record IsPlace (text : Bytes) (offset before : ℕ) (p : Place) : Type 0 where
  pub line : p.line ≡ before + newlines (take offset text) + 1
  pub pos : p.pos ≡ column 0 (take offset text) + 1
  pub earlier : List Bytes
  pub shown : Bytes
  pub s : p.s ≡ earlier ++ shown ∷ []
  pub few : length earlier ≤ 1
  pub marked : get_or shown (p.pos - 1) 10 ≡ get_or text offset 10

abbrev previous : Bytes → List Bytes
previous t = if is_nil t then [] else t ∷ []

previous_lem : (t l : Bytes) → (if is_nil t then l ∷ [] else t ∷ l ∷ []) ≡ previous t ++ l ∷ []
previous_lem [] l = refl
previous_lem (b ∷ t) l = refl

previous_few : (t : Bytes) → length (previous t) ≤ 1
previous_few [] = omega arith
previous_few (b ∷ t) = omega arith

record Found (text : Bytes) (offset before : ℕ) (r : Option Place) : Type 0 where
  place : Place
  result : r ≡ some place
  is_place : IsPlace text offset before place

-- the place is in the first line
within :
    (l : Bytes) (ls : List Bytes) (o k line : ℕ) (prev : Bytes)
    → IsLine l
    → o ≤ length l
    → Found (joined (l ∷ ls)) o line (offset_loop (l ∷ ls) (k + o) prev line k)
unfolding offset_loop
within l ls o k line prev h inside =
    let test : ltb (k + o) (k + (length l + 1)) ≡ true = ground arith in
    let t = take-joined o l ls inside in
    let at : k + o + length l + 1 - (k + (length l + 1)) + 1 - 1 ≡ o = omega arith in
    record {
      place = record {
        line = line + 1;
        pos = k + o + length l + 1 - (k + (length l + 1)) + 1;
        s = if is_nil prev then l ∷ [] else prev ∷ l ∷ [];
      };
      result = rw test refl;
      is_place = record {
        line = rw (t, newlines_in_line (take o l) (take-IsLine o l h)) (omega arith);
        pos =
            rw (t, column_in_line 0 (take o l) (take-IsLine o l h))
              (omega (arith, length-take o l));
        earlier = previous prev;
        shown = l;
        s = previous_lem prev l;
        few = previous_few prev;
        marked = rw at (sym (get_or-joined o l ls inside));
      };
    }

-- the place is in a later line
beyond :
    (l r : Bytes) (o line : ℕ) (x : Option Place)
    → IsLine l
    → Found r o (line + 1) x
    → Found (l ++ 10 ∷ r) (length l + suc o) line x
unfolding newlines column
beyond l r o line x h f =
    let t : take (length l + suc o) (l ++ 10 ∷ r) ≡ l ++ 10 ∷ take o r =
      take_beyond (suc o) l (10 ∷ r) in
    record {
      place = f.place;
      result = f.result;
      is_place = record {
        line = rw (t, newlines-line l (10 ∷ take o r) h) (f.is_place.line ∙ omega arith);
        pos = rw (t, column-line 0 l (10 ∷ take o r) h) f.is_place.pos;
        earlier = f.is_place.earlier;
        shown = f.is_place.shown;
        s = f.is_place.s;
        few = f.is_place.few;
        marked = f.is_place.marked ∙ sym (get_or_beyond (suc o) l (10 ∷ r));
      };
    }

offset_loop-Found :
    (l : Bytes) (ls : List Bytes) (o k line : ℕ) (prev : Bytes)
    → All IsLine (l ∷ ls)
    → o ≤ length (joined (l ∷ ls))
    → Found (joined (l ∷ ls)) o line (offset_loop (l ∷ ls) (k + o) prev line k)
unfolding offset_loop joined
offset_loop-Found l [] o k line prev h fits = within l [] o k line prev h.0 fits
offset_loop-Found l (m ∷ ls) o k line prev h fits = elim (Bool-cases (ltb (length l) o)) [
  | inr near ↦ within l (m ∷ ls) o k line prev h.0 (ground arith)
  | inl far ↦
      let o' = o - length l - 1 in
      let behind : o ≡ length l + suc o' = ground arith in
      let test : ltb (k + o) (k + (length l + 1)) ≡ false = ground arith in
      let again : k + o ≡ k + (length l + 1) + o' = ground arith in
      let rest =
        offset_loop-Found m ls o' (k + (length l + 1)) (line + 1) l h.1
          (ground (arith, length-append l (10 ∷ joined (m ∷ ls)))) in
      let next = offset_loop (m ∷ ls) (k + (length l + 1) + o') l (line + 1) (k + (length l + 1)) in
      rw (test, again)
        (subst (λ n. Found (l ++ 10 ∷ joined (m ∷ ls)) n line next) (sym behind)
          (beyond l (joined (m ∷ ls)) o' line next h.0 rest))
]

offset_loop-none :
    (l : Bytes) (ls : List Bytes) (o k line : ℕ) (prev : Bytes)
    → length (joined (l ∷ ls)) < o
    → offset_loop (l ∷ ls) (k + o) prev line k ≡ none
unfolding offset_loop joined
offset_loop-none l [] o k line prev short =
    let test : ltb (k + o) (k + (length l + 1)) ≡ false = ground arith in rw test refl
offset_loop-none l (m ∷ ls) o k line prev short =
    let o' = o - length l - 1 in
    let sum = length-append l (10 ∷ joined (m ∷ ls)) in
    let test : ltb (k + o) (k + (length l + 1)) ≡ false = ground arith in
    let again : k + o ≡ k + (length l + 1) + o' = ground arith in
    rw (test, again) (offset_loop-none m ls o' (k + (length l + 1)) (line + 1) l (ground arith))

-- For an offset inside the text or at its end, `convertOffset` finds the place: the number of
-- newlines in front of it, and of bytes since the last of them, both counted from 1. The last of
-- the lines to show has the byte of the offset at that position, and there is one line before it
-- at most. For an offset behind the end it finds nothing.
pub convert_offset-place :
    (text : Bytes) (offset : ℕ)
    → ((p : Place) × (convert_offset text offset ≡ some p)
        × (offset ≤ length text)
        × IsPlace text offset 0 p)
      ⊎ ((convert_offset text offset ≡ none) × (length text < offset))
unfolding convert_offset
convert_offset-place text offset =
    let a = get_lines-AreLines text in
    let start : 0 + offset ≡ offset = omega arith in
    elim (Bool-cases (ltb (length text) offset)) [
      | inl far ↦ inr (
        rw a.cut (
            subst (λ n. offset_loop (a.first ∷ a.rest) n [] 0 0 ≡ none) start
              (offset_loop-none a.first a.rest offset 0 0 [] (ground (arith, ap length a.whole)))),
        ground arith,
      )
      | inr near ↦
          let f =
            offset_loop-Found a.first a.rest offset 0 0 [] a.lines
              (ground (arith, ap length a.whole)) in
          inl (
            f.place,
            rw a.cut (
                subst (λ n. offset_loop (a.first ∷ a.rest) n [] 0 0 ≡ some f.place) start f.result),
            ground arith,
            subst (λ t. IsPlace t offset 0 f.place) a.whole f.is_place,
          )
    ]
