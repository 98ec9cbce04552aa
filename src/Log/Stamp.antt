-- ===== src/Log/Stamp.antt =====
-- The time in front of a line: how long it is, and what is left of it without its colours.
use xmrig_nonces_heatmap.Prelude.{
  ℕ, zero, suc, ◌+◌, ◌-◌, ◌/◌, ◌%◌, ◌≤◌, ◌≡◌, refl, false, Bytes, codes, List, [], ◌∷◌, ◌++◌, ◌==◌,
  eq_nat, ltb, length, length-append, length-replicate, replicate, All, All-append, arith,
  Bool-cases, inl, inr, append-nil,
}
use xmrig_nonces_heatmap.Heatmap.{digits, to_string}
use xmrig_nonces_heatmap.Log.{Time, padded, date_text, stamp, style, clear}
use xmrig_nonces_heatmap.Log.Strip.{Segment, plain, colour, written, visible}

-- digits and the characters between them: neither NUL nor an escape character
abbrev pub IsText : ℕ → Type 0
IsText b = ((b == 0) ≡ false) × ((b == 27) ≡ false)

length-digits : (fuel n : ℕ) (out : Bytes) → length (digits fuel n out) ≤ fuel + length out
unfolding digits
length-digits zero n out = omega arith
length-digits (suc fuel) n out = ground (arith, length-digits fuel (n / 10) ((b'0' + n % 10) ∷ out))

digits-IsText : (fuel n : ℕ) (out : Bytes) → All IsText out → All IsText (digits fuel n out)
unfolding digits
digits-IsText zero n out h = h
digits-IsText (suc fuel) n out h = elim (Bool-cases (ltb n 10)) [
  | inl t ↦ rw t ((ground arith, ground arith), h)
  | inr f ↦
      rw f (digits-IsText fuel (n / 10) ((b'0' + n % 10) ∷ out) ((ground arith, ground arith), h))
]

replicate-IsText : (n : ℕ) → All IsText (replicate n b'0')
replicate-IsText zero = tt
replicate-IsText (suc n) = ((refl, refl), replicate-IsText n)

padded-IsText : (width n : ℕ) → All IsText (padded width n)
unfolding padded
padded-IsText width n =
    All-append IsText (replicate (width - length (to_string n)) b'0') (to_string n)
      (replicate-IsText (width - length (to_string n))) (digits-IsText 20 n [] tt)

length-padded : (width n : ℕ) → length (padded width n) ≤ width + 20
unfolding padded
length-padded width n = omega (
  arith,
  length-append (replicate (width - length (to_string n)) b'0') (to_string n),
  length-replicate {A = ℕ} (width - length (to_string n)) b'0',
  length-digits 20 n [],
)

-- a field, the character behind it, and the fields after that
field-IsText :
    (s rest : Bytes) (c : ℕ)
    → All IsText s
    → IsText c
    → All IsText rest
    → All IsText (s ++ (c ∷ rest))
field-IsText s rest c h hc hr = All-append IsText s (c ∷ rest) h (hc, hr)

date_text-IsText : (t : Time) → All IsText (date_text t)
unfolding date_text
date_text-IsText t = (
  (refl, refl),
  field-IsText (to_string t.year) _ b'-' (digits-IsText 20 t.year [] tt) (refl, refl)
      (field-IsText (padded 2 t.month) _ b'-' (padded-IsText 2 t.month) (refl, refl)
        (field-IsText (padded 2 t.day) _ b' ' (padded-IsText 2 t.day) (refl, refl)
          (field-IsText (padded 2 t.hour) _ b':' (padded-IsText 2 t.hour) (refl, refl)
            (field-IsText (padded 2 t.minute) _ b':' (padded-IsText 2 t.minute) (refl, refl)
              (padded-IsText 2 t.second))))),
)

length_field :
    (s rest : Bytes) (c k n : ℕ)
    → length s ≤ k
    → length rest ≤ n
    → length (s ++ (c ∷ rest)) ≤ k + n + 1
length_field s rest c k n h hr = omega (arith, length-append s (c ∷ rest))

length-date_text : (t : Time) → length (date_text t) ≤ 136
unfolding date_text
length-date_text t = omega (
  arith,
  length_field (to_string t.year) _ b'-' 20 114 (omega (arith, length-digits 20 t.year [])) (
      length_field (padded 2 t.month) _ b'-' 22 91 (length-padded 2 t.month) (
        length_field (padded 2 t.day) _ b' ' 22 68 (length-padded 2 t.day) (
          length_field (padded 2 t.hour) _ b':' 22 45 (length-padded 2 t.hour) (
            length_field (padded 2 t.minute) _ b':' 22 22 (length-padded 2 t.minute)
              (length-padded 2 t.second))))),
)

-- the time without its colours
pub plain_stamp : Time → Bytes
plain_stamp t = date_text t ++ ((b'.' ∷ padded 3 t.ms) ++ codes "] ")

no_escape : (s : Bytes) → All IsText s → All (λ b. (b == 27) ≡ false) s
no_escape [] h = tt
no_escape (b ∷ s) (hb, h) = (hb.1, no_escape s h)

no_nul : (s : Bytes) → All IsText s → All (λ b. (b == 0) ≡ false) s
no_nul [] h = tt
no_nul (b ∷ s) (hb, h) = (hb.0, no_nul s h)

-- the time as it is coloured
pub stamp_segments : Time → List Segment
stamp_segments t =
    plain (date_text t) (no_escape (date_text t) (date_text-IsText t))
    ∷ colour (codes "1;30") (refl, (refl, (refl, (refl, tt))))
    ∷ plain (b'.' ∷ padded 3 t.ms)
        (no_escape (b'.' ∷ padded 3 t.ms) ((refl, refl), padded-IsText 3 t.ms))
    ∷ colour (codes "0") (refl, tt)
    ∷ plain (codes "] ") (refl, (refl, tt))
    ∷ []

pub written-stamp : (t : Time) → written (stamp_segments t) ≡ stamp t
unfolding written stamp stamp_segments
written-stamp t = simp (append-nil)

pub visible-stamp : (t : Time) → visible (stamp_segments t) ≡ plain_stamp t
unfolding visible plain_stamp stamp_segments
visible-stamp t = simp (append-nil)

-- eleven bytes are colours
pub length-stamp : (t : Time) → length (stamp t) ≡ length (plain_stamp t) + 11
unfolding stamp plain_stamp
length-stamp t = omega (
  arith,
  length-append (date_text t)
      (style (codes "1;30") ++ ((b'.' ∷ padded 3 t.ms) ++ (clear ++ codes "] "))),
  length-append (date_text t) ((b'.' ∷ padded 3 t.ms) ++ codes "] "),
  length-append (padded 3 t.ms) (clear ++ codes "] "),
  length-append (padded 3 t.ms) (codes "] "),
)

pub stamp_bound : (t : Time) → length (stamp t) ≤ 174
unfolding stamp
stamp_bound t = omega (
  arith,
  length-append (date_text t)
      (style (codes "1;30") ++ ((b'.' ∷ padded 3 t.ms) ++ (clear ++ codes "] "))),
  length-append (padded 3 t.ms) (clear ++ codes "] "),
  length-date_text t,
  length-padded 3 t.ms,
)

pub stamp-IsCString : (t : Time) → All (λ b. (b == 0) ≡ false) (stamp t)
unfolding stamp
stamp-IsCString t =
    All-append _ (date_text t)
      (style (codes "1;30") ++ ((b'.' ∷ padded 3 t.ms) ++ (clear ++ codes "] ")))
      (no_nul (date_text t) (date_text-IsText t))
      (
        refl,
        (
          refl,
          (
            refl,
            (
              refl,
              (
                refl,
                (
                  refl,
                  (
                    refl,
                    (
                      refl,
                      All-append _ (padded 3 t.ms) (clear ++ codes "] ")
                          (no_nul (padded 3 t.ms) (padded-IsText 3 t.ms))
                          (refl, (refl, (refl, (refl, (refl, (refl, tt)))))),
                    ),
                  ),
                ),
              ),
            ),
          ),
        ),
      )
