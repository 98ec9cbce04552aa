-- ===== src/Log/Lines.antt =====
-- What the readers of the log see of a message.
use xmrig_nonces_heatmap.Prelude.{
  ℕ, zero, suc, ◌+◌, ◌-◌, ◌≡◌, refl, sym, ap, ◌∙◌, subst, false, Bytes, [], ◌∷◌, ◌++◌, some, ◌==◌,
  eq_nat, if◌then◌else◌, ltb, length, take, All, All-append, arith, Bool-cases, inl, inr,
  append_assoc, min,
}
use xmrig_nonces_heatmap.String
use xmrig_nonces_heatmap.Log.{Level, is_no_level, max_buffer_size, clear, Time, room, compose}
use xmrig_nonces_heatmap.Log.Stamp.{stamp-IsCString}
use xmrig_nonces_heatmap.Log.Writes.{Holds}
use xmrig_nonces_heatmap.Log.Compose.{
  time_text, code_text, line_end, body, colour_bound, compose-IsComposed,
}

-- a text that a C string can hold
abbrev pub IsCString : Bytes → Type 0
IsCString s = All (λ b. (b == 0) ≡ false) s

c_str-append : (s t : Bytes) → IsCString s → String.c_str (s ++ 0 ∷ t) ≡ s
unfolding String.c_str
c_str-append [] t h = refl
c_str-append (b ∷ s) t (hb, h) = ground (arith, c_str-append s t h)

time-IsCString : (level : Level) (t : Time) → IsCString (time_text level t)
time-IsCString level t = elim (Bool-cases (is_no_level level)) [
  | inl e ↦ rw e tt
  | inr e ↦ rw e (stamp-IsCString t)
]

take-IsCString : (n : ℕ) (s : Bytes) → IsCString s → IsCString (take n s)
take-IsCString zero s h = tt
take-IsCString (suc n) [] h = tt
take-IsCString (suc n) (b ∷ s) (hb, h) = (hb, take-IsCString n s h)

-- the line of a message that fits, or what is left of one that does not
abbrev pub shown : ℕ → Bytes → Bytes
shown limit text =
    if ltb (length text) limit then text ++ (clear ++ 10 ∷ []) else take (limit - 1) text

c_str-Holds :
    (s buf : Bytes) (r : Bytes) → IsCString s → Holds (s ++ 0 ∷ r) buf → String.c_str buf ≡ s
c_str-Holds s buf r h held =
    ap String.c_str (held.split ∙ append_assoc s (0 ∷ r) held.rest)
    ∙ c_str-append s (r ++ held.rest) h

-- the NUL behind what is shown
body-shown :
    (limit : ℕ) (head text : Bytes)
    → IsCString head
    → IsCString text
    → (r : Bytes) × (head ++ body limit text ≡ (head ++ shown limit text) ++ 0 ∷ r)
      × IsCString (head ++ shown limit text)
body-shown limit head text hh ht = elim (Bool-cases (ltb (length text) limit)) [
  | inl short ↦ rw short (
    [],
    simp (append_assoc),
    All-append _ head (text ++ (clear ++ 10 ∷ [])) hh
        (All-append _ text (clear ++ 10 ∷ []) ht (refl, (refl, (refl, (refl, (refl, tt)))))),
  )
  | inr long ↦ rw long (
    line_end,
    sym (append_assoc head (take (limit - 1) text) (0 ∷ line_end)),
    All-append _ head (take (limit - 1) text) hh (take-IsCString (limit - 1) text ht),
  )
]

-- Whatever a message is, `print` writes inside its buffer of 16 KiB only. What a reader of the
-- buffer sees is the time, the colour of the level and the message with the line end behind it. A
-- message that has no room, with 32 bytes and the time taken off the buffer, is cut, and its line
-- end is not seen. A message with the level NONE has no time, and it and one with INFO no colour.
pub compose-shown :
    (level : Level) (t : Time) (text buf : Bytes)
    → length buf ≡ max_buffer_size
    → IsCString text
    → (m_buf : Bytes) × (compose level t text buf
        ≡ some (record {
          offset = length (time_text level t);
          size =
              length (time_text level t ++ code_text level)
              + min (length text) (room (length (time_text level t)))
              + 5;
          m_buf = m_buf;
        }))
      × (String.c_str m_buf
          ≡ (time_text level t ++ code_text level)
            ++ shown (room (length (time_text level t))) text)
compose-shown level t text buf whole h =
    let head = time_text level t ++ code_text level in
    let limit = room (length (time_text level t)) in
    let c = compose-IsComposed level t text buf whole in
    let head_text : IsCString head =
      All-append _ (time_text level t) (code_text level) (time-IsCString level t)
        (colour_bound level).1 in
    let (r, split, seen) = body-shown limit head text head_text h in
    (
      c.m_buf,
      c.result,
      c_str-Holds (head ++ shown limit text) c.m_buf r seen
          (subst (λ l. Holds l c.m_buf) split c.holds),
    )
