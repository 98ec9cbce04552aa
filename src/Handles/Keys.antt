-- ===== src/Handles/Keys.antt =====
-- A console from its start to its end.
use xmrig_nonces_heatmap.Prelude.{
  ℕ, ◌≡◌, refl, sym, ap, ◌∙◌, inl, inr, pos, negsuc, Bool, true, false, not, List, [], ◌∷◌, ◌++◌,
  Option, none, some, append-nil, append_assoc, Bool-cases, ◌==◌, eq_nat, if◌then◌else◌,
}
use xmrig_nonces_heatmap.Handles.{
  Handle, handle, uv_close, Console, console, on_read, end_console, close, delete_later,
}

-- the calls of `onRead`: libuv reads nothing more after an error, which ends the list
pub data Input : Type 0 where
  open' : List (ℕ × ℕ) → Input
  failed : List (ℕ × ℕ) → (error : ℕ) → Input

-- reads of so many bytes, and the first byte
unfoldable pub read_all : List (ℕ × ℕ) → Console → Console
read_all [] c = c
read_all ((nread, byte) ∷ reads) c = read_all reads (on_read (pos nread) byte c)

unfoldable pub run : Input → Console → Console
unfolding read_all
run (open' reads) c = read_all reads c
run (failed reads error) c = on_read (negsuc error) 0 (read_all reads c)

-- the keys among the reads
unfoldable pub keys : List (ℕ × ℕ) → List ℕ
keys [] = []
keys ((nread, byte) ∷ reads) = if nread == 1 then byte ∷ keys reads else keys reads

abbrev pub reads_of : Input → List (ℕ × ℕ)
reads_of (open' reads) = reads
reads_of (failed reads error) = reads

abbrev pub has_failed : Input → Bool
has_failed (open' reads) = false
has_failed (failed reads error) = true

one_key : ℕ → ℕ → List ℕ
one_key nread byte = if nread == 1 then byte ∷ [] else []

on_read_lem :
    (nread byte : ℕ) (c : Console)
    → ((on_read (pos nread) byte c).told ≡ c.told ++ one_key nread byte)
      × ((on_read (pos nread) byte c).m_tty ≡ c.m_tty)
unfolding on_read one_key
on_read_lem nread byte c = elim (Bool-cases (nread == 1)) [
  | inl one ↦ rw (on_read, one_key, one) (refl, refl)
  | inr other ↦ rw (on_read, one_key, other) (sym (append-nil c.told), refl)
]

keys_lem :
    (nread byte : ℕ) (reads : List (ℕ × ℕ))
    → keys ((nread, byte) ∷ reads) ≡ one_key nread byte ++ keys reads
unfolding keys one_key
keys_lem nread byte reads = elim (Bool-cases (nread == 1)) [
  | inl one ↦ rw (keys, one_key, one) refl
  | inr other ↦ rw (keys, one_key, other) refl
]

read_all_lem :
    (reads : List (ℕ × ℕ)) (c : Console)
    → ((read_all reads c).told ≡ c.told ++ keys reads) × ((read_all reads c).m_tty ≡ c.m_tty)
unfolding read_all keys
read_all_lem [] c = (sym (append-nil c.told), refl)
read_all_lem ((nread, byte) ∷ reads) c =
    let (t, m) = read_all_lem reads (on_read (pos nread) byte c) in
    let (told, tty) = on_read_lem nread byte c in
    (
      t
          ∙ ap (λ s. s ++ keys reads) told
          ∙ append_assoc c.told (one_key nread byte) (keys reads)
          ∙ ap (λ s. c.told ++ s) (sym (keys_lem nread byte reads)),
      m ∙ tty,
    )

-- what `onRead` does to the terminal at an error
abbrev after_error : Option Handle → Option Handle
after_error tty = elim tty [ none ↦ none | some h ↦ some (uv_close false h) ]

-- A console of a terminal that can be read tells its listener the bytes that it read one at a time,
-- in their order. At its end the terminal is closed exactly once and out of raw mode, and its memory
-- is freed exactly where no read has failed.
pub end_console-run :
    (i : Input)
    → ((end_console (run i (console true true))).told ≡ keys (reads_of i))
      × ((end_console (run i (console true true))).m_tty
          ≡ some
              (record { stopped = false; closing = true; closes = 1; freed = not (has_failed i) }))
      × ((end_console (run i (console true true))).raw ≡ false)
unfolding run on_read end_console close delete_later console
end_console-run (open' reads) =
    let (t, m) =
      read_all_lem reads (record { m_tty = some handle; raw = true; reading = true; told = [] }) in
    (t, ap close m, refl)
end_console-run (failed reads error) =
    let (t, m) =
      read_all_lem reads (record { m_tty = some handle; raw = true; reading = true; told = [] }) in
    (t, ap (λ tty. close (after_error tty)) m, refl)
