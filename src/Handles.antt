-- ===== src/Handles.antt =====
-- base/tools/Handle.h and what it closes: base/tools/Timer.cpp, base/io/Signals.cpp and
-- base/io/Console.cpp. A handle keeps what it was told by the calls of libuv: whether it is stopped,
-- whether `uv_close` was called for it and how often, and whether its memory is freed by the callback
-- of that call. What libuv says of the terminal is an argument.
pub mod Keys
use xmrig_nonces_heatmap.Prelude.{
  ℕ, zero, suc, ◌+◌, ℤ, pos, negsuc, Bool, true, false, ◌&&◌, not, List, [], ◌∷◌, ◌++◌, map, Option,
  none, some, ◌==◌, eq_nat, if◌then◌else◌,
}

pub record Handle : Type 0 where
  pub stopped : Bool
  pub closing : Bool
  pub closes : ℕ
  pub freed : Bool

abbrev pub handle : Handle
handle = record { stopped = false; closing = false; closes = 0; freed = false }

-- `uv_close`, whose callback deletes the handle or is null
abbrev pub uv_close : (deletes : Bool) → Handle → Handle
uv_close deletes h = record h { closing = true; closes = h.closes + 1; freed = deletes }

-- `Handle::deleteLater`
unfoldable pub delete_later : Handle → Handle
delete_later h = if h.closing then h else uv_close true h

-- `Handle::close`; the pointer may be null
unfoldable pub close : Option Handle → Option Handle
unfolding delete_later
close none = none
close (some h) = some (delete_later h)

-- `Handle::close` of a timer, a signal or a file watch, which is stopped first
unfoldable pub stop_and_close : Option Handle → Option Handle
unfolding delete_later
stop_and_close none = none
stop_and_close (some h) = some (delete_later (record h { stopped = true }))

-- `Timer`; `running` holds the timeout and the repeat of `uv_timer_start`
pub record Timer : Type 0 where
  pub m_id : ℤ
  pub m_timer : Option Handle
  pub repeat : ℕ
  pub running : Option (ℕ × ℕ)

-- the constructor without a timeout, by `init`
abbrev pub timer : Timer
timer = record { m_id = pos 0; m_timer = some handle; repeat = 0; running = none }

-- `start`
abbrev pub start : (timeout repeat : ℕ) → Timer → Timer
start timeout repeat t = record t { repeat = repeat; running = some (timeout, repeat) }

-- `setRepeat`
abbrev pub set_repeat : ℕ → Timer → Timer
set_repeat repeat t = record t { repeat = repeat }

-- `stop`
abbrev pub stop : Timer → Timer
stop t = record (set_repeat 0 t) { running = none }

-- `singleShot`
unfoldable pub single_shot : ℕ → ℤ → Timer → Timer
single_shot timeout id t = start timeout 0 (stop (record t { m_id = id }))

-- `~Timer`
unfoldable pub end_timer : Timer → Timer
unfolding stop_and_close
end_timer t = record t { m_timer = stop_and_close t.m_timer; running = none }

-- the constructor of `Signals`, with SIGUSR1
abbrev pub signals : List (Option Handle)
signals = some handle ∷ some handle ∷ some handle ∷ some handle ∷ []

-- `~Signals`
unfoldable pub end_signals : List (Option Handle) → List (Option Handle)
unfolding stop_and_close
end_signals m_signals = map stop_and_close m_signals

-- `Console`; `raw` says whether the terminal is in raw mode, `told` what the listener was told
pub record Console : Type 0 where
  pub m_tty : Option Handle
  pub raw : Bool
  pub reading : Bool
  pub told : List ℕ

-- the constructor; `supported` is `isSupported`
unfoldable pub console : (supported readable : Bool) → Console
console supported readable =
    if supported
    then record { m_tty = some handle; raw = readable; reading = readable; told = [] }
    else record { m_tty = none; raw = false; reading = false; told = [] }

-- `onRead`, with the first byte of the buffer
unfoldable pub on_read : ℤ → ℕ → Console → Console
on_read (negsuc n) byte c = record c {
  m_tty = elim c.m_tty [ none ↦ none | some h ↦ some (uv_close false h) ];
  reading = false;
}
on_read (pos nread) byte c = if nread == 1 then record c { told = c.told ++ byte ∷ [] } else c

-- `~Console`
unfoldable pub end_console : Console → Console
unfolding close
end_console c = record c { m_tty = close c.m_tty; raw = false; reading = false }
