-- ===== src/Logger.antt =====
-- The static part of base/io/log/Log.cpp, and the console behind it, backends/ConsoleLog.cpp on
-- Linux: backends come, print and go. What libuv says of the terminal is an argument; `closed` counts
-- the terminals that were handed to `Handle::close`, `written` is what went to stdout.
pub mod Printed
use xmrig_nonces_heatmap.Prelude.{
  ℕ, ◌+◌, Bool, true, false, Bytes, List, [], ◌∷◌, ◌++◌, Option, none, some, length, if◌then◌else◌,
}
use xmrig_nonces_heatmap.Log
use xmrig_nonces_heatmap.Log.{Level, Time, Output, backend, stdout, console_print}

-- `m_tty` says whether the pointer is not null
pub record ConsoleLog : Type 0 where
  pub m_tty : Bool

-- the static members of `Log`; `d` is `none` after `destroy`, else its backends
pub record Logger : Type 0 where
  pub d : Option (List ConsoleLog)
  pub m_background : Bool
  pub m_colors : Bool
  pub m_verbose : ℕ
  pub closed : ℕ
  pub written : Bytes

-- their initial values
abbrev pub logger : Logger
logger = record {
  d = some [];
  m_background = false;
  m_colors = true;
  m_verbose = 0;
  closed = 0;
  written = [];
}

-- the constructor of ConsoleLog; `supported` is `isSupported`, `has_tty` that `uv_tty_init` succeeds
unfoldable pub console_log : (supported has_tty : Bool) → Logger → ConsoleLog × Logger
console_log supported has_tty l =
    if supported
    then (record { m_tty = true }, if has_tty then l else record l { m_colors = false })
    else (record { m_tty = false }, record l { m_colors = false })

-- `add`
unfoldable pub add : ConsoleLog → Logger → Logger
add b l = elim l.d [ none ↦ l | some bs ↦ record l { d = some (bs ++ b ∷ []) } ]

-- the loop of `~LogPrivate`: each terminal is closed
unfoldable pub terminals : List ConsoleLog → ℕ
terminals [] = 0
terminals (b ∷ bs) = (if b.m_tty then 1 else 0) + terminals bs

-- `destroy`
unfoldable pub destroy : Logger → Logger
unfolding terminals
destroy l = elim l.d [
  | none ↦ l
  | some bs ↦ record l { d = none; closed = l.closed + terminals bs }
]

-- the calls of the backends, two for each, or what goes to stdout without one
unfoldable pub shown : Bool → List ConsoleLog → List Output → Bytes
shown colors [] [] = []
shown colors [] (o ∷ os) = console_print true colors o ++ shown colors [] os
shown colors (b ∷ bs) [] = []
shown colors (b ∷ bs) (o ∷ []) = console_print b.m_tty colors o
shown colors (b ∷ bs) (o ∷ p ∷ os) =
    console_print b.m_tty colors o ++ (console_print b.m_tty colors p ++ shown colors bs os)

-- `print`; `buf` is what the buffer held before
unfoldable pub print : Level → Time → Option Bytes → Bytes → Logger → Option Logger
unfolding shown
print level t text buf l = elim l.d [
  | none ↦ some l
  | some bs ↦ elim (Log.print l.m_background (length bs) level t text buf) [
    | none ↦ none
    | some outputs ↦ some (record l { written = l.written ++ shown l.m_colors bs outputs })
  ]
]
