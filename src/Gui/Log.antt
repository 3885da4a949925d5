-- ===== src/Gui/Log.antt =====
-- pc/src/util/log.h, and the log panel of pc/src/gui/gui_app.cpp. A message is what vsnprintf formats, as
-- the list of its characters' codes.
pub mod Panel
use wii_sec_u.Base.{ℕ, zero, suc, ◌-◌, Bool, List, [], ◌∷◌, ◌++◌, take, length, ltb, if◌then◌else◌}
use wii_sec_u.Base.Text.{codes}

pub data LogLevel : Type 0 where
  debug info warn error : LogLevel

abbrev pub level_number : LogLevel → ℕ
level_number debug = 0
level_number info = 1
level_number warn = 2
level_number error = 3

abbrev pub level_name : LogLevel → List ℕ
level_name debug = codes "DBG"
level_name info = codes "INF"
level_name warn = codes "WRN"
level_name error = codes "ERR"

-- logThreshold, whether logSink is guiLogSink, gLogLines, and what has gone to stderr.
pub record Logger : Type 0 where
  pub threshold : LogLevel
  pub has_log_sink : Bool
  pub panel : List (List ℕ)
  pub printed : List (List ℕ)

abbrev pub log_lines_max : ℕ
log_lines_max = 200

-- `while (gLogLines.size() > 200) gLogLines.pop_front()`
unfoldable pub pop_old {ℓ} : {A : Type ℓ} → ℕ → List A → List A
pop_old most [] = []
pop_old most (l ∷ ls) =
    let rest = pop_old most ls in if ltb most (length (l ∷ ls)) then rest else l ∷ ls

unfoldable pub gui_log_sink : List ℕ → List (List ℕ) → List (List ℕ)
unfolding pop_old
gui_log_sink line ls = pop_old log_lines_max (ls ++ (line ∷ []))

-- The line of a message, from buffers of 512 and 600 characters.
abbrev pub log_line : LogLevel → List ℕ → List ℕ → List ℕ
log_line level tag message =
    take 599
      (codes "[" ++ (level_name level ++ (codes "] " ++ (tag ++ (codes ": " ++ take 511 message)))))

unfoldable pub logv : LogLevel → List ℕ → List ℕ → Logger → Logger
unfolding gui_log_sink
logv level tag message s =
    if ltb (level_number level) (level_number s.threshold) then s else record s {
      printed = s.printed ++ (log_line level tag message ∷ []);
      panel = if s.has_log_sink then gui_log_sink (log_line level tag message) s.panel else s.panel;
    }
