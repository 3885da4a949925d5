-- ===== src/Gui/Settings.antt =====
-- pc/src/gui/gui_app.cpp: loadSettings and saveSettings. A text is the list of its characters' codes, and
-- the file the list of its bytes.
pub mod RoundTrip
use wii_sec_u.Base.{
  ℕ, suc, ◌-◌, Bool, ◌||◌, List, [], ◌∷◌, ◌++◌, Option, none, some, take, ◌==◌, if◌then◌else◌,
}
use wii_sec_u.Base.Text.{codes, same_text}
use wii_sec_u.Base.CString.{until, c_string, split_at, fgets_lines}

-- consoleIp_, hostAddr_ and playerName_
pub record AppSettings : Type 0 where
  pub console_ip : List ℕ
  pub host_addr : List ℕ
  pub player_name : List ℕ

-- `snprintf(to, size, "%s", value)`
abbrev pub copied : ℕ → List ℕ → List ℕ
copied size value = take (size - 1) value

-- A line with a known key.
unfoldable pub apply_setting : List ℕ → List ℕ → AppSettings → AppSettings
apply_setting key value s =
    if same_text key (codes "console")
    then record s { console_ip = copied 64 value }
    else if same_text key (codes "host")
    then record s { host_addr = copied 64 value }
    else if same_text key (codes "name")
    then record s { player_name = copied 32 value }
    else s

abbrev pub is_line_end : ℕ → Bool
is_line_end c = c == 13 || c == 10

-- The body of the loop.
unfoldable pub apply_line : List ℕ → AppSettings → AppSettings
unfolding apply_setting
apply_line line s = elim (split_at 61 (c_string line)) [
  | none ↦ s
  | some (key, value) ↦ apply_setting key (until is_line_end value) s
]

unfoldable pub apply_lines : List (List ℕ) → AppSettings → AppSettings
unfolding apply_line
apply_lines [] s = s
apply_lines (l ∷ ls) s = apply_lines ls (apply_line l s)

-- loadSettings; `none` stands for a file that does not open.
unfoldable pub load_app_settings : Option (List ℕ) → AppSettings → AppSettings
unfolding apply_lines
load_app_settings none s = s
load_app_settings (some file) s = apply_lines (fgets_lines 159 159 file) s

-- What saveSettings writes.
unfoldable pub save_app_settings : AppSettings → List ℕ
save_app_settings s =
    codes "console="
    ++ (s.console_ip
        ++ (10 ∷ codes "host="
            ++ (s.host_addr ++ (10 ∷ codes "name=" ++ (s.player_name ++ (10 ∷ []))))))
