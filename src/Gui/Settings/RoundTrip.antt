-- ===== src/Gui/Settings/RoundTrip.antt =====
-- The settings saved and loaded.
use wii_sec_u.Base.{
  ℕ, ◌-◌, ◌+◌, ◌<◌, ◌≤◌, ◌≡◌, refl, ap, ◌∙◌, List, [], ◌∷◌, ◌++◌, some, length, take, take_all,
  ◌==◌, ◌||◌, Bool, false, arith, length-append,
}
use wii_sec_u.Base.All.{All-imp}
use wii_sec_u.Base.Text.{codes}
use wii_sec_u.Base.CString.{
  until, c_string, fgets_lines, IsFree, until_free, until-append, fgets_lines-line,
}
use wii_sec_u.Gui.Settings.{
  AppSettings, apply_line, apply_lines, is_line_end, load_app_settings, save_app_settings,
}

-- A character that a text field can hold.
abbrev pub is_break : ℕ → Bool
is_break c = c == 0 || is_line_end c

-- A text that fits in a field of `size` characters.
pub record FitsField (size : ℕ) (v : List ℕ) : Type 0 where
  pub plain : IsFree is_break v
  pub short : length v ≤ size - 1

pub record AllFit (s : AppSettings) : Type 0 where
  pub console_fits : FitsField 64 s.console_ip
  pub host_fits : FitsField 64 s.host_addr
  pub name_fits : FitsField 32 s.player_name

no_nul : (c : ℕ) → is_break c ≡ false → (c == 0) ≡ false
no_nul c h = ground arith

no_line_end : (c : ℕ) → is_break c ≡ false → is_line_end c ≡ false
no_line_end c h = ground arith

no_newline : (c : ℕ) → is_break c ≡ false → (c == 10) ≡ false
no_newline c h = ground arith

IsFree-append : (p : ℕ → Bool) (xs ys : List ℕ) → IsFree p xs → IsFree p ys → IsFree p (xs ++ ys)
IsFree-append p [] ys h k = k
IsFree-append p (x ∷ xs) ys (h, hs) k = (h, IsFree-append p xs ys hs k)

module _ (size : ℕ) (v : List ℕ) (f : FitsField size v) where
  line_whole : c_string (v ++ (10 ∷ [])) ≡ v ++ (10 ∷ [])
  line_whole =
      until_free (λ c. c == 0) (v ++ (10 ∷ []))
        (IsFree-append (λ c. c == 0) v (10 ∷ []) (All-imp v no_nul f.plain) (refl, tt))

  value_cut : until is_line_end (v ++ (10 ∷ [])) ≡ v
  value_cut = until-append is_line_end v 10 [] (All-imp v no_line_end f.plain) refl

  value_copied : take (size - 1) v ≡ v
  value_copied = take_all v (size - 1) f.short

apply_line-console :
    (v : List ℕ) (s : AppSettings)
    → FitsField 64 v
    → apply_line (codes "console=" ++ (v ++ (10 ∷ []))) s ≡ record s { console_ip = v }
unfolding apply_line
apply_line-console v s f =
    rw (line_whole 64 v f, apply_line) (rw (value_cut 64 v f) (rw (value_copied 64 v f) refl))

apply_line-host :
    (v : List ℕ) (s : AppSettings)
    → FitsField 64 v
    → apply_line (codes "host=" ++ (v ++ (10 ∷ []))) s ≡ record s { host_addr = v }
unfolding apply_line
apply_line-host v s f =
    rw (line_whole 64 v f, apply_line) (rw (value_cut 64 v f) (rw (value_copied 64 v f) refl))

apply_line-name :
    (v : List ℕ) (s : AppSettings)
    → FitsField 32 v
    → apply_line (codes "name=" ++ (v ++ (10 ∷ []))) s ≡ record s { player_name = v }
unfolding apply_line
apply_line-name v s f =
    rw (line_whole 32 v f, apply_line) (rw (value_cut 32 v f) (rw (value_copied 32 v f) refl))

-- The first line of a file that starts with a key and a text that fits.
line_read :
    (size : ℕ) (key v rest : List ℕ)
    → FitsField size v
    → IsFree (λ c. c == 10) key
    → length key + size ≤ 80
    → 0 < size
    → fgets_lines 159 159 ((key ++ v) ++ (10 ∷ rest))
      ≡ ((key ++ v) ++ (10 ∷ [])) ∷ fgets_lines 159 159 rest
line_read size key v rest f k b p =
    fgets_lines-line 159 159 (key ++ v) rest
      (IsFree-append (λ c. c == 10) key v k (All-imp v no_newline f.plain))
      (omega (arith, length-append key v, f.short))

-- What is saved is loaded, whatever the settings were before: three texts that fit in their fields, of
-- any characters but NUL and the two that end a line, `=` and `#` among them.
pub load_app_settings-save_app_settings :
    (s t : AppSettings) → AllFit s → load_app_settings (some (save_app_settings s)) t ≡ s
unfolding load_app_settings save_app_settings apply_lines
load_app_settings-save_app_settings s t f =
    let names : List ℕ = codes "name=" ++ (s.player_name ++ (10 ∷ [])) in
    let hosts : List ℕ = codes "host=" ++ (s.host_addr ++ (10 ∷ names)) in
    let first =
      line_read 64 (codes "console=") s.console_ip hosts f.console_fits
        (refl, (refl, (refl, (refl, (refl, (refl, (refl, (refl, tt)))))))) (omega arith)
        (omega arith) in
    let second =
      line_read 64 (codes "host=") s.host_addr names f.host_fits
        (refl, (refl, (refl, (refl, (refl, tt))))) (omega arith) (omega arith) in
    let third =
      line_read 32 (codes "name=") s.player_name [] f.name_fits
        (refl, (refl, (refl, (refl, (refl, tt))))) (omega arith) (omega arith) in
    let console_line : List ℕ = codes "console=" ++ (s.console_ip ++ (10 ∷ [])) in
    let host_line : List ℕ = codes "host=" ++ (s.host_addr ++ (10 ∷ [])) in
    let name_line : List ℕ = codes "name=" ++ (s.player_name ++ (10 ∷ [])) in
    let lines = first ∙ ap (◌∷◌ console_line) (second ∙ ap (◌∷◌ host_line) third) in
    let t1 : AppSettings = record t { console_ip = s.console_ip } in
    let t2 : AppSettings = record t1 { host_addr = s.host_addr } in
    ap (λ ls. apply_lines ls t) lines
    ∙ (ap (λ u. apply_line name_line (apply_line host_line u))
          (apply_line-console s.console_ip t f.console_fits)
        ∙ (ap (apply_line name_line) (apply_line-host s.host_addr t1 f.host_fits)
            ∙ apply_line-name s.player_name t2 f.name_fits))
