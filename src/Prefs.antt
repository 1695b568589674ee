-- ===== src/Prefs.antt =====
-- apps/ui/src/lib/prefs.ts: the preferences the client keeps in the browser's local storage. The storage
-- is an interface: `get_item` is `getItem`, with `none` for null and for an exception, and `set_item` is
-- `setItem`, with `none` for an exception.
use tethra.Base.{
  Bool, List, Option, Text, [], codes, false, if◌then◌else◌, none, not, some, text_eq, trim, true,
  ℕ, ◌&&◌, ◌||◌, ◌∷◌, ◌≡◌,
}
pub mod IdleLock
pub mod Numeric
pub mod RoundTrip
pub mod Ranges
pub mod Tests

pub record LocalStorage : Type 1 where
  pub Store : Type 0
  pub get_item : Store → Text → Option Text
  pub set_item : Store → Text → Text → Option Store
  pub get_item-same :
      (s t : Store) (key value : Text) → set_item s key value ≡ some t → get_item t key ≡ some value
  pub get_item-other :
      (s t : Store) (key other value : Text)
      → set_item s key value ≡ some t
      → text_eq key other ≡ false
      → get_item t other ≡ get_item s other

pub data LandingPref : Type 0 where
  launcher workspace : LandingPref

pub data MaterialPref : Type 0 where
  opaque vibrant custom acrylic : MaterialPref

pub data CursorStylePref : Type 0 where
  block_cursor underline bar : CursorStylePref

abbrev pub landing_text : LandingPref → Text
landing_text launcher = codes "launcher"
landing_text workspace = codes "workspace"

abbrev pub material_text : MaterialPref → Text
material_text opaque = codes "opaque"
material_text vibrant = codes "vibrant"
material_text custom = codes "custom"
material_text acrylic = codes "acrylic"

abbrev pub cursor_style_text : CursorStylePref → Text
cursor_style_text block_cursor = codes "block"
cursor_style_text underline = codes "underline"
cursor_style_text bar = codes "bar"

-- The keys.
abbrev pub landing_key : Text
landing_key = codes "tethra.landing"

abbrev pub font_size_key : Text
font_size_key = codes "tethra.terminal.fontSize"

abbrev pub font_family_key : Text
font_family_key = codes "tethra.terminal.fontFamily"

abbrev pub line_height_key : Text
line_height_key = codes "tethra.terminal.lineHeight"

abbrev pub ligatures_key : Text
ligatures_key = codes "tethra.terminal.ligatures"

abbrev pub cursor_blink_key : Text
cursor_blink_key = codes "tethra.terminal.cursorBlink"

abbrev pub cursor_style_key : Text
cursor_style_key = codes "tethra.terminal.cursorStyle"

abbrev pub scrollback_key : Text
scrollback_key = codes "tethra.terminal.scrollback"

abbrev pub copy_on_select_key : Text
copy_on_select_key = codes "tethra.terminal.copyOnSelect"

abbrev pub bell_key : Text
bell_key = codes "tethra.terminal.bell"

abbrev pub notify_waiting_key : Text
notify_waiting_key = codes "tethra.notify.waiting"

abbrev pub notify_done_key : Text
notify_done_key = codes "tethra.notify.done"

abbrev pub notify_failed_key : Text
notify_failed_key = codes "tethra.notify.failed"

abbrev pub idle_lock_secs_key : Text
idle_lock_secs_key = codes "tethra.vault.idleLockSecs"

abbrev pub material_key : Text
material_key = codes "tethra.chrome.material"

abbrev pub chrome_opacity_key : Text
chrome_opacity_key = codes "tethra.chrome.opacity"

abbrev pub terminal_opacity_key : Text
terminal_opacity_key = codes "tethra.terminal.opacity"

abbrev pub default_shell_key : Text
default_shell_key = codes "tethra.shell.default"

abbrev pub login_shell_key : Text
login_shell_key = codes "tethra.shell.login"

abbrev pub default_font_family : Text
default_font_family = codes "JetBrains Mono Variable"

abbrev pub idle_lock_options : List ℕ
idle_lock_options = 0 ∷ 300 ∷ 900 ∷ 1800 ∷ 3600 ∷ 14400 ∷ []

abbrev or_text : Option Text → Text → Text
or_text none other = other
or_text (some t) other = t

-- `text || other`.
abbrev pub unless_empty : Text → Text → Text
unless_empty [] other = other
unless_empty (c ∷ cs) other = c ∷ cs

abbrev pub is_on : Text → Bool
is_on raw = text_eq raw (codes "1") || text_eq raw (codes "true")

abbrev pub is_not_off : Text → Bool
is_not_off raw = not (text_eq raw (codes "0")) && not (text_eq raw (codes "false"))

abbrev pub on_off : Bool → Text
on_off on = if on then codes "1" else codes "0"

abbrev pub bool_of : Option Text → Bool → Bool
bool_of none fallback = fallback
bool_of (some raw) fallback = is_on raw

abbrev pub bool_unless : Option Text → Bool → Bool
bool_unless none fallback = fallback
bool_unless (some raw) fallback = is_not_off raw

abbrev pub landing_of : Option Text → LandingPref
landing_of none = launcher
landing_of (some raw) = if text_eq raw (codes "workspace") then workspace else launcher

abbrev pub cursor_style_of : Option Text → CursorStylePref
cursor_style_of none = bar
cursor_style_of (some raw) =
    if text_eq raw (codes "block")
    then block_cursor
    else if text_eq raw (codes "underline")
    then underline
    else bar

abbrev pub material_of : Option Text → MaterialPref
material_of none = opaque
material_of (some raw) =
    if text_eq raw (codes "vibrant")
    then vibrant
    else if text_eq raw (codes "custom")
    then custom
    else if text_eq raw (codes "acrylic")
    then acrylic
    else opaque

module _ (storage : LocalStorage) where
  open storage use {Store, get_item, set_item}

  unfoldable pub read_string : Text → Store → Option Text
  read_string key s = get_item s key

  abbrev kept_or : Option Store → Store → Store
  kept_or none s = s
  kept_or (some t) s = t

  unfoldable pub write_string : Text → Text → Store → Store
  write_string key value s = kept_or (set_item s key value) s

  abbrev pub read_bool : Text → Bool → Store → Bool
  read_bool key fallback s = bool_of (read_string key s) fallback

  abbrev pub get_landing_pref : Store → LandingPref
  get_landing_pref s = landing_of (read_string landing_key s)

  abbrev pub set_landing_pref : LandingPref → Store → Store
  set_landing_pref value = write_string landing_key (landing_text value)

  abbrev pub get_terminal_ligatures : Store → Bool
  get_terminal_ligatures s = bool_of (read_string ligatures_key s) false

  abbrev pub set_terminal_ligatures : Bool → Store → Store
  set_terminal_ligatures on = write_string ligatures_key (on_off on)

  abbrev pub get_terminal_cursor_blink : Store → Bool
  get_terminal_cursor_blink s = bool_unless (read_string cursor_blink_key s) true

  abbrev pub set_terminal_cursor_blink : Bool → Store → Store
  set_terminal_cursor_blink on = write_string cursor_blink_key (on_off on)

  abbrev pub get_terminal_copy_on_select : Store → Bool
  get_terminal_copy_on_select s = bool_of (read_string copy_on_select_key s) false

  abbrev pub set_terminal_copy_on_select : Bool → Store → Store
  set_terminal_copy_on_select on = write_string copy_on_select_key (on_off on)

  abbrev pub get_terminal_font_family : Store → Text
  get_terminal_font_family s =
      unless_empty (or_text (read_string font_family_key s) []) default_font_family

  abbrev pub set_terminal_font_family : Text → Store → Store
  set_terminal_font_family value =
      write_string font_family_key (unless_empty (trim value) default_font_family)

  abbrev pub get_terminal_cursor_style : Store → CursorStylePref
  get_terminal_cursor_style s = cursor_style_of (read_string cursor_style_key s)

  abbrev pub set_terminal_cursor_style : CursorStylePref → Store → Store
  set_terminal_cursor_style value = write_string cursor_style_key (cursor_style_text value)

  abbrev pub get_terminal_bell : Store → Bool
  get_terminal_bell s = bool_of (read_string bell_key s) false

  abbrev pub set_terminal_bell : Bool → Store → Store
  set_terminal_bell on = write_string bell_key (on_off on)

  abbrev pub get_notify_waiting : Store → Bool
  get_notify_waiting = read_bool notify_waiting_key true

  abbrev pub set_notify_waiting : Bool → Store → Store
  set_notify_waiting on = write_string notify_waiting_key (on_off on)

  abbrev pub get_notify_done : Store → Bool
  get_notify_done = read_bool notify_done_key false

  abbrev pub set_notify_done : Bool → Store → Store
  set_notify_done on = write_string notify_done_key (on_off on)

  abbrev pub get_notify_failed : Store → Bool
  get_notify_failed = read_bool notify_failed_key true

  abbrev pub set_notify_failed : Bool → Store → Store
  set_notify_failed on = write_string notify_failed_key (on_off on)

  abbrev pub get_default_shell : Store → Text
  get_default_shell s = or_text (read_string default_shell_key s) []

  abbrev pub set_default_shell : Text → Store → Store
  set_default_shell = write_string default_shell_key

  abbrev pub get_login_shell : Store → Bool
  get_login_shell s = bool_unless (read_string login_shell_key s) true

  abbrev pub set_login_shell : Bool → Store → Store
  set_login_shell on = write_string login_shell_key (on_off on)

  abbrev pub get_material_pref : Store → MaterialPref
  get_material_pref s = material_of (read_string material_key s)

  abbrev pub set_material_pref : MaterialPref → Store → Store
  set_material_pref value = write_string material_key (material_text value)
