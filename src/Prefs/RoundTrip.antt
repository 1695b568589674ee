-- ===== src/Prefs/RoundTrip.antt =====
-- apps/ui/src/lib/prefs.ts: what a preference reads as after it has been set.
use tethra.Base.{Bool, Text, false, refl, some, text_eq, true, ◌≡◌}
use tethra.Prefs.{
  CursorStylePref, LandingPref, LocalStorage, MaterialPref, acrylic, bar, bell_key, block_cursor,
  bool_of, bool_unless, copy_on_select_key, cursor_blink_key, cursor_style_key, cursor_style_of,
  cursor_style_text, custom, default_shell_key, get_default_shell, get_landing_pref,
  get_login_shell, get_material_pref, get_notify_done, get_notify_failed, get_notify_waiting,
  get_terminal_bell, get_terminal_copy_on_select, get_terminal_cursor_blink,
  get_terminal_cursor_style, get_terminal_ligatures, landing_key, landing_of, landing_text,
  launcher, ligatures_key, login_shell_key, material_key, material_of, material_text,
  notify_done_key, notify_failed_key, notify_waiting_key, on_off, opaque, read_string,
  set_default_shell, set_landing_pref, set_login_shell, set_material_pref, set_notify_done,
  set_notify_failed, set_notify_waiting, set_terminal_bell, set_terminal_copy_on_select,
  set_terminal_cursor_blink, set_terminal_cursor_style, set_terminal_ligatures, underline, vibrant,
  workspace, write_string,
}

module _ (storage : LocalStorage) where
  open storage use {Store, set_item, get_item-same, get_item-other}

  -- The storage keeps what is written to it (it throws in private mode).
  abbrev pub Writable : Type 0
  Writable = (s : Store) (key value : Text) → (t : Store) × (set_item s key value ≡ some t)

  pub read_string-write_string :
      (s : Store) (key value : Text)
      → Writable
      → read_string storage key (write_string storage key value s) ≡ some value
  unfolding read_string write_string
  read_string-write_string s key value w =
      let (t, e) = w s key value in rw e (get_item-same s t key value e)

  pub read_string-other :
      (s : Store) (key other value : Text)
      → Writable
      → text_eq key other ≡ false
      → read_string storage other (write_string storage key value s) ≡ read_string storage other s
  unfolding read_string write_string
  read_string-other s key other value w d =
      let (t, e) = w s key value in rw e (get_item-other s t key other value e d)

  bool_of-on_off : (on fallback : Bool) → bool_of (some (on_off on)) fallback ≡ on
  unfolding text_eq
  bool_of-on_off true fallback = refl
  bool_of-on_off false fallback = refl

  bool_unless-on_off : (on fallback : Bool) → bool_unless (some (on_off on)) fallback ≡ on
  unfolding text_eq
  bool_unless-on_off true fallback = refl
  bool_unless-on_off false fallback = refl

  -- A switch that has been set reads as it was set: each of the eight.
  pub switches-set :
      (s : Store) (on : Bool)
      → Writable
      → (get_terminal_ligatures storage (set_terminal_ligatures storage on s) ≡ on)
        × (get_terminal_cursor_blink storage (set_terminal_cursor_blink storage on s) ≡ on)
        × (get_terminal_copy_on_select storage (set_terminal_copy_on_select storage on s) ≡ on)
        × (get_terminal_bell storage (set_terminal_bell storage on s) ≡ on)
        × (get_notify_waiting storage (set_notify_waiting storage on s) ≡ on)
        × (get_notify_done storage (set_notify_done storage on s) ≡ on)
        × (get_notify_failed storage (set_notify_failed storage on s) ≡ on)
        × (get_login_shell storage (set_login_shell storage on s) ≡ on)
  switches-set s on w = (
    rw (read_string-write_string s ligatures_key (on_off on) w) (bool_of-on_off on false),
    rw (read_string-write_string s cursor_blink_key (on_off on) w) (bool_unless-on_off on true),
    rw (read_string-write_string s copy_on_select_key (on_off on) w) (bool_of-on_off on false),
    rw (read_string-write_string s bell_key (on_off on) w) (bool_of-on_off on false),
    rw (read_string-write_string s notify_waiting_key (on_off on) w) (bool_of-on_off on true),
    rw (read_string-write_string s notify_done_key (on_off on) w) (bool_of-on_off on false),
    rw (read_string-write_string s notify_failed_key (on_off on) w) (bool_of-on_off on true),
    rw (read_string-write_string s login_shell_key (on_off on) w) (bool_unless-on_off on true),
  )

  landing_of-text : (v : LandingPref) → landing_of (some (landing_text v)) ≡ v
  unfolding text_eq
  landing_of-text launcher = refl
  landing_of-text workspace = refl

  cursor_style_of-text : (v : CursorStylePref) → cursor_style_of (some (cursor_style_text v)) ≡ v
  unfolding text_eq
  cursor_style_of-text block_cursor = refl
  cursor_style_of-text underline = refl
  cursor_style_of-text bar = refl

  material_of-text : (v : MaterialPref) → material_of (some (material_text v)) ≡ v
  unfolding text_eq
  material_of-text opaque = refl
  material_of-text vibrant = refl
  material_of-text custom = refl
  material_of-text acrylic = refl

  -- A choice that has been set reads as it was set: the landing page, the cursor's style, the material and
  -- the default shell, any text.
  pub choices-set :
      (s : Store) (landing : LandingPref) (style : CursorStylePref) (material : MaterialPref)
      (shell : Text)
      → Writable
      → (get_landing_pref storage (set_landing_pref storage landing s) ≡ landing)
        × (get_terminal_cursor_style storage (set_terminal_cursor_style storage style s) ≡ style)
        × (get_material_pref storage (set_material_pref storage material s) ≡ material)
        × (get_default_shell storage (set_default_shell storage shell s) ≡ shell)
  choices-set s landing style material shell w = (
    rw (read_string-write_string s landing_key (landing_text landing) w) (landing_of-text landing),
    rw (read_string-write_string s cursor_style_key (cursor_style_text style) w)
        (cursor_style_of-text style),
    rw (read_string-write_string s material_key (material_text material) w)
        (material_of-text material),
    rw (read_string-write_string s default_shell_key shell w) refl,
  )
