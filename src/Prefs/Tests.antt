-- ===== src/Prefs/Tests.antt =====
-- A storage that is a list of entries, the latest first.
use tethra.Prefs.Ranges.{numbers-Within}
use tethra.Prefs.Numeric.{
  get_chrome_opacity, get_terminal_font_size, get_terminal_line_height, get_terminal_opacity,
  get_terminal_scrollback,
}
use tethra.Base.Number.{Within, centi}
use tethra.Base.{
  List, Option, Text, [], false, if◌then◌else◌, none, refl, some, text_eq, text_eq_refl, ◌∷◌, ◌≡◌,
}
use mathlib.Core.Path.{subst}
use mathlib.Core.Option.{some-injective}
use tethra.Prefs.{LocalStorage, font_size_key, scrollback_key}
use tethra.Prefs.RoundTrip.{Writable}

abbrev Entries : Type 0
Entries = List (Text × Text)

abbrev look_up : Entries → Text → Option Text
look_up [] key = none
look_up ((k, v) ∷ rest) key =
    let found = look_up rest key in if text_eq k key then some v else found

look_up-same :
    (s t : Entries) (key value : Text)
    → some ((key, value) ∷ s) ≡ some t
    → look_up t key ≡ some value
look_up-same s t key value e =
    subst (λ t. look_up t key ≡ some value) (some-injective _ _ e) (rw (text_eq_refl key) refl)

look_up-other :
    (s t : Entries) (key other value : Text)
    → some ((key, value) ∷ s) ≡ some t
    → text_eq key other ≡ false
    → look_up t other ≡ look_up s other
look_up-other s t key other value e d =
    subst (λ t. look_up t other ≡ look_up s other) (some-injective _ _ e) (rw d refl)

abbrev entries : LocalStorage
entries = record {
  Store = Entries;
  get_item = look_up;
  set_item = λ s key value. some ((key, value) ∷ s);
  get_item-same = look_up-same;
  get_item-other = look_up-other;
}

entries-Writable : Writable entries
entries-Writable s key value = ((key, value) ∷ s, refl)

abbrev stored : Entries
stored = (font_size_key, 9900 ∷ []) ∷ (scrollback_key, 250049 ∷ []) ∷ []

numbers-Within_example :
    Within centi 1000 2400 (get_terminal_font_size centi entries stored)
    × Within centi 100 200 (get_terminal_line_height centi entries stored)
    × Within centi 100000 10000000 (get_terminal_scrollback centi entries stored)
    × Within centi 8500 10000 (get_chrome_opacity centi entries stored)
    × Within centi 8500 10000 (get_terminal_opacity centi entries stored)
numbers-Within_example = numbers-Within centi entries stored
