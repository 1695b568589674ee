-- ===== src/Prefs/Numeric.antt =====
-- apps/ui/src/lib/prefs.ts: the preferences that are numbers, and `resetTerminalPrefs`. The numbers are
-- those of Base/Number: 12.5 is `hundredths 1250`.
use tethra.Base.{Bool, Option, Text, any, false, if◌then◌else◌, none, some, true, ℕ, ◌*◌, ◌||◌}
use tethra.Base.Number.{Numbers, clamp, equal, math_max}
use tethra.Prefs.{
  LocalStorage, bar, chrome_opacity_key, default_font_family, font_size_key, idle_lock_options,
  idle_lock_secs_key, line_height_key, read_string, scrollback_key, set_terminal_bell,
  set_terminal_copy_on_select, set_terminal_cursor_blink, set_terminal_cursor_style,
  set_terminal_font_family, set_terminal_ligatures, terminal_opacity_key, write_string,
}

module _ (js : Numbers) where
  open js use {Num, lt, hundredths, round, round2, parse, print}

  -- `Number(readString(key))`, or `none` where that is not finite.
  abbrev pub number_of : Option Text → Option Num
  number_of none = none
  number_of (some raw) = parse raw

  -- `!Number.isFinite(raw) || raw < lo || raw > hi`, or the number.
  abbrev pub in_range : ℕ → ℕ → Option Num → Option Num
  in_range lo hi none = none
  in_range lo hi (some raw) =
      if lt raw (hundredths lo) || lt (hundredths hi) raw then none else some raw

  abbrev pub num_or : Option Num → ℕ → Num
  num_or none other = hundredths other
  num_or (some n) other = n

  abbrev pub rounded : (Num → Num) → Option Num → Option Num
  rounded f none = none
  rounded f (some n) = some (f n)

  -- `raw === old ? none : raw`.
  abbrev pub migrate : ℕ → Option Num → Option Num
  migrate old none = none
  migrate old (some raw) = if equal js raw (hundredths old) then none else some raw

  -- `IDLE_LOCK_OPTIONS.some((option) => option.secs === raw)`.
  abbrev pub is_option : Num → Bool
  is_option raw = any (λ secs. equal js (hundredths (secs * 100)) raw) idle_lock_options

  abbrev pub idle_lock_of : Option Num → Num
  idle_lock_of none = hundredths 90000
  idle_lock_of (some raw) =
      if lt raw (hundredths 0)
      then hundredths 90000
      else if equal js raw (hundredths 0)
      then hundredths 0
      else if is_option raw
      then raw
      else hundredths 90000

  abbrev pub opacity_of : Option Num → ℕ → Num
  opacity_of none other = hundredths other
  opacity_of (some raw) other = clamp js 8500 10000 (round raw)

  module _ (storage : LocalStorage) where
    open storage use {Store}

    abbrev pub read_number : Text → Store → Option Num
    read_number key s = number_of (read_string storage key s)

    abbrev pub get_terminal_font_size : Store → Num
    get_terminal_font_size s =
        num_or (in_range 1000 2400 (migrate 1300 (read_number font_size_key s))) 1250

    abbrev pub set_terminal_font_size : Num → Store → Store
    set_terminal_font_size size =
        write_string storage font_size_key (print (clamp js 1000 2400 size))

    abbrev pub get_terminal_line_height : Store → Num
    get_terminal_line_height s =
        num_or (rounded round2 (in_range 100 200 (migrate 125 (read_number line_height_key s)))) 100

    abbrev pub set_terminal_line_height : Num → Store → Store
    set_terminal_line_height value =
        write_string storage line_height_key (print (clamp js 100 200 (round2 value)))

    abbrev pub get_terminal_scrollback : Store → Num
    get_terminal_scrollback s =
        num_or (rounded round (in_range 100000 10000000 (read_number scrollback_key s))) 1000000

    abbrev pub set_terminal_scrollback : Num → Store → Store
    set_terminal_scrollback value =
        write_string storage scrollback_key (print (clamp js 100000 10000000 (round value)))

    abbrev pub get_idle_lock_secs : Store → Num
    get_idle_lock_secs s = idle_lock_of (read_number idle_lock_secs_key s)

    abbrev pub set_idle_lock_secs : Num → Store → Store
    set_idle_lock_secs secs =
        write_string storage idle_lock_secs_key (print (math_max js (hundredths 0) (round secs)))

    abbrev pub get_chrome_opacity : Store → Num
    get_chrome_opacity s = opacity_of (read_number chrome_opacity_key s) 9200

    abbrev pub set_chrome_opacity : Num → Store → Store
    set_chrome_opacity value =
        write_string storage chrome_opacity_key (print (clamp js 8500 10000 (round value)))

    abbrev pub get_terminal_opacity : Store → Num
    get_terminal_opacity s = opacity_of (read_number terminal_opacity_key s) 10000

    abbrev pub set_terminal_opacity : Num → Store → Store
    set_terminal_opacity value =
        write_string storage terminal_opacity_key (print (clamp js 8500 10000 (round value)))

    abbrev pub reset_terminal_prefs : Store → Store
    reset_terminal_prefs s = set_terminal_bell storage false (
        set_terminal_copy_on_select storage false (
          set_terminal_scrollback (hundredths 1000000) (
            set_terminal_cursor_style storage bar (
              set_terminal_cursor_blink storage true (
                set_terminal_ligatures storage false (
                  set_terminal_line_height (hundredths 100) (
                    set_terminal_font_family storage default_font_family
                      (set_terminal_font_size (hundredths 1250) s))))))))
