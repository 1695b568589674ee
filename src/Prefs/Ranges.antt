-- ===== src/Prefs/Ranges.antt =====
-- apps/ui/src/lib/prefs.ts: the ranges of the numeric preferences, and what they read as after they have
-- been set.
use tethra.Prefs.RoundTrip.{Writable, read_string-write_string}
use tethra.Prefs.{
  LocalStorage, chrome_opacity_key, font_size_key, line_height_key, scrollback_key,
  terminal_opacity_key, write_string,
}
use tethra.Prefs.Numeric.{
  get_chrome_opacity, get_terminal_font_size, get_terminal_line_height, get_terminal_opacity,
  get_terminal_scrollback, in_range, migrate, num_or, opacity_of, read_number, rounded,
  set_chrome_opacity, set_terminal_font_size, set_terminal_opacity, set_terminal_scrollback,
}
use tethra.Base.{
  Bool-cases, Option, Text, arith, false, if◌then◌else◌, inl, inr, ltb, none, refl, some, sym, ℕ,
  ◌*◌, ◌≡◌, ◌⊎◌,
}
use tethra.Base.Number.{Numbers, Within, clamp, clamp-Within, equal, lt_irrefl}

module _ (js : Numbers) where
  open js use {
    Num, lt, hundredths, round, round2, parse, print, lt-asymm, lt-hundredths, round-round,
    round-hundredths, round-mono, round2-mono, round2-hundredths, parse-print,
  }

  hundredths-Within :
      (lo hi n : ℕ) → ltb n lo ≡ false → ltb hi n ≡ false → Within js lo hi (hundredths n)
  hundredths-Within lo hi n l h = (rw lt-hundredths l, rw lt-hundredths h)

  round-Within :
      (lo hi : ℕ) (x : Num)
      → Within js (lo * 100) (hi * 100) x
      → Within js (lo * 100) (hi * 100) (round x)
  round-Within lo hi x (l, h) = (
    rw (sym (round-hundredths lo)) (round-mono x (hundredths (lo * 100)) l),
    rw (sym (round-hundredths hi)) (round-mono (hundredths (hi * 100)) x h),
  )

  round2-Within : (lo hi : ℕ) (x : Num) → Within js lo hi x → Within js lo hi (round2 x)
  round2-Within lo hi x (l, h) = (
    rw (sym (round2-hundredths lo)) (round2-mono x (hundredths lo) l),
    rw (sym (round2-hundredths hi)) (round2-mono (hundredths hi) x h),
  )

  round-clamp :
      (lo hi : ℕ) (x : Num)
      → round (clamp js (lo * 100) (hi * 100) (round x)) ≡ clamp js (lo * 100) (hi * 100) (round x)
  unfolding clamp
  round-clamp lo hi x = ground (arith, round-hundredths lo, round-hundredths hi, round-round x)

  clamp-Within_fixed :
      (lo hi : ℕ) (x : Num)
      → ltb hi lo ≡ false
      → clamp js lo hi (clamp js lo hi x) ≡ clamp js lo hi x
  unfolding clamp
  clamp-Within_fixed lo hi x h = ground (
    arith,
    lt_irrefl js (hundredths lo),
    lt_irrefl js (hundredths hi),
    lt-hundredths hi lo,
    lt-hundredths lo hi,
    lt-asymm (hundredths lo) x,
    lt-asymm x (hundredths hi),
  )

  -- A number outside the range counts as none.
  in_range-cases :
      (lo hi : ℕ) (raw : Option Num)
      → (in_range js lo hi raw ≡ none)
        ⊎ ((x : Num) × (in_range js lo hi raw ≡ some x) × Within js lo hi x)
  in_range-cases lo hi none = inl refl
  in_range-cases lo hi (some raw) = elim (Bool-cases (lt raw (hundredths lo))) [
    | inl e ↦ inl (rw e refl)
    | inr e ↦ elim (Bool-cases (lt (hundredths hi) raw)) [
      | inl g ↦ inl (rw (e, g) refl)
      | inr g ↦ inr (raw, rw (e, g) refl, (e, g))
    ]
  ]

  rounded-Within :
      (f : Num → Num) (lo hi other : ℕ) (raw : Option Num)
      → ((x : Num) → Within js lo hi x → Within js lo hi (f x))
      → ltb other lo ≡ false
      → ltb hi other ≡ false
      → Within js lo hi (num_or js (rounded js f (in_range js lo hi raw)) other)
  rounded-Within f lo hi other raw k l h = elim (in_range-cases lo hi raw) [
    | inl e ↦ rw e (hundredths-Within lo hi other l h)
    | inr (x, e, w) ↦ rw e (k x w)
  ]

  in_range-Within :
      (lo hi other : ℕ) (raw : Option Num)
      → ltb other lo ≡ false
      → ltb hi other ≡ false
      → Within js lo hi (num_or js (in_range js lo hi raw) other)
  in_range-Within lo hi other raw l h = elim (in_range-cases lo hi raw) [
    | inl e ↦ rw e (hundredths-Within lo hi other l h)
    | inr (x, e, w) ↦ rw e w
  ]

  in_range_fixed : (lo hi : ℕ) (x : Num) → Within js lo hi x → in_range js lo hi (some x) ≡ some x
  in_range_fixed lo hi x (l, h) = rw (l, h) refl

  opacity_of-Within :
      (raw : Option Num) (other : ℕ)
      → ltb other 8500 ≡ false
      → ltb 10000 other ≡ false
      → Within js 8500 10000 (opacity_of js raw other)
  opacity_of-Within none other l h = hundredths-Within 8500 10000 other l h
  opacity_of-Within (some x) other l h = clamp-Within js 8500 10000 (round x) refl

  opacity-fixed :
      (v : Num)
      → clamp js 8500 10000 (round (clamp js 8500 10000 (round v))) ≡ clamp js 8500 10000 (round v)
  opacity-fixed v = rw (round-clamp 85 100 v) (clamp-Within_fixed 8500 10000 (round v) refl)

  module _ (storage : LocalStorage) where
    open storage use {Store}

    -- Whatever the storage holds, the font size read is from 10 to 24, the line height from 1 to 2, the
    -- scrollback from 1,000 to 100,000, and both opacities from 85 to 100.
    pub numbers-Within :
        (s : Store)
        → Within js 1000 2400 (get_terminal_font_size js storage s)
          × Within js 100 200 (get_terminal_line_height js storage s)
          × Within js 100000 10000000 (get_terminal_scrollback js storage s)
          × Within js 8500 10000 (get_chrome_opacity js storage s)
          × Within js 8500 10000 (get_terminal_opacity js storage s)
    numbers-Within s = (
      in_range-Within 1000 2400 1250 (migrate js 1300 (read_number js storage font_size_key s)) refl
          refl,
      rounded-Within round2 100 200 100 (migrate js 125 (read_number js storage line_height_key s))
          (round2-Within 100 200) refl refl,
      rounded-Within round 100000 10000000 1000000 (read_number js storage scrollback_key s)
          (round-Within 1000 100000) refl refl,
      opacity_of-Within (read_number js storage chrome_opacity_key s) 9200 refl refl,
      opacity_of-Within (read_number js storage terminal_opacity_key s) 10000 refl refl,
    )

    read_number-write :
        (s : Store) (key : Text) (x : Num)
        → Writable storage
        → read_number js storage key (write_string storage key (print x) s) ≡ some x
    read_number-write s key x w =
        rw (read_string-write_string storage s key (print x) w) (parse-print x)

    -- After a number is set, the scrollback and the opacities read as it, rounded and brought into the
    -- range. So does the font size, unrounded, but that 13 reads as 12.5.
    pub numbers-set :
        (s : Store) (x : Num)
        → Writable storage
        → (get_terminal_font_size js storage (set_terminal_font_size js storage x s) ≡ (
            if equal js (clamp js 1000 2400 x) (hundredths 1300)
            then hundredths 1250
            else clamp js 1000 2400 x))
          × (get_terminal_scrollback js storage (set_terminal_scrollback js storage x s)
              ≡ clamp js 100000 10000000 (round x))
          × (get_chrome_opacity js storage (set_chrome_opacity js storage x s)
              ≡ clamp js 8500 10000 (round x))
          × (get_terminal_opacity js storage (set_terminal_opacity js storage x s)
              ≡ clamp js 8500 10000 (round x))
    numbers-set s x w = (
      rw (read_number-write s font_size_key (clamp js 1000 2400 x) w)
          (elim (Bool-cases (equal js (clamp js 1000 2400 x) (hundredths 1300))) [
            | inl e ↦ rw e refl
            | inr e ↦ rw e (
                rw
                  (in_range_fixed 1000 2400 (clamp js 1000 2400 x)
                    (clamp-Within js 1000 2400 x refl))
                  refl)
          ]),
      rw
          (
            read_number-write s scrollback_key (clamp js 100000 10000000 (round x)) w,
            in_range_fixed 100000 10000000 (clamp js 100000 10000000 (round x))
                (clamp-Within js 100000 10000000 (round x) refl),
          )
          (round-clamp 1000 100000 x),
      rw (read_number-write s chrome_opacity_key (clamp js 8500 10000 (round x)) w)
          (opacity-fixed x),
      rw (read_number-write s terminal_opacity_key (clamp js 8500 10000 (round x)) w)
          (opacity-fixed x),
    )
