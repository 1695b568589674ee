-- ===== src/Prefs/IdleLock.antt =====
-- apps/ui/src/lib/prefs.ts: the idle lock.
use tethra.Prefs.Numeric.{get_idle_lock_secs, idle_lock_of, is_option, read_number}
use tethra.Base.{
  Bool-cases, Option, if-intro, if◌then◌else◌, inl, inr, ltb, none, not, some, true, ℕ, ◌&&◌, ◌≡◌,
}
use tethra.Base.Number.{Numbers, equal}
use tethra.Prefs.{LocalStorage, idle_lock_secs_key}

module _ (js : Numbers) where
  open js use {Num, lt, hundredths, round, print, parse-print, lt-hundredths}

  equal-hundredths :
      (a b : ℕ) → equal js (hundredths a) (hundredths b) ≡ (not (ltb a b) && not (ltb b a))
  equal-hundredths a b = rw (lt-hundredths a b, lt-hundredths b a)

  default-is_option : is_option js (hundredths 90000) ≡ true
  default-is_option = simp equal-hundredths

  never-is_option : is_option js (hundredths 0) ≡ true
  never-is_option = simp equal-hundredths

  option_or_default :
      (x : Num) → is_option js (if is_option js x then x else hundredths 90000) ≡ true
  option_or_default x = elim (Bool-cases (is_option js x)) [
    | inl o ↦ rw o o
    | inr o ↦ rw o default-is_option
  ]

  idle_lock_of-is_option : (raw : Option Num) → is_option js (idle_lock_of js raw) ≡ true
  idle_lock_of-is_option none = default-is_option
  idle_lock_of-is_option (some x) =
      if-intro (λ (n : Num). is_option js n ≡ true) (lt x (hundredths 0)) default-is_option
        (if-intro (λ (n : Num). is_option js n ≡ true) (equal js x (hundredths 0)) never-is_option
          (option_or_default x))

  module _ (storage : LocalStorage) where
    open storage use {Store}

    -- Whatever the storage holds, the idle lock read is one of the six options.
    pub get_idle_lock_secs-is_option :
        (s : Store) → is_option js (get_idle_lock_secs js storage s) ≡ true
    get_idle_lock_secs-is_option s =
        idle_lock_of-is_option (read_number js storage idle_lock_secs_key s)
