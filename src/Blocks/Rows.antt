-- ===== src/Blocks/Rows.antt =====
-- apps/ui/src/terminal/blocks.ts: how a row of the terminal is read: whether it shows a prompt, and the
-- command behind the prompt. A capture `(.*)$` behind an expression is what the first of its matches
-- leaves that has no line end in it.
use tethra.Base.{
  Bool, List, Option, Text, [], all, any, codes, cons_head, drop, false, filter, find?,
  if◌then◌else◌, includes_unit, is_empty, is_some, is_space, leb, length, ltb, none, not, some,
  starts_with, suc, take, text_eq, trim, trim_end, trim_start, true, ℕ, ◌&&◌, ◌++◌, ◌==◌, ◌||◌, ◌∷◌,
}
use tethra.Regex.{
  Regex, alt, at_end, few, is_digit, is_letter, is_not_newline, is_word, lit, many, one_of, opt,
  rest_of, rests, seq, some_of, test, test_start,
}

abbrev pub among : Text → ℕ → Bool
among cs c = any (λ d. c == d) cs

abbrev pub prompt_glyphs : Text
prompt_glyphs = codes "$#%>❯➢➤›»⟩〉➜⇒→▶"

-- `PS1_END_CHARS`.
abbrev pub ps1_end_chars : Text
ps1_end_chars = prompt_glyphs ++ codes "↵"

abbrev pub ornaments : Text
ornaments = codes "·•∙▲▶►▸☛➢✩★◆◇○●"

abbrev pub space : Regex
space = one_of is_space

abbrev pub non_space : Regex
non_space = one_of (λ c. not (is_space c))

abbrev pub is_name_unit : ℕ → Bool
is_name_unit c = is_word c || c == b'.' || c == b'-'

-- `[\w.-]+@[\w.-]+`.
abbrev pub user_host : Regex
user_host = seq (some_of (one_of is_name_unit)) (seq (lit b'@') (some_of (one_of is_name_unit)))

-- `~(?:\/\S*)?`.
abbrev pub home_path : Regex
home_path = seq (lit b'~') (opt (seq (lit b'/') (many non_space)))

abbrev pub glyph : Regex
glyph = one_of (among prompt_glyphs)

abbrev pub has_ps1_end : Text → Bool
has_ps1_end s = any (among ps1_end_chars) s

-- `replace(/^r/, "")`.
abbrev pub or_whole : Option Text → Text → Text
or_whole none s = s
or_whole (some t) s = t

unfoldable pub strip_ornaments : Text → Text
strip_ornaments raw =
    trim_start (or_whole (rest_of (seq (one_of (among ornaments)) (many space)) raw) raw)

-- `split(/\s+/).filter(Boolean)`, by splitting at every space, and the length of `split(/\s+/)`.
abbrev pub split_tokens : Text → List Text
split_tokens [] = [] ∷ []
split_tokens (c ∷ cs) =
    let rest = split_tokens cs in if is_space c then [] ∷ rest else cons_head c rest

abbrev pub tokens : Text → List Text
tokens s = filter (λ t. not (is_empty t)) (split_tokens s)

abbrev pub space_runs : Bool → Text → ℕ
space_runs in_run [] = 0
space_runs in_run (c ∷ cs) =
    let inside = space_runs true cs in
    let outside = space_runs false cs in
    if is_space c then (if in_run then inside else suc inside) else outside

abbrev pub is_bare_unit : ℕ → Bool
is_bare_unit c = is_letter c || is_digit c || among (codes "._+-") c

unfoldable pub looks_like_directory_listing : Text → Bool
looks_like_directory_listing text =
    let ts = tokens text in
    not (ltb (length ts) 5)
    && not (any (among (codes "|;&<>(){}")) text)
    && not (any (λ t. starts_with t (codes "-") || includes_unit t b'/') ts)
    && all (λ t. all is_bare_unit t) ts

abbrev pub space_or_end : Regex
space_or_end = alt space at_end

-- `^[\w.-]+@[\w.-]+:[^\s]*[#\$]`.
abbrev pub classic_prefix : Regex
classic_prefix = seq user_host (seq (lit b':') (seq (many non_space) (one_of (among (codes "#$")))))

abbrev is_home_row : Text → Text → Bool
is_home_row t line =
    has_ps1_end t
    || test_start (seq home_path at_end) (trim line)
    || (test_start (seq home_path (seq (some_of space) non_space)) line
        && leb (suc (space_runs false line)) 6)

abbrev home_start : Regex
home_start = seq home_path (
    alt (seq (some_of space) glyph) (alt (seq (many space) at_end) (seq (some_of space) non_space)))

abbrev pub looks_like_prompt_text : Text → Bool
looks_like_prompt_text t =
    test_start (seq classic_prefix space_or_end) t
    || test_start (seq user_host (seq (many (one_of is_not_newline)) (seq glyph space_or_end))) t
    || (test_start home_start (strip_ornaments t) && is_home_row t (strip_ornaments t))
    || (test (seq glyph (seq (many space) (seq (many non_space) at_end))) t
        && (ltb (length t) 200 && has_ps1_end (take 80 t)))

unfoldable pub looks_like_prompt_line : Text → Bool
looks_like_prompt_line raw = let t = trim_end raw in not (is_empty t) && looks_like_prompt_text t

-- The capture `(.*)$` behind an expression.
abbrev pub captured : Regex → Text → Option Text
captured r s = find? (all is_not_newline) (rests r s)

abbrev pub starts_solid : Text → Bool
starts_solid [] = false
starts_solid (c ∷ cs) = not (is_space c)

-- `/~(?:\/\S*)?\s+(\S.*)$/`, anywhere.
abbrev pub home_command : Text → Option Text
home_command [] = none
home_command (c ∷ cs) =
    let later = home_command cs in
    let here =
      find? (λ t. starts_solid t && all is_not_newline t)
        (rests (seq home_path (some_of space)) (c ∷ cs)) in
    if is_some here then here else later

abbrev pub user_host_prefix : Regex
user_host_prefix =
    seq user_host
      (seq (some_of space) (seq (few (one_of (λ c. not (c == 10)))) (seq glyph (many space))))

abbrev pub path_prefix : Regex
path_prefix = seq home_path (lit b' ')

-- The cases after the first two, from the last to the first.
abbrev strip_home_command : Text → Text → Option Text → Text
strip_home_command raw line none = trim line
strip_home_command raw line (some t) = if looks_like_directory_listing t then trim line else trim t

abbrev strip_path : Text → Text → Option Text → Text
strip_path raw line none = strip_home_command raw line (home_command raw)
strip_path raw line (some t) = trim t

abbrev trim_capture : Option Text → Text → Text
trim_capture none after = trim after
trim_capture (some t) after = trim t

-- The text without what comes before the first glyph of its first 80 units, and the glyph.
abbrev after_glyph : Text → Text
after_glyph line =
    or_whole
      (rest_of
        (seq (few (one_of is_not_newline)) (seq (one_of (among ps1_end_chars)) (opt (lit b' '))))
        (take 80 line))
      (take 80 line)
    ++ drop 80 line

abbrev strip_glyph : Text → Text → Text
strip_glyph raw line =
    if has_ps1_end (take 80 line)
    then trim_capture (captured path_prefix (after_glyph line)) (after_glyph line)
    else strip_path raw line (captured path_prefix line)

abbrev strip_user_host : Text → Text → Option Text → Text
strip_user_host raw line none = strip_glyph raw line
strip_user_host raw line (some t) = trim t

abbrev pub strip_classic : Text → Text → Option Text → Text
strip_classic raw line none = strip_user_host raw line (captured user_host_prefix line)
strip_classic raw line (some t) = trim t

abbrev pub strip_line : Text → Text → Text
strip_line raw line = strip_classic raw line (captured (seq classic_prefix (many space)) line)

unfoldable pub strip_ps1 : Text → Text
strip_ps1 raw = strip_line raw (strip_ornaments (strip_ornaments raw))

unfoldable pub is_plausible_command_text : Text → Bool
is_plausible_command_text stripped =
    let t = trim stripped in
    not (is_empty t)
    && leb (length t) 160
    && not (includes_unit t 10)
    && not (text_eq t (codes "~") || text_eq t (codes ".") || text_eq t (codes ".."))
    && not (looks_like_directory_listing t)
