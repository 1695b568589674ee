-- ===== src/Blocks/Prompt.antt =====
-- The classic prompt, `user@host:path$ command`.
use tethra.Blocks.Buffer.{row_command}
use tethra.Base.StringLaws.{trim_end-append}
use tethra.Regex.Runs.{
  Same, Same-seq, Same-seq₃, many_step, many_stop, rests-not_one, rests-one, rests-run,
  rests-run_last, rests-seq_assoc,
}
use mathlib.Core.Path.{subst}
use tethra.Base.{
  Bool, List, Text, [], all, ap, arith, codes, eq_of_text_eq, false, find?, is_empty, is_some,
  is_space, length, not, refl, some, suc, sym, text_eq, trim, trim_end, trim_start, true, ℕ, ◌&&◌,
  ◌++◌, ◌==◌, ◌∙◌, ◌∷◌, ◌≡◌,
}
use tethra.Regex.{
  Regex, first_of, is_not_newline, lit, many, one_of, rests, seq, some_of, test_start,
}
use tethra.Blocks.Rows.{
  among, captured, classic_prefix, is_name_unit, looks_like_prompt_line, looks_like_prompt_text,
  non_space, ornaments, space, space_or_end, starts_solid, strip_classic, strip_line,
  strip_ornaments, strip_ps1, user_host,
}

abbrev name : Regex
name = one_of is_name_unit

abbrev mark : Regex
mark = one_of (among (codes "#$"))

-- The prefix and what follows it, bracketed to the right.
abbrev flat : Regex → Regex
flat t = seq name (
    seq (many name) (
      seq (lit b'@')
        (seq name (seq (many name) (seq (lit b':') (seq (many non_space) (seq mark t)))))))

Same-flat : (t : Regex) → Same (seq classic_prefix t) (flat t)
Same-flat t s =
    let z = seq (lit b':') (seq (many non_space) (seq mark t)) in
    let names = some_of name in
    rests-seq_assoc user_host (seq (lit b':') (seq (many non_space) mark)) t s
    ∙ Same-seq user_host (seq (seq (lit b':') (seq (many non_space) mark)) t) z
        (Same-seq₃ (lit b':') (many non_space) mark t) s
    ∙ Same-seq₃ names (lit b'@') names z s
    ∙ rests-seq_assoc name (many name) (seq (lit b'@') (seq names z)) s
    ∙ Same-seq name (seq (many name) (seq (lit b'@') (seq names z)))
        (seq (many name) (seq (lit b'@') (seq name (seq (many name) z))))
        (Same-seq (many name) (seq (lit b'@') (seq names z))
          (seq (lit b'@') (seq name (seq (many name) z)))
          (Same-seq (lit b'@') (seq names z) (seq name (seq (many name) z))
            (rests-seq_assoc name (many name) z)))
        s

pub record Prompt : Type 0 where
  pub user₀ : ℕ
  pub user : Text
  pub host₀ : ℕ
  pub host : Text
  pub path : Text
  pub end : ℕ

abbrev pub prompt_row : Prompt → Text → Text
prompt_row p command =
    p.user₀ ∷ (p.user ++ b'@' ∷ p.host₀ ∷ (p.host ++ b':' ∷ (p.path ++ p.end ∷ b' ' ∷ command)))

-- The names have letters, digits, `_`, `.` and `-`, the path no space, and the end is `#` or `$`.
abbrev pub is_classic : Prompt → Bool
is_classic p =
    is_name_unit p.user₀
    && all is_name_unit p.user
    && is_name_unit p.host₀
    && all is_name_unit p.host
    && all (λ c. not (is_space c)) p.path
    && among (codes "#$") p.end

name_not_at : (c : ℕ) → is_name_unit c ≡ true → (c == b'@') ≡ false
name_not_at c h = ground arith

name_not_colon : (c : ℕ) → is_name_unit c ≡ true → (c == b':') ≡ false
name_not_colon c h = ground arith

mark_not_space : (c : ℕ) → among (codes "#$") c ≡ true → not (is_space c) ≡ true
unfolding is_space
mark_not_space c h = ground arith

classic_rests :
    (t : Regex) (p : Prompt) (command : Text)
    → is_classic p ≡ true
    → (more : List Text) × (rests (seq classic_prefix t) (prompt_row p command)
        ≡ rests t (b' ' ∷ command) ++ more)
unfolding is_space
classic_rests t p command h =
    let paths = seq (many non_space) (seq mark t) in
    let s₁ = p.path ++ p.end ∷ b' ' ∷ command in
    let s₂ = p.host ++ b':' ∷ s₁ in
    let ends : among (codes "#$") p.end ≡ true = ground arith in
    let (more, e) =
      rests-run_last (λ c. not (is_space c)) (among (codes "#$")) t p.path p.end b' ' command
        (ground arith) (mark_not_space p.end ends) refl refl in
    (
      more,
      Same-flat t (prompt_row p command)
          ∙ rests-one is_name_unit _ p.user₀ _ (ground arith)
          ∙ rests-run is_name_unit (λ c. c == b'@') _ p.user b'@' (p.host₀ ∷ s₂) (ground arith) refl
              name_not_at
          ∙ rests-one (λ c. c == b'@') _ b'@' (p.host₀ ∷ s₂) refl
          ∙ rests-one is_name_unit _ p.host₀ s₂ (ground arith)
          ∙ rests-run is_name_unit (λ c. c == b':') _ p.host b':' s₁ (ground arith) refl
              name_not_colon
          ∙ rests-one (λ c. c == b':') paths b':' s₁ refl
          ∙ e
          ∙ ap (λ u. u ++ more) (rests-one (among (codes "#$")) t p.end (b' ' ∷ command) ends),
    )

-- A command of one line that neither starts nor ends with a space.
abbrev pub is_trimmed : Text → Bool
is_trimmed t = starts_solid t && text_eq (trim_end t) t && all is_not_newline t

space-rests :
    (command : Text)
    → starts_solid command ≡ true
    → rests (many space) (b' ' ∷ command) ≡ command ∷ (b' ' ∷ command) ∷ []
unfolding rests is_space
space-rests [] h = cc
space-rests (c ∷ cs) h =
    let solid : is_space c ≡ false = ground arith in
    many_step is_space (suc (length cs)) b' ' (c ∷ cs) refl
    ∙ rw (many_stop is_space (suc (length cs)) c cs solid) refl

captured_command :
    (p : Prompt) (command : Text)
    → is_classic p ≡ true
    → starts_solid command ≡ true
    → all is_not_newline command ≡ true
    → captured (seq classic_prefix (many space)) (prompt_row p command) ≡ some command
captured_command p command h solid line =
    let (more, e) = classic_rests (many space) p command h in
    ap (find? (all is_not_newline)) (e ∙ ap (λ ts. ts ++ more) (space-rests command solid))
    ∙ rw line refl

name_not_ornament : (c : ℕ) → is_name_unit c ≡ true → among ornaments c ≡ false
name_not_ornament c h = ground arith

pub name_not_space : (c : ℕ) → is_name_unit c ≡ true → is_space c ≡ false
unfolding is_space
name_not_space c h = ground arith

strip_ornaments_name :
    (c : ℕ) (cs : Text) → is_name_unit c ≡ true → strip_ornaments (c ∷ cs) ≡ c ∷ cs
unfolding strip_ornaments trim_start
strip_ornaments_name c cs h =
    rw
      (
        rests-not_one (among ornaments) (many space) c cs (name_not_ornament c h),
        name_not_space c h,
      )
      refl

-- The command behind a classic prompt, whatever the user, the host and the path, is read as it was typed.
strip_ps1-prompt_row :
    (p : Prompt) (command : Text)
    → is_classic p ≡ true
    → starts_solid command ≡ true
    → all is_not_newline command ≡ true
    → strip_ps1 (prompt_row p command) ≡ trim command
unfolding strip_ps1
strip_ps1-prompt_row p command h solid line =
    let row = prompt_row p command in
    let e =
      strip_ornaments_name p.user₀
        (p.user ++ b'@' ∷ p.host₀ ∷ (p.host ++ b':' ∷ (p.path ++ p.end ∷ b' ' ∷ command)))
        (ground arith) in
    ap (λ l. strip_line row (strip_ornaments l)) e
    ∙ ap (strip_line row) e
    ∙ ap (strip_classic row row) (captured_command p command h solid line)

some_first : (t : Text) (ts : List Text) → is_some (first_of (t ∷ ts)) ≡ true
some_first t ts = refl

is_classic_row :
    (p : Prompt) (command : Text)
    → is_classic p ≡ true
    → test_start (seq classic_prefix space_or_end) (prompt_row p command) ≡ true
unfolding rests is_space
is_classic_row p command h =
    let (more, e) = classic_rests space_or_end p command h in ap (λ ts. is_some (first_of ts)) e

occupied : (s : Text) (d : ℕ) (t : Text) → is_empty (s ++ d ∷ t) ≡ false
occupied [] d t = refl
occupied (c ∷ cs) d t = refl

pub solid_occupied : (t : Text) → starts_solid t ≡ true → is_empty t ≡ false
solid_occupied [] h = cc
solid_occupied (c ∷ cs) h = refl

pub trim_end-prompt_row :
    (p : Prompt) (command : Text)
    → is_empty command ≡ false
    → trim_end command ≡ command
    → trim_end (prompt_row p command) ≡ prompt_row p command
trim_end-prompt_row p command e h =
    let t = b' ' ∷ command in
    let a = trim_end-append (p.end ∷ b' ' ∷ []) command e h in
    let b = trim_end-append p.path (p.end ∷ t) refl a in
    let c = trim_end-append (b':' ∷ []) (p.path ++ p.end ∷ t) (occupied p.path p.end t) b in
    let s = b':' ∷ (p.path ++ p.end ∷ t) in
    let d = trim_end-append p.host s refl c in
    let f =
      trim_end-append (b'@' ∷ p.host₀ ∷ []) (p.host ++ s)
        (occupied p.host b':' (p.path ++ p.end ∷ t)) d in
    let g = trim_end-append p.user (b'@' ∷ p.host₀ ∷ (p.host ++ s)) refl f in
    trim_end-append (p.user₀ ∷ []) (p.user ++ b'@' ∷ p.host₀ ∷ (p.host ++ s))
      (occupied p.user b'@' (p.host₀ ∷ (p.host ++ s))) g

pub trimmed_parts :
    (t : Text)
    → is_trimmed t ≡ true
    → (starts_solid t ≡ true) × (trim_end t ≡ t) × (all is_not_newline t ≡ true)
trimmed_parts t h = (ground arith, eq_of_text_eq (trim_end t) t (ground arith), ground arith)

looks_like_prompt_line-prompt_row :
    (p : Prompt) (command : Text)
    → is_classic p ≡ true
    → is_trimmed command ≡ true
    → looks_like_prompt_line (prompt_row p command) ≡ true
unfolding looks_like_prompt_line
looks_like_prompt_line-prompt_row p command h trimmed =
    let (solid, end, line) = trimmed_parts command trimmed in
    let e = trim_end-prompt_row p command (solid_occupied command solid) end in
    subst (λ t. (not (is_empty t) && looks_like_prompt_text t) ≡ true) (sym e)
      (rw (is_classic_row p command h) refl)

pub trim_trimmed : (t : Text) → starts_solid t ≡ true → trim_end t ≡ t → trim t ≡ t
unfolding trim trim_start
trim_trimmed [] h e = cc
trim_trimmed (c ∷ cs) h e = let solid : is_space c ≡ false = ground arith in rw e (rw solid refl)

-- A command typed behind a classic prompt (`user@host:path$` or `user@host:path#`) is read back exactly,
-- and its row passes for a prompt, when the user and the host have only ASCII letters, digits, `_`,
-- `.` and `-`, at least one each, the path has no space, and the command is of one line and trimmed.
pub row_command-prompt_row :
    (p : Prompt) (command : Text)
    → is_classic p ≡ true
    → is_trimmed command ≡ true
    → (row_command (prompt_row p command) ≡ command)
      × (looks_like_prompt_line (prompt_row p command) ≡ true)
row_command-prompt_row p command h trimmed =
    let (solid, end, line) = trimmed_parts command trimmed in
    let t = trim_trimmed command solid end in
    (
      ap trim (strip_ps1-prompt_row p command h solid line ∙ t) ∙ t,
      looks_like_prompt_line-prompt_row p command h trimmed,
    )
