-- ===== src/Launch/Script.antt =====
-- The names of multiplexer sessions, and the order of the launch script.
use tethra.Base.{
  Bool, Bool-cases, List, Option, Text, [], all, all-append, all-filter, all-take, ap, append_assoc,
  arith, codes, false, filter, if◌then◌else◌, inl, inr, join, length, length-take, ltb, refl, take,
  true, ℕ, ◌++◌, ◌∙◌, ◌∷◌, ◌≡◌, ◌≤◌,
}
use tethra.Launch.{
  LaunchOptions, agent_argv, argv_line, byok_preamble, cd_line, is_mux_unit, is_safe, is_safe_word,
  lines_or_empty, local_windows, mux_lines, mux_session_name, newline, or_shell, plain_script,
  preamble_lines, project_launch_script, script_of, shell_escape, shell_single_quote, want_mux,
}

filter-length : (p : ℕ → Bool) (xs : Text) → length (filter p xs) ≤ length xs
filter-length p [] = omega arith
filter-length p (x ∷ xs) = ground (arith, filter-length p xs)

is_mux_unit-is_safe : (s : Text) → all is_mux_unit s ≡ true → all is_safe s ≡ true
unfolding is_mux_unit is_safe
is_mux_unit-is_safe [] h = refl
is_mux_unit-is_safe (c ∷ cs) h = ground (arith, is_mux_unit-is_safe cs)

prefix-units : all is_mux_unit (codes "tethra-") ≡ true
unfolding is_mux_unit
prefix-units = refl

shell_escape-safe : (v : Text) → is_safe_word v ≡ true → shell_escape v ≡ v
unfolding shell_escape
shell_escape-safe v h = rw h

-- The name of a multiplexer session has only letters, digits, `_` and `-`, and at most 31 of them, for
-- every project id; so it needs no quoting in a shell.
pub mux_session_name_plain :
    (project_id : Text)
    → (all is_mux_unit (mux_session_name project_id) ≡ true)
      × (length (mux_session_name project_id) ≤ 31)
      × (shell_escape (mux_session_name project_id) ≡ mux_session_name project_id)
unfolding mux_session_name
mux_session_name_plain project_id =
    let kept = take 24 (filter is_mux_unit project_id) in
    let units : all is_mux_unit (codes "tethra-" ++ kept) ≡ true =
      all-append is_mux_unit (codes "tethra-") kept
      ∙ rw (prefix-units, all-take is_mux_unit 24 _ (all-filter is_mux_unit project_id)) refl in
    (
      units,
      omega (arith, length-take 24 (filter is_mux_unit project_id)),
      shell_escape-safe (codes "tethra-" ++ kept)
          (ground (arith, is_mux_unit-is_safe (codes "tethra-" ++ kept) units)),
    )

join-append :
    (sep p : Text) (ps : List Text) (q : Text) (qs : List Text)
    → join sep ((p ∷ ps) ++ q ∷ qs) ≡ join sep (p ∷ ps) ++ (sep ++ join sep (q ∷ qs))
join-append sep p [] q qs = refl
join-append sep p (r ∷ rs) q qs = simp (join-append sep r rs q qs, append_assoc)

script_of-append :
    (ps : List Text) (p q : Text) (qs : List Text)
    → script_of ((p ∷ ps) ++ q ∷ qs) ≡ join newline (p ∷ ps) ++ (newline ++ script_of (q ∷ qs))
script_of-append ps p q qs = simp (join-append newline p ps q qs, append_assoc)

byok_preamble-given :
    (o : LaunchOptions)
    → ltb 0 (length o.byok_env_path) ≡ true
    → local_windows o ≡ false
    → byok_preamble o ≡ preamble_lines o.byok_env_path
byok_preamble-given o e w = rw (e, w)

-- What stands behind the preamble.
abbrev pub body_lines : Text → LaunchOptions → List Text
body_lines tmux_conf o =
    if want_mux o
    then mux_lines tmux_conf o.remote (shell_single_quote (mux_session_name o.project_id))
        (shell_single_quote o.path) (or_shell (agent_argv o.agent))
    else if o.cwd_already_set
    then argv_line (agent_argv o.agent)
    else cd_line o.path (agent_argv o.agent) ∷ []

plain_script-cd :
    (o : LaunchOptions) (argv : Option Text)
    → local_windows o ≡ false
    → o.cwd_already_set ≡ false
    → plain_script o argv ≡ script_of (byok_preamble o ++ cd_line o.path argv ∷ [])
plain_script-cd o argv w c = rw (w, c)

plain_script-set :
    (o : LaunchOptions) (argv : Option Text)
    → local_windows o ≡ false
    → o.cwd_already_set ≡ true
    → plain_script o argv ≡ lines_or_empty (byok_preamble o ++ argv_line argv)
plain_script-set o argv w c = rw (w, c)

-- Off Windows, with an environment file, the script is the preamble and the body, a line each.
launch-eq :
    (tmux_conf : Text) (o : LaunchOptions)
    → ltb 0 (length o.byok_env_path) ≡ true
    → local_windows o ≡ false
    → project_launch_script tmux_conf o
      ≡ script_of (preamble_lines o.byok_env_path ++ body_lines tmux_conf o)
unfolding project_launch_script
launch-eq tmux_conf o e w = elim (Bool-cases (want_mux o)) [
  | inl m ↦ rw m (
      ap
        (λ t. script_of (
          t
          ++ mux_lines tmux_conf o.remote (shell_single_quote (mux_session_name o.project_id))
              (shell_single_quote o.path) (or_shell (agent_argv o.agent))))
        (byok_preamble-given o e w))
  | inr m ↦ rw m (elim (Bool-cases o.cwd_already_set) [
    | inl c ↦
        plain_script-set o (agent_argv o.agent) w c
        ∙ rw c (
            ap (λ t. lines_or_empty (t ++ argv_line (agent_argv o.agent)))
              (byok_preamble-given o e w))
    | inr c ↦
        plain_script-cd o (agent_argv o.agent) w c
        ∙ rw c (
            ap (λ t. script_of (t ++ cd_line o.path (agent_argv o.agent) ∷ []))
              (byok_preamble-given o e w))
  ])
]

preamble-first :
    (env : Text) (body : List Text)
    → script_of (preamble_lines env ++ body)
      ≡ join newline (preamble_lines env) ++ (newline ++ lines_or_empty body)
preamble-first env [] = refl
preamble-first env (l ∷ ls) =
    script_of-append
      ((codes ". " ++ shell_single_quote env)
        ∷ codes "set +a"
        ∷ (codes "rm -f " ++ shell_single_quote env)
        ∷ [])
      (codes "set -a") l ls

-- Exporting what is set, reading the file, no longer exporting, and removing the file.
abbrev pub read_and_remove : Text → List Text
read_and_remove file =
    codes "set -a" ∷ (codes ". " ++ file) ∷ codes "set +a" ∷ (codes "rm -f " ++ file) ∷ []

-- The same options without an environment file.
abbrev pub without_env : LaunchOptions → LaunchOptions
without_env o = record {
  project_id = o.project_id;
  path = o.path;
  agent = o.agent;
  remote = o.remote;
  platform = o.platform;
  mux_available = o.mux_available;
  cwd_already_set = o.cwd_already_set;
  byok_env_path = [];
}

lines_or_empty-body :
    (tmux_conf : Text) (o : LaunchOptions)
    → local_windows o ≡ false
    → lines_or_empty (body_lines tmux_conf o) ≡ project_launch_script tmux_conf (without_env o)
unfolding project_launch_script
lines_or_empty-body tmux_conf o w = elim (Bool-cases (want_mux o)) [
  | inl m ↦ rw m refl
  | inr m ↦
      rw (m, w) (elim (Bool-cases o.cwd_already_set) [ inl c ↦ rw c refl | inr c ↦ rw c refl ])
]

-- With an environment file and off Windows, every script (in a multiplexer, in a directory to change to,
-- in a directory already set) starts with the same four lines, `set -a`, `.` and the quoted path of
-- the file, `set +a`, and `rm -f` and that path, and what follows is the script of the same options without the environment file.
pub project_launch_script-preamble :
    (tmux_conf : Text) (o : LaunchOptions)
    → ltb 0 (length o.byok_env_path) ≡ true
    → local_windows o ≡ false
    → project_launch_script tmux_conf o
      ≡ join newline (read_and_remove (shell_single_quote o.byok_env_path))
        ++ (newline ++ project_launch_script tmux_conf (without_env o))
project_launch_script-preamble tmux_conf o e w =
    launch-eq tmux_conf o e w
    ∙ preamble-first o.byok_env_path (body_lines tmux_conf o)
    ∙ ap (λ t. join newline (preamble_lines o.byok_env_path) ++ (newline ++ t))
        (lines_or_empty-body tmux_conf o w)
