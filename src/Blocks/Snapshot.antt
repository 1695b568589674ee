-- ===== src/Blocks/Snapshot.antt =====
-- What every snapshot keeps to.
use tethra.Base.{
  Bool, List, Option, [], all, all-append, arith, false, if-intro, if◌then◌else◌, is_empty, is_some,
  none, not, refl, some, suc, true, zero, ℕ, ◌&&◌, ◌||◌, ◌∙◌, ◌∷◌, ◌≡◌,
}
use tethra.Blocks.Buffer.{Buffer}
use tethra.Blocks.{ActiveBlock, BlockTracker, FinishedBlock, OpenBlock, Session, ℤ}
use tethra.Blocks.Chrome.{
  BlockChromeEntry, active_entries, active_entry, finished_entries, finished_entry,
  get_block_chrome_snapshot, has_chrome, has_line, is_gone, or_line,
}

abbrev is_fresh : List ℤ → BlockChromeEntry → Bool
is_fresh seen e = not (has_line e.prompt_line seen)

abbrev pub are_apart : List BlockChromeEntry → Bool
are_apart [] = true
are_apart (e ∷ es) = all (is_fresh (e.prompt_line ∷ [])) es && are_apart es

split_fresh :
    (l : ℤ) (seen : List ℤ) (es : List BlockChromeEntry)
    → all (is_fresh (l ∷ seen)) es ≡ true
    → (all (is_fresh (l ∷ [])) es ≡ true) × (all (is_fresh seen) es ≡ true)
split_fresh l seen [] h = (refl, refl)
split_fresh l seen (e ∷ es) h = ground (arith, split_fresh l seen es)

apart_step :
    (pushed : Bool) (e : BlockChromeEntry) (seen : List ℤ) (rest : List BlockChromeEntry)
    → (pushed ≡ true → is_fresh seen e ≡ true)
    → all (is_fresh (if pushed then e.prompt_line ∷ seen else seen)) rest ≡ true
    → are_apart rest ≡ true
    → (all (is_fresh seen) (if pushed then e ∷ rest else rest) ≡ true)
      × (are_apart (if pushed then e ∷ rest else rest) ≡ true)
apart_step true e seen rest f h k =
    let (l, r) = split_fresh e.prompt_line seen rest h in (rw (f refl, r) refl, rw (l, k) refl)
apart_step false e seen rest f h k = (h, k)

and_right : (a b : Bool) → (a && b) ≡ true → b ≡ true
and_right true b h = h
and_right false b h = cc

finished_entries-apart :
    (b : Buffer) (gone : ℕ) (seen : List ℤ) (fs : List FinishedBlock)
    → (all (is_fresh seen) (finished_entries b gone seen fs) ≡ true)
      × (are_apart (finished_entries b gone seen fs) ≡ true)
unfolding finished_entries
finished_entries-apart b gone seen [] = (refl, refl)
finished_entries-apart b gone seen (f ∷ fs) =
    let e = finished_entry b gone f in
    let pushed = has_chrome f && not (has_line e.prompt_line seen) in
    let gone' = if has_chrome f && is_gone b f then suc gone else gone in
    let seen' = if pushed then e.prompt_line ∷ seen else seen in
    let (h, k) = finished_entries-apart b gone' seen' fs in
    apart_step pushed e seen (finished_entries b gone' seen' fs)
      (and_right (has_chrome f) (not (has_line e.prompt_line seen))) h k

-- An entry that is composed shows no command.
abbrev pub is_silent : BlockChromeEntry → Bool
is_silent e = not e.composing || is_empty e.command_text

finished_entry-silent :
    (b : Buffer) (gone : ℕ) (f : FinishedBlock) → is_silent (finished_entry b gone f) ≡ true
finished_entry-silent b gone f =
    if-intro (λ (e : BlockChromeEntry). is_silent e ≡ true) (is_gone b f) refl refl

finished_entries-silent :
    (b : Buffer) (gone : ℕ) (seen : List ℤ) (fs : List FinishedBlock)
    → all is_silent (finished_entries b gone seen fs) ≡ true
unfolding finished_entries
finished_entries-silent b gone seen [] = refl
finished_entries-silent b gone seen (f ∷ fs) =
    let e = finished_entry b gone f in
    let pushed = has_chrome f && not (has_line e.prompt_line seen) in
    let gone' = if has_chrome f && is_gone b f then suc gone else gone in
    let seen' = if pushed then e.prompt_line ∷ seen else seen in
    let rest = finished_entries-silent b gone' seen' fs in
    if-intro (λ (es : List BlockChromeEntry). all is_silent es ≡ true) pushed
      (rw (finished_entry-silent b gone f, rest) refl) rest

active_entry-silent :
    (b : Buffer) (composing : Bool) (o : OpenBlock) (a : ActiveBlock) (p c : ℕ)
    → all is_silent (active_entry b composing o a p c) ≡ true
active_entry-silent b composing o a zero c = refl
active_entry-silent b composing o a (suc p) zero = refl
active_entry-silent b true o a (suc p) (suc c) = refl
active_entry-silent b false o a (suc p) (suc c) = refl

active_entries-silent :
    (b : Buffer) (t : BlockTracker) (a : Option ActiveBlock)
    → all is_silent (active_entries b t a) ≡ true
active_entries-silent b t none = refl
active_entries-silent b t (some a) =
    if-intro (λ (es : List BlockChromeEntry). all is_silent es ≡ true)
      (is_some t.opened.output_start)
      (active_entry-silent b false t.opened a (b.line a.prompt)
        (or_line (b.line a.command) (b.line a.prompt)))
      (active_entry-silent b true t.opened a b.cursor b.cursor)

-- Whatever the terminal shows and wherever the markers have gone: no two finished blocks of a snapshot
-- stand at the same line, and no entry echoes a command that is still being typed.
pub get_block_chrome_snapshot-apart :
    (b : Buffer) (s : Session)
    → (are_apart (finished_entries b 0 [] s.tracker.finished) ≡ true)
      × (all is_silent (get_block_chrome_snapshot b s).blocks ≡ true)
unfolding get_block_chrome_snapshot
get_block_chrome_snapshot-apart b s = (
  (finished_entries-apart b 0 [] s.tracker.finished).1,
  all-append is_silent (finished_entries b 0 [] s.tracker.finished)
        (active_entries b s.tracker s.tracker.active)
      ∙ rw (finished_entries-silent b 0 [] s.tracker.finished)
          (active_entries-silent b s.tracker s.tracker.active),
)
