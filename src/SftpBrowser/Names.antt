-- ===== src/SftpBrowser/Names.antt =====
-- The paths that the file browser makes of the names it is given, apps/ui/src/sftp/SftpBrowser.tsx.
use tethra.TransferQueue.{or_else}
use tethra.Base.{
  Bool, List, Option, Text, [], all, any, arith, codes, cons_head, ends_with_unit, false,
  if◌then◌else◌, includes_unit, is_empty, is_some, length, ltb, none, not, refl, some, true, ℕ,
  ◌&&◌, ◌||◌, ◌∷◌, ◌≡◌, ◌⊎◌,
}
use tethra.Paths.{join_path, parent_path, slash}
use tethra.Paths.RoundTrip.{is_name, parent_path-join_path}
use tethra.SftpBrowser.{
  FileEntry, SftpBrowser, dropped_item, dropped_name, is_bad_name, is_separator, last_piece,
  split_path,
}

-- A name that the browser takes.
abbrev pub IsEntryName : Text → Type 0
IsEntryName name = (is_empty name ≡ false) × (is_bad_name name ≡ false)

-- The root, or a directory that does not end in a slash.
abbrev pub IsDirectory : Text → Type 0
IsDirectory d = (ltb 0 (length d) ≡ true) × ((ends_with_unit d slash ≡ false) ⊎ (d ≡ codes "/"))

abbrev pub entry_of : Text → Text → Text → FileEntry
entry_of d kind name = record { name = name; path = join_path d name; file_type = kind }

-- A piece of a path has no separator.
abbrev is_piece : Text → Bool
is_piece p = not (includes_unit p slash)

cons_head-pieces :
    (c : ℕ) (ps : List Text)
    → is_separator c ≡ false
    → all is_piece ps ≡ true
    → all is_piece (cons_head c ps) ≡ true
cons_head-pieces c [] h k = ground (arith, h)
cons_head-pieces c (p ∷ ps) h k = ground (arith, h, k)

if_pieces :
    (b : Bool) (c : ℕ) (ps : List Text)
    → is_separator c ≡ b
    → all is_piece ps ≡ true
    → all is_piece (if b then [] ∷ ps else cons_head c ps) ≡ true
if_pieces true c ps h k = k
if_pieces false c ps h k = cons_head-pieces c ps h k

split_path-pieces : (s : Text) → all is_piece (split_path s) ≡ true
split_path-pieces [] = refl
split_path-pieces (c ∷ cs) =
    if_pieces (is_separator c) c (split_path cs) refl (split_path-pieces cs)

abbrev pub is_filled : Text → Bool
is_filled p = not (is_empty p)

filled_pieces :
    (b : Bool) (c : ℕ) (ps : List Text) (rest : Bool)
    → (rest ≡ true → any is_filled ps ≡ true)
    → (not b || rest) ≡ true
    → any is_filled (if b then [] ∷ ps else cons_head c ps) ≡ true
filled_pieces true c ps rest k h = k h
filled_pieces false c [] rest k h = refl
filled_pieces false c (p ∷ ps) rest k h = refl

split_path-filled :
    (s : Text) → any (λ c. not (is_separator c)) s ≡ true → any is_filled (split_path s) ≡ true
split_path-filled [] h = ground (arith, h)
split_path-filled (c ∷ cs) h =
    filled_pieces (is_separator c) c (split_path cs) (any (λ d. not (is_separator d)) cs)
      (split_path-filled cs) h

abbrev names_entry : Option Text → Bool
names_entry none = false
names_entry (some p) = is_name p

last_piece-name :
    (found : Option Text) (ps : List Text)
    → all is_piece ps ≡ true
    → (names_entry found || (not (is_some found) && any is_filled ps)) ≡ true
    → names_entry (last_piece found ps) ≡ true
last_piece-name found [] h k = ground (arith, k)
last_piece-name found ([] ∷ ps) h k = last_piece-name found ps h k
last_piece-name found ((c ∷ cs) ∷ ps) h k =
    last_piece-name (some (c ∷ cs)) ps (ground (arith, h)) (ground (arith, h))

chosen_name :
    (found : Option Text) (path : Text)
    → names_entry found ≡ true
    → is_name (or_else found path) ≡ true
chosen_name none path h = ground (arith, h)
chosen_name (some p) path h = h

name_filled : (name : Text) → is_name name ≡ true → is_empty name ≡ false
name_filled [] h = ground (arith, h)
name_filled (c ∷ cs) h = refl

name_slashless : (name : Text) → is_name name ≡ true → includes_unit name slash ≡ false
name_slashless name h = ground (arith, h)

-- Each path that is dropped on the browser is uploaded under a name that is not empty and has no slash,
-- joined to the directory that is shown: the directory is the parent of the path that is made. The path
-- that is dropped has some unit that is no separator, and the directory is the root or does not end in a
-- slash. The name may be one of dots, such as `..`.
pub dropped_item-parent :
    (b : SftpBrowser) (id path : Text)
    → IsDirectory b.remote_path
    → any (λ c. not (is_separator c)) path ≡ true
    → (let item = dropped_item b (id, path) in
        (is_empty item.label ≡ false)
        × (includes_unit item.label slash ≡ false)
        × (item.remote_path ≡ join_path b.remote_path item.label)
        × (parent_path item.remote_path ≡ b.remote_path))
unfolding dropped_item
dropped_item-parent b id path dir h =
    let n : is_name (dropped_name path) ≡ true =
      chosen_name (last_piece none (split_path path)) path (
        last_piece-name none (split_path path) (split_path-pieces path)
          (split_path-filled path h)) in
    (
      name_filled (dropped_name path) n,
      name_slashless (dropped_name path) n,
      refl,
      parent_path-join_path b.remote_path (dropped_name path) n dir.0 dir.1,
    )
