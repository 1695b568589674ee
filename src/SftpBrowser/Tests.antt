-- ===== src/SftpBrowser/Tests.antt =====
-- Tests of the file browser, and the theorems on a concrete one.
use tethra.Base.{
  List, Text, [], codes, false, includes_unit, inl, is_empty, none, refl, some, text_eq, true, ◌∷◌,
  ◌≡◌,
}
use tethra.Paths.{join_path, parent_path, slash}
use tethra.SftpBrowser.{
  SftpBrowser, alert, create_folder, dropped_item, dropped_name, local_mkdir, local_side,
  remote_side, rename_entry,
}
use tethra.SftpBrowser.Names.{dropped_item-parent, entry_of}
use tethra.TransferQueue.{new_runner}

abbrev browser : SftpBrowser
browser = record {
  session_id = codes "s";
  local_path = codes "/home";
  remote_path = codes "/srv";
  selected_local = none;
  selected_remote = none;
  queue = new_runner (codes "s");
  active = true;
  os_drag_active = true;
}

created_test :
    create_folder local_side (some (codes "a")) browser ≡ some (local_mkdir (codes "/home/a"))
unfolding create_folder text_eq join_path
created_test = refl

refused_test :
    rename_entry remote_side
      (entry_of (codes "/srv") (codes "file") (codes "a"))
      (some (codes "b/c"))
      browser
    ≡ some (alert (codes "Invalid name"))
unfolding rename_entry text_eq join_path
refused_test = refl

dropped_name_test : dropped_name (codes "/a/b//") ≡ codes "b"
dropped_name_test = refl

dropped_item-parent_example :
    (is_empty (codes "b") ≡ false)
    × (includes_unit (codes "b") slash ≡ false)
    × ((dropped_item browser (codes "i", codes "/a/b/")).remote_path
        ≡ join_path (codes "/srv") (codes "b"))
    × (parent_path (dropped_item browser (codes "i", codes "/a/b/")).remote_path ≡ codes "/srv")
unfolding dropped_item
dropped_item-parent_example =
    dropped_item-parent browser (codes "i") (codes "/a/b/") (refl, inl refl) refl

abbrev two_paths : List (Text × Text)
two_paths = (codes "i", codes "/a") ∷ (codes "j", codes "/b") ∷ []
