-- ===== src/SftpBrowser.antt =====
-- The file browser of a session, apps/ui/src/sftp/SftpBrowser.tsx: the calls that it makes on the files of
-- the two sides, and the transfers that it queues, on the runner of TransferQueue. What the user answers
-- to a prompt is an argument, `none` where it is cancelled; the ids that the browser draws are arguments
-- too. Listing the directories and rendering are left out.
use tethra.Base.{
  Bool, List, Option, Text, [], codes, cons_head, false, if◌then◌else◌, includes_unit, is_empty,
  map, none, not, some, text_eq, true, ℕ, ◌++◌, ◌==◌, ◌||◌, ◌∷◌,
}
use tethra.Paths.{join_path, parent_path}
use tethra.TransferQueue.{
  Effect, NewItem, TransferDirection, TransferQueueRunner, download, enqueue, or_else, upload,
}
pub mod Names
pub mod Drops
pub mod Uploads
mod Tests

pub data Side : Type 0 where
  local_side remote_side : Side

-- The fields that the browser uses.
pub record FileEntry : Type 0 where
  pub name : Text
  pub path : Text
  pub file_type : Text

pub record SftpBrowser : Type 0 where
  pub session_id : Text
  pub local_path : Text
  pub remote_path : Text
  pub selected_local : Option FileEntry
  pub selected_remote : Option FileEntry
  pub queue : TransferQueueRunner
  -- `activeRef`, for a pane too.
  pub active : Bool
  pub os_drag_active : Bool

pub data FileCall : Type 0 where
  local_mkdir : Text → FileCall
  sftp_remote_create_dir_entry : Text → Text → Text → FileCall
  local_rename : Text → Text → FileCall
  sftp_remote_rename : Text → Text → Text → FileCall
  local_remove : Text → Bool → FileCall
  sftp_remote_remove : Text → Text → Text → FileCall
  alert : Text → FileCall

abbrev pub is_bad_name : Text → Bool
is_bad_name name = text_eq name (codes ".") || text_eq name (codes "..") || includes_unit name 0x2f

abbrev mkdir_call : Side → Text → SftpBrowser → FileCall
mkdir_call local_side name b = local_mkdir (join_path b.local_path name)
mkdir_call remote_side name b = sftp_remote_create_dir_entry b.session_id b.remote_path name

unfoldable pub create_folder : Side → Option Text → SftpBrowser → Option FileCall
unfolding text_eq join_path
create_folder side none b = none
create_folder side (some name) b =
    if is_empty name || is_bad_name name then none else some (mkdir_call side name b)

abbrev pub rename_call : Side → Text → Text → SftpBrowser → FileCall
rename_call local_side from target b = local_rename from target
rename_call remote_side from target b = sftp_remote_rename b.session_id from target

unfoldable pub rename_entry : Side → FileEntry → Option Text → SftpBrowser → Option FileCall
unfolding text_eq join_path parent_path
rename_entry side entry none b = none
rename_entry side entry (some next_name) b =
    if is_empty next_name || text_eq next_name entry.name
    then none
    else if is_bad_name next_name
    then some (alert (codes "Invalid name"))
    else some (rename_call side entry.path (join_path (parent_path entry.path) next_name) b)

abbrev pub is_dir : FileEntry → Bool
is_dir entry = text_eq entry.file_type (codes "dir")

abbrev remove_call : Side → FileEntry → SftpBrowser → FileCall
remove_call local_side entry b = local_remove entry.path (is_dir entry)
remove_call remote_side entry b = sftp_remote_remove b.session_id entry.path entry.file_type

-- With the answer to the question whether to delete.
unfoldable pub delete_entry : Side → FileEntry → Bool → SftpBrowser → Option FileCall
unfolding text_eq
delete_entry side entry confirmed b =
    if text_eq entry.name (codes ".") || text_eq entry.name (codes "..")
    then none
    else if not confirmed
    then none
    else some (remove_call side entry b)

abbrev pub new_item : Text → TransferDirection → Text → Text → Text → NewItem
new_item id direction local_path remote_path label = record {
  id = id;
  direction = direction;
  local_path = local_path;
  remote_path = remote_path;
  label = label;
  offset = none;
  error = none;
  files_done = none;
  files_total = none;
  current_file = none;
}

abbrev pub label_of : FileEntry → Text
label_of entry = if is_dir entry then entry.name ++ codes "/" else entry.name

abbrev pub transfer_item : Text → TransferDirection → FileEntry → SftpBrowser → NewItem
transfer_item id upload entry b =
    new_item id upload entry.path (join_path b.remote_path entry.name) (label_of entry)
transfer_item id download entry b =
    new_item id download (join_path b.local_path entry.name) entry.path (label_of entry)

abbrev pub with_queue : SftpBrowser → TransferQueueRunner × List Effect → SftpBrowser × List Effect
with_queue b (r, effects) = (record b { queue = r }, effects)

unfoldable pub enqueue_transfer :
    Text → TransferDirection → FileEntry → SftpBrowser → SftpBrowser × List Effect
unfolding enqueue text_eq join_path
enqueue_transfer id direction entry b =
    with_queue b (enqueue b.queue (transfer_item id direction entry b))

abbrev pub is_transferable : FileEntry → Bool
is_transferable entry = text_eq entry.file_type (codes "file") || is_dir entry

abbrev pub transfer_selected :
    Text → TransferDirection → Option FileEntry → SftpBrowser → SftpBrowser × List Effect
transfer_selected id direction none b = (b, [])
transfer_selected id direction (some entry) b =
    if not (is_transferable entry) then (b, []) else enqueue_transfer id direction entry b

unfoldable pub upload_selected : Text → SftpBrowser → SftpBrowser × List Effect
unfolding enqueue_transfer text_eq
upload_selected id b = transfer_selected id upload b.selected_local b

unfoldable pub download_selected : Text → SftpBrowser → SftpBrowser × List Effect
unfolding enqueue_transfer text_eq
download_selected id b = transfer_selected id download b.selected_remote b

abbrev pub is_separator : ℕ → Bool
is_separator c = c == 0x2f || c == 0x5c

-- `split(/[\\/]/)`.
abbrev pub split_path : Text → List Text
split_path [] = [] ∷ []
split_path (c ∷ cs) = if is_separator c then [] ∷ split_path cs else cons_head c (split_path cs)

-- `filter(Boolean).pop()`.
abbrev pub last_piece : Option Text → List Text → Option Text
last_piece found [] = found
last_piece found (p ∷ ps) = last_piece (if is_empty p then found else some p) ps

abbrev pub dropped_name : Text → Text
dropped_name path = or_else (last_piece none (split_path path)) path

-- The item of one path that is dropped, under its id.
unfoldable pub dropped_item : SftpBrowser → Text × Text → NewItem
unfolding join_path
dropped_item b (id, path) =
    new_item id upload path (join_path b.remote_path (dropped_name path)) (dropped_name path)

abbrev pub enqueue_all : List NewItem → TransferQueueRunner → TransferQueueRunner × List Effect
enqueue_all [] r = (r, [])
enqueue_all (n ∷ ns) r =
    let (r', effects) = enqueue r n in let (r'', more) = enqueue_all ns r' in (r'', effects ++ more)

pub data OsDrop : Type 0 where
  hover leave : OsDrop
  dropped : List (Text × Text) → OsDrop

unfoldable pub on_os_file_drop : OsDrop → SftpBrowser → SftpBrowser × List Effect
unfolding dropped_item enqueue
on_os_file_drop hover b = (if b.active then record b { os_drag_active = true } else b, [])
on_os_file_drop leave b = (if b.active then record b { os_drag_active = false } else b, [])
on_os_file_drop (dropped paths) b =
    if not b.active
    then (b, [])
    else with_queue (record b { os_drag_active = false })
        (enqueue_all (map (dropped_item b) paths) b.queue)
