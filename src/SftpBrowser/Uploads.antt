-- ===== src/SftpBrowser/Uploads.antt =====
-- What stands in the transfer queue after a drop of files, apps/ui/src/sftp/SftpBrowser.tsx.
use tethra.Paths.{join_path}
use tethra.Base.{List, Text, map, ◌≡◌}
use tethra.SftpBrowser.{SftpBrowser, dropped_name}
use tethra.TransferQueue.{Effect, TransferDirection, TransferItem, TransferQueueRunner, upload}

-- What is to be transferred, whatever its progress.
pub record Plan : Type 0 where
  pub id : Text
  pub direction : TransferDirection
  pub local_path : Text
  pub remote_path : Text
  pub label : Text

abbrev pub plan_of : TransferItem → Plan
plan_of i = record {
  id = i.id;
  direction = i.direction;
  local_path = i.local_path;
  remote_path = i.remote_path;
  label = i.label;
}

abbrev pub plans : TransferQueueRunner → List Plan
plans r = map plan_of r.items

abbrev HasPlans : List Plan → TransferQueueRunner × List Effect → Type 0
HasPlans ps (r, effects) = plans r ≡ ps

-- The upload of a path that is dropped, under its id.
abbrev pub upload_of : Text → Text × Text → Plan
upload_of remote (id, path) = record {
  id = id;
  direction = upload;
  local_path = path;
  remote_path = join_path remote (dropped_name path);
  label = dropped_name path;
}
