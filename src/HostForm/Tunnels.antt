-- ===== src/HostForm/Tunnels.antt =====
-- The tunnels of a host in apps/ui/src/hosts/HostFormModal.tsx: adding one, under an id that the browser
-- draws, removing one, and the edits of its fields.
use tethra.Base.{
  Bool, List, Text, [], codes, false, if◌then◌else◌, is_empty, suc, trim, zero, ℕ, ◌&&◌, ◌++◌, ◌==◌,
  ◌∷◌,
}
use tethra.Blocks.{negsuc, pos, ℤ}
use tethra.HostForm.{HostForm, TunnelDefinition, or_else}
use tethra.Numeral.{parse_int}

abbrev pub new_tunnel : Text → TunnelDefinition
new_tunnel id = record {
  id = id;
  label = [];
  direction = codes "local";
  bind_port = pos 8000;
  target_host = codes "localhost";
  target_port = pos 8000;
  auto_start = false;
  allow_lan = false;
}

unfoldable pub add_tunnel : Text → HostForm → HostForm
add_tunnel id f = record f { tunnels = f.tunnels ++ new_tunnel id ∷ [] }

-- `current.filter((_, i) => i !== index)`, and the same with `map`.
abbrev pub remove_at {ℓ} : {A : Type ℓ} → ℕ → List A → List A
remove_at index [] = []
remove_at zero (x ∷ xs) = xs
remove_at (suc index) (x ∷ xs) = x ∷ remove_at index xs

abbrev pub update_at {ℓ} : {A : Type ℓ} → ℕ → (A → A) → List A → List A
update_at index g [] = []
update_at zero g (x ∷ xs) = g x ∷ xs
update_at (suc index) g (x ∷ xs) = x ∷ update_at index g xs

unfoldable pub remove_tunnel : ℕ → HostForm → HostForm
remove_tunnel index f = record f { tunnels = remove_at index f.tunnels }

-- The fields of a tunnel, with what is chosen or typed.
pub data TunnelEdit : Type 0 where
  edit_direction edit_label edit_bind_port edit_target_host edit_target_port : Text → TunnelEdit
  edit_auto_start edit_allow_lan : Bool → TunnelEdit

-- `Number.parseInt(value, 10) || 0`.
abbrev pub parse_port : Text → ℤ
parse_port s = or_else (parse_int s) (pos 0)

abbrev pub same_integer : ℤ → ℤ → Bool
same_integer (pos m) (pos n) = m == n
same_integer (negsuc m) (negsuc n) = m == n
same_integer _ _ = false

abbrev pub or_port : ℤ → ℤ → ℤ
or_port (pos zero) other = other
or_port (pos (suc n)) other = pos (suc n)
or_port (negsuc n) other = negsuc n

-- A tunnel without a label has its target follow the port that it binds, while the two are the same.
abbrev pub bind_to : ℤ → TunnelDefinition → TunnelDefinition
bind_to port t =
    if is_empty (trim t.label) && same_integer t.target_port t.bind_port
    then record t { bind_port = port; target_port = or_port port t.target_port }
    else record t { bind_port = port }

unfoldable pub edited : TunnelEdit → TunnelDefinition → TunnelDefinition
unfolding trim parse_int
edited (edit_direction s) t = record t { direction = s }
edited (edit_label s) t = record t { label = s }
edited (edit_bind_port s) t = bind_to (parse_port s) t
edited (edit_target_host s) t = record t { target_host = s }
edited (edit_target_port s) t = record t { target_port = parse_port s }
edited (edit_auto_start b) t = record t { auto_start = b }
edited (edit_allow_lan b) t = record t { allow_lan = b }

unfoldable pub edit_tunnel : ℕ → TunnelEdit → HostForm → HostForm
unfolding edited
edit_tunnel index e f = record f { tunnels = update_at index (edited e) f.tunnels }
