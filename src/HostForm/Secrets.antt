-- ===== src/HostForm/Secrets.antt =====
-- What the import of a key sends, apps/ui/src/hosts/HostFormModal.tsx.
use tethra.Base.{
  Bool, Option, Text, [], ap, arith, false, is_empty, none, refl, some, true, ◌∷◌, ◌≡◌,
}
use tethra.HostForm.{HostForm, emptied, mounted, render, take_value}
use tethra.HostForm.Keys.{confirm_import, picked, probed, unless_empty}

fresh_field : (b : Bool) (field : Option Text) → take_value (mounted b (emptied field)) ≡ []
fresh_field true none = refl
fresh_field true (some s) = refl
fresh_field false field = refl

-- A key that has just been looked at is imported with no passphrase, not remembered and not synced,
-- whatever was typed and chosen for a key before it.
pub picked-confirm_import :
    (f : HostForm) (path : Text) (encrypted : Bool) (fingerprint : Option Text)
    → is_empty path ≡ false
    → (confirm_import (picked (probed path encrypted fingerprint) f)).1
      ≡ some (record {
        path = path;
        passphrase = none;
        remember_passphrase = false;
        sync_secret = false;
      })
unfolding confirm_import picked render
picked-confirm_import f [] encrypted fingerprint h = ground arith
picked-confirm_import f (c ∷ cs) true fingerprint h =
    ap
      (λ s. some (record {
        path = c ∷ cs;
        passphrase = unless_empty s;
        remember_passphrase = false;
        sync_secret = false;
      }))
      (fresh_field _ f.key_passphrase)
picked-confirm_import f (c ∷ cs) false fingerprint h = refl
