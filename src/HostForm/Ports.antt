-- ===== src/HostForm/Ports.antt =====
-- The ports of a tunnel while the one that it binds is typed, apps/ui/src/hosts/HostFormModal.tsx.
use tethra.Base.{
  Bool, List, Text, [], all, ap, arith, false, if-intro, if◌then◌else◌, is_empty, not, refl, suc,
  sym, trim, true, zero, ℕ, ◌&&◌, ◌∙◌, ◌∷◌, ◌≡◌,
}
use tethra.Blocks.{negsuc, pos, ℤ}
use tethra.HostForm.{TunnelDefinition}
use tethra.HostForm.Tunnels.{bind_to, edit_bind_port, edited, or_port, parse_port, same_integer}

-- What the field of the port holds, one after the other.
unfoldable pub binds : List Text → TunnelDefinition → TunnelDefinition
unfolding edited
binds [] t = t
binds (s ∷ ss) t = binds ss (edited (edit_bind_port s) t)

abbrev pub is_zero_port : ℤ → Bool
is_zero_port (pos zero) = true
is_zero_port _ = false

abbrev pub is_unlabelled : TunnelDefinition → Bool
is_unlabelled t = is_empty (trim t.label)

same_integer_refl : (z : ℤ) → same_integer z z ≡ true
same_integer_refl (pos n) = ground arith
same_integer_refl (negsuc n) = ground arith

or_port_nonzero : (z other : ℤ) → is_zero_port z ≡ false → or_port z other ≡ z
or_port_nonzero (pos zero) other h = ground arith
or_port_nonzero (pos (suc n)) other h = refl
or_port_nonzero (negsuc n) other h = refl

zero_port : (z : ℤ) → is_zero_port z ≡ true → z ≡ pos 0
zero_port (pos zero) h = refl
zero_port (pos (suc n)) h = ground arith
zero_port (negsuc n) h = ground arith

follow_test :
    (t : TunnelDefinition)
    → is_unlabelled t ≡ true
    → t.target_port ≡ t.bind_port
    → (is_unlabelled t && same_integer t.target_port t.bind_port) ≡ true
follow_test t u e = rw (u, e) (same_integer_refl t.bind_port)

bind_follow :
    (t : TunnelDefinition) (p : ℤ)
    → is_unlabelled t ≡ true
    → t.target_port ≡ t.bind_port
    → is_zero_port p ≡ false
    → bind_to p t ≡ record t { bind_port = p; target_port = p }
bind_follow t p u e h =
    ap
      (λ b.
        if b
        then record t { bind_port = p; target_port = or_port p t.target_port }
        else record t { bind_port = p })
      (follow_test t u e)
    ∙ ap (λ z. record t { bind_port = p; target_port = z }) (or_port_nonzero p t.target_port h)

apart_test : (b c : Bool) → c ≡ false → (b && c) ≡ false
apart_test b c h = ground arith

bind_apart :
    (t : TunnelDefinition) (p : ℤ)
    → same_integer t.target_port t.bind_port ≡ false
    → bind_to p t ≡ record t { bind_port = p }
bind_apart t p h =
    ap
      (λ b.
        if b
        then record t { bind_port = p; target_port = or_port p t.target_port }
        else record t { bind_port = p })
      (apart_test (is_unlabelled t) (same_integer t.target_port t.bind_port) h)

bind_zero : (t : TunnelDefinition) → bind_to (pos 0) t ≡ record t { bind_port = pos 0 }
bind_zero t =
    if-intro (λ u. u ≡ record t { bind_port = pos 0 })
      (is_unlabelled t && same_integer t.target_port t.bind_port) refl refl

-- As long as a tunnel has no label and its two ports are the same, they stay the same while the one is
-- typed, if what stands in the field never reads as 0.
pub binds-follow :
    (ss : List Text) (t : TunnelDefinition)
    → is_unlabelled t ≡ true
    → t.target_port ≡ t.bind_port
    → all (λ s. not (is_zero_port (parse_port s))) ss ≡ true
    → (binds ss t).target_port ≡ (binds ss t).bind_port
unfolding binds
binds-follow [] t u e h = e
binds-follow (s ∷ ss) t u e h =
    let f = bind_follow t (parse_port s) u e (ground (arith, h)) in
    binds-follow ss (bind_to (parse_port s) t) (ap is_unlabelled f ∙ u)
      (ap (λ r. r.target_port) f ∙ sym (ap (λ r. r.bind_port) f)) (ground (arith, h))

binds_apart :
    (ss : List Text) (t : TunnelDefinition) (k : ℤ)
    → t.target_port ≡ k
    → same_integer k t.bind_port ≡ false
    → all (λ s. not (same_integer k (parse_port s))) ss ≡ true
    → (binds ss t).target_port ≡ k
unfolding binds
binds_apart [] t k e a h = e
binds_apart (s ∷ ss) t k e a h =
    let f = bind_apart t (parse_port s) (ap (λ z. same_integer z t.bind_port) e ∙ a) in
    binds_apart ss (bind_to (parse_port s) t) k (ap (λ r. r.target_port) f ∙ e)
      (ap (λ r. same_integer k r.bind_port) f ∙ ground (arith, h)) (ground (arith, h))

nonzero_apart : (n : ℕ) → same_integer (pos (suc n)) (pos 0) ≡ false
nonzero_apart n = ground arith

-- Once the field of the port reads as 0, as when it is emptied, the other port stays as it was and follows
-- no more, whatever is typed afterwards, while that is not the old port itself.
pub binds-cleared :
    (s : Text) (ss : List Text) (t : TunnelDefinition) (n : ℕ)
    → t.target_port ≡ pos (suc n)
    → is_zero_port (parse_port s) ≡ true
    → all (λ s'. not (same_integer (pos (suc n)) (parse_port s'))) ss ≡ true
    → (binds (s ∷ ss) t).target_port ≡ pos (suc n)
unfolding binds
binds-cleared s ss t n e z h =
    let f : bind_to (parse_port s) t ≡ record t { bind_port = pos 0 } =
      ap (λ p. bind_to p t) (zero_port (parse_port s) z) ∙ bind_zero t in
    binds_apart ss (bind_to (parse_port s) t) (pos (suc n)) (ap (λ r. r.target_port) f ∙ e)
      (ap (λ r. same_integer (pos (suc n)) r.bind_port) f ∙ nonzero_apart n) h
