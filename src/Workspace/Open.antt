-- ===== src/Workspace/Open.antt =====
-- Which sessions have a tab, before and after the changes that the operations make to the tabs.
use tethra.Workspace.Close.{layout_without, layout_without_all}
use tethra.Layout.Sessions.{survivors, survivors-remove_session}
use tethra.Layout.{LayoutNode, collect_session_ids, remove_session}
use tethra.Base.{
  Bool, Bool-cases, List, Option, Text, [], all, all-append, any, ap, arith, eq_of_text_eq, false,
  filter, flat_map, if◌then◌else◌, inl, inr, map, none, not, refl, some, suc, sym, text_eq,
  text_eq_refl, true, zero, ℕ, ◌&&◌, ◌||◌, ◌∷◌, ◌≡◌,
}
use tethra.Workspace.State.{Tab, has_session, put_tab, put_tabs, session_at, without_session}
use tethra.Workspace.View.{replace_tab}

abbrev pub is_open : List Tab → Text → Bool
is_open ts s = any (has_session s) ts

abbrev pub IsOpen : List Tab → Option Text → Type 0
IsOpen ts none = Unit
IsOpen ts (some s) = is_open ts s ≡ true

pub all_imp {ℓ} :
    {A : Type ℓ} (p q : A → Bool) (xs : List A)
    → ((x : A) → p x ≡ true → q x ≡ true)
    → all p xs ≡ true
    → all q xs ≡ true
all_imp p q [] f h = refl
all_imp p q (x ∷ xs) f h = ground (arith, f x, all_imp p q xs f)

-- The elements that pass a filter satisfy what follows from the test and from what all satisfied.
pub all-filter_imp {ℓ} :
    {A : Type ℓ} (p q r : A → Bool) (xs : List A)
    → ((x : A) → p x ≡ true → q x ≡ true → r x ≡ true)
    → all p xs ≡ true
    → all r (filter q xs) ≡ true
all-filter_imp p q r [] f h = refl
all-filter_imp p q r (x ∷ xs) f h = elim (Bool-cases (q x)) [
  | inl e ↦ rw e (ground (arith, f x, all-filter_imp p q r xs f))
  | inr e ↦ rw e (ground (arith, all-filter_imp p q r xs f))
]

pub all-flat_map {ℓ κ} :
    {A : Type ℓ} {B : Type κ} (p : A → Bool) (q : B → Bool) (f : A → List B) (xs : List A)
    → ((x : A) → p x ≡ true → all q (f x) ≡ true)
    → all p xs ≡ true
    → all q (flat_map f xs) ≡ true
unfolding flat_map
all-flat_map p q f [] g h = refl
all-flat_map p q f (x ∷ xs) g h =
    rw (all-append q (f x) (flat_map f xs)) (ground (arith, g x, all-flat_map p q f xs g))

pub any-filter {ℓ} :
    {A : Type ℓ} (p q : A → Bool) (xs : List A)
    → any p xs ≡ (any p (filter q xs) || any p (filter (λ x. not (q x)) xs))
any-filter p q [] = refl
any-filter p q (x ∷ xs) = ground (arith, any-filter p q xs)

pub member : Text → List Text → Bool
member s xs = any (λ t. text_eq t s) xs

pub all-member :
    (p : Text → Bool) (xs : List Text) (s : Text)
    → all p xs ≡ true
    → any (λ t. text_eq t s) xs ≡ true
    → p s ≡ true
all-member p [] s h m = cc
all-member p (x ∷ xs) s h m = elim (Bool-cases (text_eq x s)) [
  | inl e ↦ rw (sym (eq_of_text_eq x s e)) (ground arith)
  | inr e ↦ ground (arith, all-member p xs s)
]

has_session_cong :
    (s : Text) (t u : Tab) → has_session t.session_id u ≡ true → has_session s u ≡ has_session s t
has_session_cong s t u h = ap (λ x. text_eq x s) (eq_of_text_eq u.session_id t.session_id h)

pub is_open-put_tab :
    (t : Tab) (us : List Tab) (s : Text)
    → is_open (put_tab t us) s ≡ (has_session s t || is_open us s)
is_open-put_tab t [] s = refl
is_open-put_tab t (u ∷ us) s = elim (Bool-cases (has_session t.session_id u)) [
  | inl e ↦ rw e (ground (arith, has_session_cong s t u e))
  | inr e ↦ rw e (ground (arith, is_open-put_tab t us s))
]

pub is_open-put_tabs :
    (acc ts : List Tab) (s : Text) → is_open (put_tabs acc ts) s ≡ (is_open ts s || is_open acc s)
is_open-put_tabs acc [] s = refl
is_open-put_tabs acc (t ∷ ts) s =
    ground (arith, is_open-put_tabs (put_tab t acc) ts s, is_open-put_tab t acc s)

-- Taking one session away leaves the others open.
pub is_open-without_session :
    (s sid : Text) (ts : List Tab)
    → text_eq s sid ≡ false
    → is_open ts s ≡ true
    → is_open (without_session sid ts) s ≡ true
is_open-without_session s sid [] n h = cc
is_open-without_session s sid (t ∷ ts) n h = elim (Bool-cases (has_session sid t)) [
  | inl e ↦ rw e (
      ground (
        arith,
        is_open-without_session s sid ts n,
        ap (λ x. text_eq x s) (eq_of_text_eq t.session_id sid e),
        eq_of_text_eq sid s,
        text_eq_refl s,
      ))
  | inr e ↦ rw e (ground (arith, is_open-without_session s sid ts n))
]

-- The tab that replaces one of another session.
pub is_open-replace_tab :
    (s sid : Text) (new : Tab) (ts : List Tab)
    → text_eq s sid ≡ false
    → is_open ts s ≡ true
    → is_open (replace_tab sid new ts) s ≡ true
is_open-replace_tab s sid new [] n h = cc
is_open-replace_tab s sid new (t ∷ ts) n h = elim (Bool-cases (has_session sid t)) [
  | inl e ↦ rw e (
      ground (
        arith,
        is_open-replace_tab s sid new ts n,
        ap (λ x. text_eq x s) (eq_of_text_eq t.session_id sid e),
        eq_of_text_eq sid s,
        text_eq_refl s,
      ))
  | inr e ↦ rw e (ground (arith, is_open-replace_tab s sid new ts n))
]

pub is_open-replaced :
    (sid : Text) (new : Tab) (ts : List Tab)
    → is_open ts sid ≡ true
    → is_open (replace_tab sid new ts) new.session_id ≡ true
is_open-replaced sid new [] h = cc
is_open-replaced sid new (t ∷ ts) h = elim (Bool-cases (has_session sid t)) [
  | inl e ↦ rw e (ground (arith, text_eq_refl new.session_id))
  | inr e ↦ rw e (ground (arith, is_open-replaced sid new ts))
]

-- A change that keeps the session of each tab.
pub is_open-update :
    (sid s : Text) (f : Tab → Tab) (ts : List Tab)
    → ((t : Tab) → (f t).session_id ≡ t.session_id)
    → is_open (map (λ t. if has_session sid t then f t else t) ts) s ≡ is_open ts s
is_open-update sid s f [] keep = refl
is_open-update sid s f (t ∷ ts) keep = elim (Bool-cases (has_session sid t)) [
  | inl e ↦ rw e (rw (keep t, is_open-update sid s f ts keep))
  | inr e ↦ rw e (rw (is_open-update sid s f ts keep))
]

IsOpen-cons : (t : Tab) (ts : List Tab) (o : Option Text) → IsOpen ts o → IsOpen (t ∷ ts) o
IsOpen-cons t ts none h = h
IsOpen-cons t ts (some s) h = ground arith

pub session_at-IsOpen : (ts : List Tab) (i : ℕ) → IsOpen ts (session_at ts i)
session_at-IsOpen [] i = tt
session_at-IsOpen (t ∷ ts) zero = ground (arith, text_eq_refl t.session_id)
session_at-IsOpen (t ∷ ts) (suc i) = IsOpen-cons t ts (session_at ts i) (session_at-IsOpen ts i)

pub IsOpen-imp :
    (ts us : List Tab) (o : Option Text)
    → ((s : Text) → is_open ts s ≡ true → is_open us s ≡ true)
    → IsOpen ts o
    → IsOpen us o
IsOpen-imp ts us none f h = h
IsOpen-imp ts us (some s) f h = f s h

pub text_eq_comm : (s t : Text) → text_eq s t ≡ text_eq t s
unfolding text_eq
text_eq_comm [] [] = refl
text_eq_comm [] (y ∷ ys) = refl
text_eq_comm (x ∷ xs) [] = refl
text_eq_comm (x ∷ xs) (y ∷ ys) = ground (arith, text_eq_comm xs ys)

module _ {N : Type 0} where
  pub layout_without-all :
      (p q : Text → Bool) (sid : Text) (l : Option (LayoutNode N))
      → ((s : Text) → p s ≡ true → text_eq s sid ≡ false → q s ≡ true)
      → all p (survivors l) ≡ true
      → all q (survivors (layout_without sid l)) ≡ true
  layout_without-all p q sid none f h = refl
  layout_without-all p q sid (some n) f h = rw (survivors-remove_session n sid) (
      all-filter_imp p (λ s. not (text_eq s sid)) q (collect_session_ids n)
        (λ s a b. f s a (ground arith)) h)

  pub layout_without_all-all :
      (p : Text → Bool) (rs : List Tab) (l : Option (LayoutNode N))
      → all p (survivors l) ≡ true
      → all (λ s. p s && not (is_open rs s)) (survivors (layout_without_all rs l)) ≡ true
  layout_without_all-all p [] l h =
      all_imp p (λ s. p s && not (is_open [] s)) (survivors l) (λ s e. ground arith) h
  layout_without_all-all p (t ∷ rs) none h = refl
  layout_without_all-all p (t ∷ rs) (some n) h =
      all_imp (λ s. (p s && not (text_eq s t.session_id)) && not (is_open rs s))
        (λ s. p s && not (is_open (t ∷ rs) s))
        (survivors (layout_without_all rs (remove_session n t.session_id)))
        (λ s e. ground (arith, text_eq_comm s t.session_id))
        (layout_without_all-all (λ s. p s && not (text_eq s t.session_id)) rs
          (remove_session n t.session_id)
          (layout_without-all p (λ s. p s && not (text_eq s t.session_id)) t.session_id (some n)
            (λ s a b. ground arith) h))
