-- ===== src/Workspace/SavedCoding.antt =====
-- A coding of the saved tabs that has what the model asks of `JSON`: a text is its length and its units, an
-- optional one is 0, or 1 and the text.
use tethra.Base.{
  List, Option, Text, [], ap, arith, drop, length, length-append, none, refl, some, suc, take, zero,
  ℕ, ◌++◌, ◌∙◌, ◌∷◌, ◌≡◌, ◌≤◌,
}
use tethra.Workspace.Saved.{SavedJson, SavedTab}

take-length_of : (s t : Text) → take (length s) (s ++ t) ≡ s
take-length_of [] t = refl
take-length_of (c ∷ s) t = ap (λ u. c ∷ u) (take-length_of s t)

drop-length_of : (s t : Text) → drop (length s) (s ++ t) ≡ t
drop-length_of [] t = refl
drop-length_of (c ∷ s) t = drop-length_of s t

-- A tab in front of the code of the rest.
abbrev encode_text : Text → Text → Text
encode_text s rest = length s ∷ (s ++ rest)

abbrev encode_option : Option Text → Text → Text
encode_option none rest = 0 ∷ rest
encode_option (some s) rest = 1 ∷ encode_text s rest

abbrev encode_tab : SavedTab → Text → Text
encode_tab t rest =
    encode_text t.host_id (encode_option t.mux_name (encode_option t.project_id rest))

abbrev encode_tabs : List SavedTab → Text
encode_tabs [] = []
encode_tabs (t ∷ ts) = encode_tab t (encode_tabs ts)

abbrev decode_text : Text → Text × Text
decode_text [] = ([], [])
decode_text (n ∷ cs) = (take n cs, drop n cs)

abbrev decode_option : Text → Option Text × Text
decode_option [] = (none, [])
decode_option (zero ∷ cs) = (none, cs)
decode_option (suc k ∷ cs) = (some (decode_text cs).0, (decode_text cs).1)

abbrev decode_tab : Text → SavedTab × Text
decode_tab cs =
    let (h, r) = decode_text cs in
    let (m, r') = decode_option r in
    let (p, r'') = decode_option r' in (record { host_id = h; mux_name = m; project_id = p }, r'')

abbrev decode_rounds : ℕ → Text → List SavedTab
decode_rounds zero cs = []
decode_rounds (suc n) [] = []
decode_rounds (suc n) (c ∷ cs) = (decode_tab (c ∷ cs)).0 ∷ decode_rounds n (decode_tab (c ∷ cs)).1

text_coded : (s rest : Text) → decode_text (encode_text s rest) ≡ (s, rest)
text_coded s rest = rw (take-length_of s rest, drop-length_of s rest) refl

option_coded : (o : Option Text) (rest : Text) → decode_option (encode_option o rest) ≡ (o, rest)
option_coded none rest = refl
option_coded (some s) rest = rw (take-length_of s rest, drop-length_of s rest) refl

tab_coded : (t : SavedTab) (rest : Text) → decode_tab (encode_tab t rest) ≡ (t, rest)
tab_coded t rest =
    let last = encode_option t.project_id rest in
    let middle = encode_option t.mux_name last in
    rw
      (
        take-length_of t.host_id middle,
        drop-length_of t.host_id middle,
        option_coded t.mux_name last,
        option_coded t.project_id rest,
      )
      refl

pub tabs_coded :
    (ts : List SavedTab) (n : ℕ) → length ts ≤ n → decode_rounds n (encode_tabs ts) ≡ ts
tabs_coded [] zero h = refl
tabs_coded [] (suc n) h = refl
tabs_coded (t ∷ ts) zero h = ground (arith, h)
tabs_coded (t ∷ ts) (suc n) h =
    ap (λ x. x.0 ∷ decode_rounds n x.1) (tab_coded t (encode_tabs ts))
    ∙ ap (λ r. t ∷ r) (tabs_coded ts n (omega (arith, h)))

option_longer : (o : Option Text) (rest : Text) → length rest ≤ length (encode_option o rest)
option_longer none rest = omega arith
option_longer (some s) rest = omega (arith, length-append s rest)

pub rounds_enough : (ts : List SavedTab) → length ts ≤ length (encode_tabs ts)
rounds_enough [] = omega arith
rounds_enough (t ∷ ts) =
    let rest = encode_tabs ts in
    let last = encode_option t.project_id rest in
    let middle = encode_option t.mux_name last in
    omega (
      arith,
      rounds_enough ts,
      option_longer t.project_id rest,
      option_longer t.mux_name last,
      length-append t.host_id middle,
    )

abbrev pub saved_coding : SavedJson
saved_coding = record {
  stringify = λ ts. encode_tabs ts;
  parse = λ cs. some (decode_rounds (length cs) cs);
  parse-stringify = λ ts. ap some (tabs_coded ts (length (encode_tabs ts)) (rounds_enough ts));
}
