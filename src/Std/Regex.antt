-- ===== src/Std/Regex.antt =====
-- std::regex_match for expressions without a star: the matcher, and the language that it decides.
use netpilot.Base.{
  ℕ, zero, suc, ◌≡◌, refl, sym, ap, ◌∙◌, ◌↔◌, ◌⊎◌, inl, inr, Bool, true, false, ◌&&◌, ◌||◌, List,
  [], ◌∷◌, ◌++◌, append_assoc, append-nil, arith, Bool-cases, subst,
}
use netpilot.Base.Text.{Bytes, is_empty}

pub data Regex : Type 0 where
  eps : Regex
  cls : (ℕ → Bool) → Regex
  seq alt : Regex → Regex → Regex

-- `r?`
abbrev pub opt : Regex → Regex
opt r = alt r eps

-- `r{n}`
abbrev pub times : ℕ → Regex → Regex
times zero r = eps
times (suc n) r = seq r (times n r)

-- `r{0,n}`
abbrev pub up_to : ℕ → Regex → Regex
up_to zero r = eps
up_to (suc n) r = opt (seq r (up_to n r))

-- A match of the front, and a test of what is left.
match_front : Regex → (Bytes → Bool) → Bytes → Bool
match_front eps k s = k s
match_front (cls p) k [] = false
match_front (cls p) k (c ∷ s) = p c && k s
match_front (seq a b) k s = match_front a (match_front b k) s
match_front (alt a b) k s = match_front a k s || match_front b k s

unfoldable pub regex_match : Bytes → Regex → Bool
unfolding match_front
regex_match s r = match_front r is_empty s

-- The language of an expression.
abbrev pub Matches : Regex → Bytes → Type 0
Matches eps s = s ≡ []
Matches (cls p) s = (c : ℕ) × (s ≡ c ∷ []) × (p c ≡ true)
Matches (seq a b) s = (u : Bytes) × (v : Bytes) × (s ≡ u ++ v) × Matches a u × Matches b v
Matches (alt a b) s = Matches a s ⊎ Matches b s

-- A front in the language, and the rest passes the test.
abbrev Splits : Regex → (Bytes → Bool) → Bytes → Type 0
Splits r k s = (u : Bytes) × (v : Bytes) × (s ≡ u ++ v) × Matches r u × (k v ≡ true)

match_front_sound :
    (r : Regex) (k : Bytes → Bool) (s : Bytes) → match_front r k s ≡ true → Splits r k s
unfolding match_front
match_front_sound eps k s h = ([], s, refl, refl, h)
match_front_sound (cls p) k [] h = cc
match_front_sound (cls p) k (c ∷ s) h = (c ∷ [], s, refl, (c, refl, ground arith), ground arith)
match_front_sound (seq a b) k s h =
    let (u, v, e, ma, h') = match_front_sound a (match_front b k) s h in
    let (w, x, e', mb, h'') = match_front_sound b k v h' in
    (u ++ w, x, e ∙ ap (◌++◌ u) e' ∙ sym (append_assoc u w x), (u, w, refl, ma, mb), h'')
match_front_sound (alt a b) k s h = elim (Bool-cases (match_front a k s)) [
  | inl first ↦ let (u, v, e, m, h') = match_front_sound a k s first in (u, v, e, inl m, h')
  | inr other ↦
      let (u, v, e, m, h') = match_front_sound b k s (ground arith) in (u, v, e, inr m, h')
]

match_front_complete :
    (r : Regex) (k : Bytes → Bool) (u v : Bytes)
    → Matches r u
    → k v ≡ true
    → match_front r k (u ++ v) ≡ true
unfolding match_front
match_front_complete eps k u v m h = rw m h
match_front_complete (cls p) k u v (c, e, hc) h = rw e (ground arith)
match_front_complete (seq a b) k u v (x, y, e, ma, mb) h =
    rw (e, append_assoc x y v)
      (match_front_complete a (match_front b k) x (y ++ v) ma (match_front_complete b k y v mb h))
match_front_complete (alt a b) k u v (inl m) h =
    let first = match_front_complete a k u v m h in ground arith
match_front_complete (alt a b) k u v (inr m) h =
    let other = match_front_complete b k u v m h in ground arith

pub is_empty→nil {ℓ} : {A : Type ℓ} (s : List A) → is_empty s ≡ true → s ≡ []
is_empty→nil [] h = refl
is_empty→nil (c ∷ s) h = cc

-- `regex_match` decides the language.
pub regex_match_iff : (s : Bytes) (r : Regex) → (regex_match s r ≡ true) ↔ Matches r s
unfolding regex_match
regex_match_iff s r = (to, from)
  where
    to : match_front r is_empty s ≡ true → Matches r s
    to h =
        let (u, v, e, m, hv) = match_front_sound r is_empty s h in
        let whole : s ≡ u = e ∙ ap (◌++◌ u) (is_empty→nil v hv) ∙ append-nil u in
        subst (Matches r) (sym whole) m

    from : Matches r s → match_front r is_empty s ≡ true
    from m =
        subst (λ t. match_front r is_empty t ≡ true) (append-nil s)
          (match_front_complete r is_empty s [] m refl)
