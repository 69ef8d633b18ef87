-- ===== src/Diagnostics.antt =====
-- windows/native/service/diagnostics.cpp: the log that clients can read. The copies to the console
-- and the event log are not modelled.
mod Tests
use netpilot.Base.{
  ℕ, zero, suc, ◌+◌, ◌-◌, ◌≤◌, ◌≡◌, refl, sym, ap, ◌∙◌, Bool, true, false, List, [], ◌∷◌, ◌++◌,
  arith, append_assoc, ltb, leb, if◌then◌else◌, length, take, drop, length-append, length-drop,
  drop-drop, Bool-cases, inl, inr, ltb→lt, map, append-nil,
}
use netpilot.Base.Text.{Bytes, text, str_eq}

abbrev pub max_lines : ℕ
max_lines = 500

-- `while (lines_.size() > 500) lines_.pop_front()`.
trim : List Bytes → List Bytes
trim [] = []
trim (line ∷ rest) =
    let shorter = trim rest in if ltb max_lines (length (line ∷ rest)) then shorter else line ∷ rest

pub format : Bytes → Bytes
format line = if str_eq (take 9 line) (text "[NetPilot") then line else text "[NetPilot] " ++ line

-- Log, on `lines_`.
unfoldable pub log : Bytes → List Bytes → List Bytes
unfolding trim format
log line lines = trim (lines ++ format line ∷ [])

-- The last `max_lines` of a list.
abbrev pub latest : List Bytes → List Bytes
latest lines = drop (length lines - max_lines) lines

trim-latest : (lines : List Bytes) → trim lines ≡ latest lines
unfolding trim
trim-latest [] = refl
trim-latest (line ∷ rest) = elim (Bool-cases (ltb max_lines (length (line ∷ rest)))) [
  | inl b ↦
      let e : suc (length rest) - max_lines ≡ suc (length rest - max_lines) =
        omega (arith, ltb→lt max_lines (suc (length rest)) b) in
      rw b (trim-latest rest ∙ ap (λ (k : ℕ). drop k (line ∷ rest)) (sym e))
  | inr b ↦
      let e : suc (length rest) - max_lines ≡ 0 = ground arith in
      rw b (ap (λ (k : ℕ). drop k (line ∷ rest)) (sym e))
]

drop-append_le : (k : ℕ) (xs ys : List Bytes) → k ≤ length xs → drop k xs ++ ys ≡ drop k (xs ++ ys)
drop-append_le zero xs ys h = refl
drop-append_le (suc k) [] ys h = absurd (omega arith)
drop-append_le (suc k) (x ∷ xs) ys h = drop-append_le k xs ys (omega arith)

-- What is forgotten early is not among the latest lines later.
latest-append : (xs ys : List Bytes) → latest (latest xs ++ ys) ≡ latest (xs ++ ys)
latest-append xs ys =
    let k = length xs - max_lines in
    let joined : latest xs ++ ys ≡ drop k (xs ++ ys) = drop-append_le k xs ys (omega arith) in
    let far : k + (length (drop k (xs ++ ys)) - max_lines) ≡ length (xs ++ ys) - max_lines =
      omega (arith, length-drop k (xs ++ ys), length-append xs ys) in
    ap latest joined
    ∙ sym (drop-drop k (length (drop k (xs ++ ys)) - max_lines) (xs ++ ys))
    ∙ ap (λ (j : ℕ). drop j (xs ++ ys)) far

-- The lines of a run, logged one after the other.
unfoldable pub log_all : List Bytes → List Bytes → List Bytes
log_all [] lines = lines
log_all (line ∷ rest) lines = log_all rest (log line lines)

log_all-from :
    (history lines : List Bytes)
    → latest lines ≡ lines
    → log_all history lines ≡ latest (lines ++ map format history)
unfolding log_all log
log_all-from [] lines h = sym h ∙ ap latest (sym (append-nil lines))
log_all-from (line ∷ rest) lines h =
    let new = lines ++ format line ∷ [] in
    rw (trim-latest new) (
      log_all-from rest (latest new) (
        ap latest (sym (append-nil (latest new)))
        ∙ latest-append new []
        ∙ ap latest (append-nil new))
      ∙ latest-append new (map format rest)
      ∙ ap latest (append_assoc lines (format line ∷ []) (map format rest)))

-- After any run from an empty log, Snapshot gives the last 500 lines of the run, in order, each
-- with its prefix.
pub log_all-latest : (history : List Bytes) → log_all history [] ≡ latest (map format history)
log_all-latest history = log_all-from history [] refl
