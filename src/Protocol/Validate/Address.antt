-- ===== src/Protocol/Validate/Address.antt =====
-- What the expressions for addresses and prefix lengths accept, as bytes and numbers.
use netpilot.Base.{
  ℕ, sym, ◌+◌, ◌-◌, ◌*◌, ◌≤◌, ◌≡◌, inl, inr, ◌≢◌, true, false, ◌&&◌, some, [], ◌∷◌, arith, leb,
  ◌==◌, All, All-append, subst,
}
use netpilot.Base.Text.{Bytes}
use netpilot.Std.Number.{stoi}
use netpilot.Std.Regex.{Regex, eps, cls, seq, alt, Matches}
use netpilot.Protocol.Validate.{octet, ipv4, prefix}

-- Every byte class of an expression lies within `P`.
abbrev Within : (ℕ → Type 0) → Regex → Type 0
Within P eps = Unit {0}
Within P (cls p) = (c : ℕ) → p c ≡ true → P c
Within P (seq a b) = Within P a × Within P b
Within P (alt a b) = Within P a × Within P b

Matches-All : (P : ℕ → Type 0) (r : Regex) (s : Bytes) → Within P r → Matches r s → All P s
Matches-All P eps s w m = subst (All P) (sym m) tt
Matches-All P (cls p) s w (c, e, h) = subst (All P) (sym e) (w c h, tt)
Matches-All P (seq a b) s w (u, v, e, ma, mb) =
    subst (All P) (sym e) (All-append P u v (Matches-All P a u w.0 ma) (Matches-All P b v w.1 mb))
Matches-All P (alt a b) s w (inl m) = Matches-All P a s w.0 m
Matches-All P (alt a b) s w (inr m) = Matches-All P b s w.1 m

range-ne : (lo hi : ℕ) → 48 ≤ lo → (c : ℕ) → (leb lo c && leb c hi) ≡ true → c ≢ 47
range-ne lo hi h c t = ground arith

chr-ne : (d : ℕ) → d ≢ 47 → (c : ℕ) → (c == d) ≡ true → c ≢ 47
chr-ne d h c t = ground arith

octet-Within : Within (λ c. c ≢ 47) octet
unfolding octet
octet-Within = (
  (chr-ne 50 (omega arith), (chr-ne 53 (omega arith), range-ne 48 53 (omega arith))),
  (
    (chr-ne 50 (omega arith), (range-ne 48 52 (omega arith), range-ne 48 57 (omega arith))),
    (
      (range-ne 48 49 (omega arith), tt),
      ((range-ne 48 57 (omega arith), tt), range-ne 48 57 (omega arith)),
    ),
  ),
)

ipv4-Within : Within (λ c. c ≢ 47) ipv4
unfolding ipv4
ipv4-Within = ((dotted, (dotted, (dotted, tt))), octet-Within)
  where
    dotted : Within (λ c. c ≢ 47) octet × ((c : ℕ) → (c == 46) ≡ true → c ≢ 47)
    dotted = (octet-Within, chr-ne 46 (omega arith))

-- A dotted address has no slash.
pub ipv4-no_slash : (s : Bytes) → Matches ipv4 s → All (λ c. c ≢ 47) s
ipv4-no_slash s m = Matches-All (λ c. c ≢ 47) ipv4 s ipv4-Within m

one_digit :
    (d : ℕ)
    → 48 ≤ d
    → d ≤ 57
    → stoi (d ∷ []) ≡ some (record { negative = false; magnitude = d - 48 })
unfolding stoi
one_digit d lo hi = ground arith

two_digits :
    (c d : ℕ)
    → 48 ≤ c
    → c ≤ 57
    → 48 ≤ d
    → d ≤ 57
    → stoi (c ∷ d ∷ []) ≡ some (record { negative = false; magnitude = 10 * (c - 48) + (d - 48) })
unfolding stoi
two_digits c d lo hi lo' hi' = ground arith

-- `stoi` reads a prefix length as a number from 0 to 32.
pub prefix-stoi :
    (s : Bytes)
    → Matches prefix s
    → (m : ℕ) × (stoi s ≡ some (record { negative = false; magnitude = m })) × (m ≤ 32)
unfolding prefix
prefix-stoi s (inl (u, v, e, (c, ec, hc), (d, ed, hd))) = (
  10 * (c - 48) + (d - 48),
  rw (e, ec, ed) (two_digits c d (ground arith) (ground arith) (ground arith) (ground arith)),
  ground arith,
)
prefix-stoi s (inr (u, v, e, inl (c, ec, hc), (d, ed, hd))) = (
  10 * (c - 48) + (d - 48),
  rw (e, ec, ed) (two_digits c d (ground arith) (ground arith) (ground arith) (ground arith)),
  ground arith,
)
prefix-stoi s (inr (u, v, e, inr eu, (d, ed, hd))) =
    (d - 48, rw (e, eu, ed) (one_digit d (ground arith) (ground arith)), ground arith)
