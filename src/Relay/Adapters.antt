-- ===== src/Relay/Adapters.antt =====
-- FindSourceAddress: the first IPv4 address of an adapter with the given LUID.
use netpilot.Base.{
  ℕ, zero, suc, ◌*◌, ◌≡◌, refl, subst, ◌⊎◌, inl, inr, Option, none, some, List, [], ◌∷◌, ◌==◌,
  if◌then◌else◌, arith, Bool-cases, Option-cases,
}
use netpilot.Relay.Winsock.{Address, ipv4, other, Adapter, Winsock, Sockets}

-- ERROR_BUFFER_OVERFLOW.
abbrev pub buffer_overflow : ℕ
buffer_overflow = 111

unfoldable pub first_ipv4 : List Address → Option ℕ
first_ipv4 [] = none
first_ipv4 (ipv4 a ∷ rest) = some a
first_ipv4 (other ∷ rest) = first_ipv4 rest

-- An adapter with the LUID and no IPv4 address is passed over.
unfoldable pub address_in : ℕ → List Adapter → Option ℕ
unfolding first_ipv4
address_in luid [] = none
address_in luid (adapter ∷ rest) =
    let further = address_in luid rest in
    let own : Option ℕ = elim (first_ipv4 adapter.addresses) [ none ↦ further | some a ↦ some a ] in
    if adapter.luid == luid then own else further

-- An adapter of the list has the LUID, and the address as its first IPv4 address.
abbrev pub Offers : ℕ → ℕ → List Adapter → Type 0
Offers luid a [] = ⊥
Offers luid a (adapter ∷ rest) =
    ((adapter.luid ≡ luid) × (first_ipv4 adapter.addresses ≡ some a)) ⊎ Offers luid a rest

address_in-Offers :
    (luid a : ℕ) (adapters : List Adapter)
    → address_in luid adapters ≡ some a
    → Offers luid a adapters
unfolding address_in
address_in-Offers luid a [] h = cc
address_in-Offers luid a (adapter ∷ rest) h = elim (Bool-cases (adapter.luid == luid)) [
  | inr b ↦ inr (address_in-Offers luid a rest (ground (arith, b)))
  | inl b ↦ elim (Option-cases (first_ipv4 adapter.addresses)) [
    | inl e ↦ inr (address_in-Offers luid a rest (ground (arith, b, e)))
    | inr (own, e) ↦ inl (ground (arith, b), ground (arith, b, e))
  ]
]

module _ (ws : Winsock) where
  open ws use {World}

  -- The loop over the attempts: the adapters, or `none` if the status is not NO_ERROR.
  unfoldable pub query_adapters : ℕ → ℕ → World → Option (List Adapter) × World
  query_adapters zero size w = (none, w)
  query_adapters (suc attempts) size w =
      let (status, size', adapters, w') = ws.get_adapters size w in
      let again = query_adapters attempts size' w' in
      if status == buffer_overflow
      then again
      else if status == 0
      then (some adapters, w')
      else (none, w')

  unfoldable pub find_source : ℕ → World → Option ℕ × World
  unfolding address_in
  find_source luid w =
      let (adapters, w') = query_adapters 3 (16 * 1024) w in
      elim adapters [ none ↦ (none, w') | some found ↦ (address_in luid found, w') ]

  pub query_adapters-opened :
      (t : Sockets ws) (attempts size : ℕ) (w : World)
      → t.opened (query_adapters attempts size w).1 ≡ t.opened w
  unfolding query_adapters
  query_adapters-opened t zero size w = refl
  query_adapters-opened t (suc attempts) size w =
      let (status, size', adapters, w') = ws.get_adapters size w in
      ground (arith, t.adapters_keep size w, query_adapters-opened t attempts size' w')

  pub find_source-opened :
      (t : Sockets ws) (luid : ℕ) (w : World) → t.opened (find_source luid w).1 ≡ t.opened w
  unfolding find_source
  find_source-opened t luid w = elim (Option-cases (query_adapters 3 (16 * 1024) w).0) [
    | inl nothing ↦ ground (arith, nothing, query_adapters-opened t 3 (16 * 1024) w)
    | inr (found, answered) ↦ ground (arith, answered, query_adapters-opened t 3 (16 * 1024) w)
  ]

  -- An answer of GetAdaptersAddresses offers the address.
  pub record Answered (luid a : ℕ) : Type 0 where
    pub size : ℕ
    pub before : World
    pub offered : Offers luid a (ws.get_adapters size before).2

  query_adapters-Answered :
      (luid a attempts size : ℕ) (w : World) (adapters : List Adapter)
      → (query_adapters attempts size w).0 ≡ some adapters
      → Offers luid a adapters
      → Answered luid a
  unfolding query_adapters
  query_adapters-Answered luid a zero size w adapters h o = absurd (cc h)
  query_adapters-Answered luid a (suc attempts) size w adapters h o =
      let (status, size', found, w') = ws.get_adapters size w in
      elim (Bool-cases (status == buffer_overflow)) [
        | inl b ↦ query_adapters-Answered luid a attempts size' w' adapters (ground (arith, b)) o
        | inr b ↦ elim (Bool-cases (status == 0)) [
          | inr c ↦ absurd (ground (arith, b, c))
          | inl c ↦
              let e : adapters ≡ found = ground (arith, b, c) in
              record { size = size; before = w; offered = subst (Offers luid a) e o }
        ]
      ]

  pub find_source-Answered :
      (luid a : ℕ) (w : World) → (find_source luid w).0 ≡ some a → Answered luid a
  unfolding find_source
  find_source-Answered luid a w h = elim (Option-cases (query_adapters 3 (16 * 1024) w).0) [
    | inl nothing ↦ absurd (ground (arith, nothing))
    | inr (found, answered) ↦
        query_adapters-Answered luid a 3 (16 * 1024) w found answered
          (address_in-Offers luid a found (ground (arith, answered)))
  ]
