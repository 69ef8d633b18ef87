-- ===== src/Runner/Network/Listed.antt =====
-- What List answers, and its order.
use netpilot.Base.{
  ℕ, zero, suc, ◌≡◌, ◌≢◌, refl, ap, ◌⊎◌, ◌↔◌, inl, inr, true, false, not, ◌&&◌, Option, none, some,
  List, [], ◌∷◌, ◌*◌, arith, Bool-cases, ◌==◌, ==_iff,
}
use netpilot.Base.Text.{text}
use mathlib.Core.List.{Perm}
use netpilot.Std.Number.{to_string}
use netpilot.Std.OrderedSet.{str_lt}
use netpilot.Std.Sort.{sort}
use netpilot.Std.Sort.Laws.{IsOrdered, sort-perm, sort-IsOrdered, str_lt_asymmetric}
use netpilot.Relay.Adapters.{buffer_overflow}
use netpilot.Runner.Network.{
  NetworkApi, AdapterEntry, WindowsAdapterInfo, comes_before, infos, adapter_info, ask_adapters,
  list_adapters, ethernet, wireless,
}

-- The first may stand ahead of the second: it is active and the other is not; or they are alike in
-- that, and it has the default route and the other has not; or they are alike in both, and its name
-- is not the greater one.
pub data MayPrecede (x y : WindowsAdapterInfo) : Type 0 where
  by_activity : x.is_active ≡ true → y.is_active ≡ false → MayPrecede x y
  by_route :
      x.is_active ≡ y.is_active
      → x.is_default_route ≡ true
      → y.is_default_route ≡ false
      → MayPrecede x y
  by_name :
      x.is_active ≡ y.is_active
      → x.is_default_route ≡ y.is_default_route
      → str_lt y.name x.name ≡ false
      → MayPrecede x y

abbrev pub InOrder : List WindowsAdapterInfo → Type 0
InOrder [] = Unit {0}
InOrder (x ∷ []) = Unit {0}
InOrder (x ∷ y ∷ rest) = MayPrecede x y × InOrder (y ∷ rest)

comes_before_asymmetric :
    (x y : WindowsAdapterInfo) → comes_before x y ≡ true → comes_before y x ≡ false
unfolding comes_before
comes_before_asymmetric x y h = ground (arith, str_lt_asymmetric x.name y.name)

may_precede : (x y : WindowsAdapterInfo) → comes_before y x ≡ false → MayPrecede x y
unfolding comes_before
may_precede x y h = elim (Bool-cases x.is_active) [
  | inl up ↦ elim (Bool-cases y.is_active) [
    | inr down ↦ by_activity up down
    | inl up' ↦ elim (Bool-cases x.is_default_route) [
      | inl own ↦ elim (Bool-cases y.is_default_route) [
        | inl own' ↦ by_name (cc (up, up')) (cc (own, own')) (ground (arith, h))
        | inr other' ↦ by_route (cc (up, up')) own other'
      ]
      | inr other ↦ by_name (cc (up, up')) (ground (arith, h)) (ground (arith, h))
    ]
  ]
  | inr down ↦ elim (Bool-cases x.is_default_route) [
    | inl own ↦ elim (Bool-cases y.is_default_route) [
      | inl own' ↦ by_name (ground (arith, h)) (cc (own, own')) (ground (arith, h))
      | inr other' ↦ by_route (ground (arith, h)) own other'
    ]
    | inr other ↦ by_name (ground (arith, h)) (ground (arith, h)) (ground (arith, h))
  ]
]

IsOrdered-InOrder : (l : List WindowsAdapterInfo) → IsOrdered comes_before l → InOrder l
IsOrdered-InOrder [] h = tt
IsOrdered-InOrder (x ∷ []) h = tt
IsOrdered-InOrder (x ∷ y ∷ rest) h = (may_precede x y h.0, IsOrdered-InOrder (y ∷ rest) h.1)

-- An Ethernet or a wireless adapter as the list shows it, where the system has this best route.
pub record Shows (best : Option ℕ) (e : AdapterEntry) (x : WindowsAdapterInfo) : Type 0 where
  pub kind : ((e.type ≡ 6) × (x.kind ≡ text "ethernet")) ⊎ ((e.type ≡ 71) × (x.kind ≡ text "wifi"))
  pub id : x.id ≡ to_string e.luid
  pub native_id : x.native_id ≡ to_string e.luid
  pub name : x.name ≡ e.friendly_name
  pub interface_name : x.interface_name ≡ e.friendly_name
  pub interface_index : x.interface_index ≡ e.index
  pub is_active : x.is_active ≡ e.is_up
  pub is_default_route :
      (x.is_default_route ≡ true) ↔ ((best ≡ some e.luid) ⊎ ((best ≡ none) × (e.luid ≡ 0)))

-- The adapters of the two types, each shown once, and none of another type.
pub data Shown (best : Option ℕ) : List AdapterEntry → List WindowsAdapterInfo → Type 0 where
  no_more : Shown best [] []
  passed :
      (e : AdapterEntry) (rest : List AdapterEntry) (l : List WindowsAdapterInfo)
      → e.type ≢ 6
      → e.type ≢ 71
      → Shown best rest l
      → Shown best (e ∷ rest) l
  taken :
      (e : AdapterEntry) (rest : List AdapterEntry) (x : WindowsAdapterInfo)
      (l : List WindowsAdapterInfo)
      → Shows best e x
      → Shown best rest l
      → Shown best (e ∷ rest) (x ∷ l)

module _ (n : NetworkApi) where
  open n use {World}

  default_route :
      (best : Option ℕ) (e : AdapterEntry)
      → ((adapter_info n best e).is_default_route ≡ true)
        ↔ ((best ≡ some e.luid) ⊎ ((best ≡ none) × (e.luid ≡ 0)))
  unfolding adapter_info
  default_route none e =
      (λ h. inr (refl, (==_iff e.luid 0).0 h), λ h. ground (arith, h, ==_iff e.luid 0))
  default_route (some luid) e =
      (λ h. inl (cc ((==_iff e.luid luid).0 h)), λ h. ground (arith, h, ==_iff e.luid luid))

  adapter_info-Shows :
      (best : Option ℕ) (e : AdapterEntry)
      → (e.type ≡ 6) ⊎ (e.type ≡ 71)
      → Shows best e (adapter_info n best e)
  unfolding adapter_info
  adapter_info-Shows best e h = record {
    kind = elim h [
      | inl wired ↦ inl (wired, rw wired refl)
      | inr radio ↦ inr (radio, rw radio refl)
    ];
    id = refl;
    native_id = refl;
    name = refl;
    interface_name = refl;
    interface_index = refl;
    is_active = refl;
    is_default_route = default_route best e;
  }

  infos-Shown :
      (best : Option ℕ) (adapters : List AdapterEntry) → Shown best adapters (infos n best adapters)
  unfolding infos
  infos-Shown best [] = no_more
  infos-Shown best (e ∷ rest) =
      elim (Bool-cases (not (e.type == wireless) && not (e.type == ethernet))) [
        | inl foreign ↦
            rw (foreign, infos)
              (passed e rest _ (ground (arith, foreign, ==_iff e.type 6))
                (ground (arith, foreign, ==_iff e.type 71)) (infos-Shown best rest))
        | inr wanted ↦
            rw (wanted, infos)
              (taken e rest _ _
                (adapter_info-Shows best e
                  (ground (arith, wanted, ==_iff e.type 6, ==_iff e.type 71)))
                (infos-Shown best rest))
      ]

  -- The system gave these adapters in its last answer, and the list shows them in order.
  pub record IsListed (listed : List WindowsAdapterInfo) (after : World) : Type 0 where
    pub size : ℕ
    pub size' : ℕ
    pub before : World
    pub adapters : List AdapterEntry
    pub answered : n.get_adapters size before ≡ (0, size', adapters, after)
    pub unordered : List WindowsAdapterInfo
    pub shown : Shown (n.best_luid after) adapters unordered
    pub same : Perm listed unordered
    pub in_order : InOrder listed

  answered_at :
      (attempts size : ℕ) (w : World) (adapters : List AdapterEntry) (after : World)
      → ask_adapters n attempts size w ≡ (0, adapters, after)
      → (size size' : ℕ) × (before : World) × (n.get_adapters size before
          ≡ (0, size', adapters, after))
  unfolding ask_adapters
  answered_at zero size w adapters after h = absurd (ground (arith, h))
  answered_at (suc attempts) size w adapters after h =
      let (status, size', found, w') = n.get_adapters size w in
      elim (Bool-cases (status == buffer_overflow)) [
        | inl again ↦ answered_at attempts size' w' adapters after (ground (arith, again, h))
        | inr done ↦
            let e : ◌≡◌ {A = ℕ × List AdapterEntry × World} (status, found, w')
                (0, adapters, after) =
              ground (arith, done, h) in
            let f : ℕ × List AdapterEntry × World → ℕ × ℕ × List AdapterEntry × World =
              λ t. (t.0, size', t.1, t.2) in
            (size, size', w, ap f e)
      ]

  -- If List answers without an error, the system answered a call of GetAdaptersAddresses with
  -- success, and the list holds each of its Ethernet and wireless adapters once and no other, with
  -- the LUID, the names, the index, the kind and the state that the system gave, and marked as the
  -- default route if its LUID is that of the best route (or 0 and there is none). The active ones
  -- come first, then those of the default route, then they go by name.
  pub list_adapters-IsListed :
      (w : World)
      → (list_adapters n w).1 ≡ []
      → IsListed (list_adapters n w).0 (list_adapters n w).2
  unfolding list_adapters
  list_adapters-IsListed w h =
      let (status, adapters, w') = ask_adapters n 3 (16 * 1024) w in
      elim (Bool-cases (status == 0)) [
        | inr failed ↦ absurd (ground (arith, failed))
        | inl ok ↦
            let found = infos n (n.best_luid w') adapters in
            let e : list_adapters n w ≡ (sort comes_before found, [], w') = ground (arith, ok) in
            let zero' : status ≡ 0 = (==_iff status 0).0 ok in
            let (size, size', before, answer) =
              answered_at 3 (16 * 1024) w adapters w' (cc zero') in
            rw e (record {
              size = size;
              size' = size';
              before = before;
              adapters = adapters;
              answered = answer;
              unordered = found;
              shown = infos-Shown (n.best_luid w') adapters;
              same = sort-perm comes_before found;
              in_order =
                  IsOrdered-InOrder _ (sort-IsOrdered comes_before comes_before_asymmetric found);
            })
      ]
