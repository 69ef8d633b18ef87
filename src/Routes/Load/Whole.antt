-- ===== src/Routes/Load/Whole.antt =====
-- The text of the state file has no byte 26, which would end the reading.
use netpilot.Base.{◌≡◌, refl, false, ◌||◌, List, [], ◌∷◌, ◌++◌, ◌==◌, arith, All, any_of}
use netpilot.Base.Text.{Bytes, text}
use netpilot.Protocol.Types.{RouteSpec}
use netpilot.Routes.Inventory.{escape, quoted, entry_text, more_entries, entries, state_text}

-- No backslash, no quotation mark and no byte 26.
abbrev pub IsPlain : Bytes → Type 0
IsPlain s = any_of (λ c. c == 92 || c == 34 || c == 26) s ≡ false

pub record IsPlainRoute (route : RouteSpec) : Type 0 where
  pub destination : IsPlain route.destination
  pub gateway : IsPlain route.gateway
  pub interface_luid : IsPlain route.interface_luid
  pub tag : IsPlain route.tag

abbrev pub IsWhole : Bytes → Type 0
IsWhole s = any_of (λ c. c == 26) s ≡ false

IsWhole-append : (s t : Bytes) → IsWhole s → IsWhole t → IsWhole (s ++ t)
IsWhole-append [] t h k = k
IsWhole-append (c ∷ s) t h k = ground (arith, IsWhole-append s t)

escape-IsWhole : (s : Bytes) → IsPlain s → IsWhole (escape s)
unfolding escape
escape-IsWhole [] h = refl
escape-IsWhole (c ∷ s) h = ground (arith, escape-IsWhole s)

-- A field, behind a part of the text that is whole.
part-IsWhole :
    (part field rest : Bytes)
    → IsWhole part
    → IsPlain field
    → IsWhole rest
    → IsWhole (part ++ (escape field ++ rest))
part-IsWhole part field rest h plain k =
    IsWhole-append part (escape field ++ rest) h
      (IsWhole-append (escape field) rest (escape-IsWhole field plain) k)

entry_text-IsWhole : (route : RouteSpec) → IsPlainRoute route → IsWhole (entry_text route)
unfolding entry_text quoted
entry_text-IsWhole route h =
    let s4 = quoted (text "','tag':'") ++ (escape route.tag ++ quoted (text "'}")) in
    let s3 = quoted (text "','interfaceLuid':'") ++ (escape route.interface_luid ++ s4) in
    let s2 = quoted (text "','gateway':'") ++ (escape route.gateway ++ s3) in
    let tag =
      part-IsWhole (quoted (text "','tag':'")) route.tag (quoted (text "'}")) refl h.tag refl in
    let luid =
      part-IsWhole (quoted (text "','interfaceLuid':'")) route.interface_luid s4 refl
        h.interface_luid tag in
    let gateway =
      part-IsWhole (quoted (text "','gateway':'")) route.gateway s3 refl h.gateway luid in
    part-IsWhole (quoted (text "    {'destination':'")) route.destination s2 refl h.destination
      gateway

more_entries-IsWhole :
    (routes : List RouteSpec) → All IsPlainRoute routes → IsWhole (more_entries routes)
unfolding more_entries
more_entries-IsWhole [] h = refl
more_entries-IsWhole (route ∷ rest) h =
    IsWhole-append (entry_text route) (more_entries rest) (entry_text-IsWhole route h.0)
      (more_entries-IsWhole rest h.1)

entries-IsWhole : (routes : List RouteSpec) → All IsPlainRoute routes → IsWhole (entries routes)
unfolding entries
entries-IsWhole [] h = refl
entries-IsWhole (route ∷ rest) h =
    IsWhole-append (entry_text route) (more_entries rest) (entry_text-IsWhole route h.0)
      (more_entries-IsWhole rest h.1)

pub state_text-IsWhole :
    (routes : List RouteSpec) → All IsPlainRoute routes → IsWhole (state_text routes)
unfolding state_text quoted
state_text-IsWhole routes h =
    IsWhole-append (entries routes) (10 ∷ (text "  ]" ++ 10 ∷ 125 ∷ 10 ∷ []))
      (entries-IsWhole routes h) refl
