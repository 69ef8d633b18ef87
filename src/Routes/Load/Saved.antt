-- ===== src/Routes/Load/Saved.antt =====
-- Load reads back what Save wrote.
use netpilot.Base.{
  ℕ, zero, suc, ◌≤◌, ◌≡◌, refl, sym, ap, ◌∙◌, false, none, some, List, [], ◌∷◌, ◌++◌, append_assoc,
  subst, arith, All, ◌==◌, length, length-append, any_of,
}
use netpilot.Base.Text.{Bytes, text}
use netpilot.Protocol.Types.{RouteSpec}
use netpilot.Routes.Inventory.{escape, quoted, entry_text, more_entries, entries, state_text}
use netpilot.Std.TextMode.{write_text, read_text-write_text}
use netpilot.Routes.Load.Whole.{IsPlain, IsPlainRoute, state_text-IsWhole}
use netpilot.Routes.Load.{after, field, group, match_parts, match_entry, all_entries, load}

escape_plain : (s : Bytes) → IsPlain s → escape s ≡ s
unfolding escape
escape_plain [] h = refl
escape_plain (c ∷ s) h = ground (arith, escape_plain s)

after-append : (part s : Bytes) → after part (part ++ s) ≡ some s
unfolding after
after-append [] s = refl
after-append (c ∷ part) s = ground (arith, after-append part s)

field_front : (a rest : Bytes) → IsPlain a → field (a ++ 34 ∷ rest) ≡ some (a, 34 ∷ rest)
unfolding field
field_front [] rest h = refl
field_front (c ∷ a) rest h = ground (arith, field_front a rest)

-- An entry from its brace on, and what follows it.
abbrev object_text : RouteSpec → Bytes → Bytes
object_text route rest =
    quoted (text "{'destination':'")
    ++ (route.destination
        ++ (quoted (text "','gateway':'")
            ++ (route.gateway
                ++ (quoted (text "','interfaceLuid':'")
                    ++ (route.interface_luid
                        ++ (quoted (text "','tag':'")
                            ++ (route.tag ++ (quoted (text "'}") ++ rest))))))))

group_front :
    (part a rest : Bytes) → IsPlain a → group part (part ++ (a ++ 34 ∷ rest)) ≡ some (a, 34 ∷ rest)
unfolding group
group_front part a rest h = rw (after-append part (a ++ 34 ∷ rest)) (field_front a rest h)

-- The parts after the first one begin with a quotation mark.
match_parts_front :
    (p1 p2 p3 p4 p5 : Bytes) (route : RouteSpec) (rest : Bytes)
    → IsPlainRoute route
    → match_parts p1 (34 ∷ p2) (34 ∷ p3) (34 ∷ p4) (34 ∷ p5) (
        p1
        ++ (route.destination
            ++ 34
              ∷ (p2
                  ++ (route.gateway
                      ++ 34
                        ∷ (p3
                            ++ (route.interface_luid
                                ++ 34 ∷ (p4 ++ (route.tag ++ 34 ∷ (p5 ++ rest)))))))))
      ≡ some (route, rest)
unfolding match_parts
match_parts_front p1 p2 p3 p4 p5 route rest h =
    let s4 = 34 ∷ (p5 ++ rest) in
    let s3 = 34 ∷ (p4 ++ (route.tag ++ s4)) in
    let s2 = 34 ∷ (p3 ++ (route.interface_luid ++ s3)) in
    let e1 = group_front p1 route.destination (p2 ++ (route.gateway ++ s2)) h.destination in
    let e2 = group_front (34 ∷ p2) route.gateway (p3 ++ (route.interface_luid ++ s3)) h.gateway in
    let e3 =
      group_front (34 ∷ p3) route.interface_luid (p4 ++ (route.tag ++ s4)) h.interface_luid in
    let e4 = group_front (34 ∷ p4) route.tag (p5 ++ rest) h.tag in
    let e5 = after-append (34 ∷ p5) rest in rw (e1, e2, e3, e4, e5) refl

match_entry-object_text :
    (route : RouteSpec) (rest : Bytes)
    → IsPlainRoute route
    → match_entry (object_text route rest) ≡ some (route, rest)
unfolding match_entry
match_entry-object_text route rest h =
    match_parts_front (quoted (text "{'destination':'")) (quoted (text ",'gateway':'"))
      (quoted (text ",'interfaceLuid':'")) (quoted (text ",'tag':'")) (quoted (text "}")) route rest
      h

-- With enough fuel, the entries that a text holds.
abbrev Holds : Bytes → List RouteSpec → Type 0
Holds s routes = (fuel : ℕ) → length s ≤ fuel → all_entries fuel s ≡ routes

Holds-nil : Holds [] []
unfolding all_entries
Holds-nil zero enough = refl
Holds-nil (suc fuel) enough = refl

Holds-skip :
    (c : ℕ) (s : Bytes) (routes : List RouteSpec)
    → match_entry (c ∷ s) ≡ none
    → Holds s routes
    → Holds (c ∷ s) routes
unfolding all_entries
Holds-skip c s routes no_match h zero enough = absurd (omega arith)
Holds-skip c s routes no_match h (suc fuel) enough =
    rw (no_match, all_entries) (h fuel (omega arith))

no_brace : (c : ℕ) (s : Bytes) → (c == 123) ≡ false → match_entry (c ∷ s) ≡ none
unfolding match_entry after quoted
no_brace c s other = ground (arith, other)

-- Text with no brace before the entries.
Holds-append :
    (front s : Bytes) (routes : List RouteSpec)
    → any_of (λ c. c == 123) front ≡ false
    → Holds s routes
    → Holds (front ++ s) routes
Holds-append [] s routes h hs = hs
Holds-append (c ∷ front) s routes h hs =
    Holds-skip c (front ++ s) routes (no_brace c (front ++ s) (ground (arith, h)))
      (Holds-append front s routes (ground (arith, h)) hs)

-- A match is of a byte at least.
Holds-match :
    (c : ℕ) (s rest : Bytes) (route : RouteSpec) (routes : List RouteSpec)
    → match_entry (c ∷ s) ≡ some (route, rest)
    → length rest ≤ length s
    → Holds rest routes
    → Holds (c ∷ s) (route ∷ routes)
unfolding all_entries
Holds-match c s rest route routes found shorter h zero enough = absurd (omega arith)
Holds-match c s rest route routes found shorter h (suc fuel) enough =
    rw (found, all_entries) (ap (◌∷◌ route) (h fuel (omega (arith, shorter, enough))))

-- An entry behind its brace.
abbrev tail_text : RouteSpec → Bytes → Bytes
tail_text route rest =
    quoted (text "'destination':'")
    ++ (route.destination
        ++ (quoted (text "','gateway':'")
            ++ (route.gateway
                ++ (quoted (text "','interfaceLuid':'")
                    ++ (route.interface_luid
                        ++ (quoted (text "','tag':'")
                            ++ (route.tag ++ (quoted (text "'}") ++ rest))))))))

object_text_brace :
    (route : RouteSpec) (rest : Bytes) → object_text route rest ≡ 123 ∷ tail_text route rest
unfolding quoted
object_text_brace route rest = refl

length_behind : (a b : Bytes) (n : ℕ) → n ≤ length b → n ≤ length (a ++ b)
length_behind a b n h = omega (arith, length-append a b, h)

length-tail_text : (route : RouteSpec) (rest : Bytes) → length rest ≤ length (tail_text route rest)
length-tail_text route rest =
    let n = length rest in
    let b1 = length_behind (quoted (text "'}")) rest n (omega arith) in
    let b2 = length_behind route.tag _ n b1 in
    let b3 = length_behind (quoted (text "','tag':'")) _ n b2 in
    let b4 = length_behind route.interface_luid _ n b3 in
    let b5 = length_behind (quoted (text "','interfaceLuid':'")) _ n b4 in
    let b6 = length_behind route.gateway _ n b5 in
    let b7 = length_behind (quoted (text "','gateway':'")) _ n b6 in
    let b8 = length_behind route.destination _ n b7 in
    length_behind (quoted (text "'destination':'")) _ n b8

Holds-object :
    (route : RouteSpec) (rest : Bytes) (routes : List RouteSpec)
    → IsPlainRoute route
    → Holds rest routes
    → Holds (object_text route rest) (route ∷ routes)
Holds-object route rest routes plain h =
    let e = object_text_brace route rest in
    let found = ap match_entry (sym e) ∙ match_entry-object_text route rest plain in
    subst (λ s. Holds s (route ∷ routes)) (sym e)
      (Holds-match 123 (tail_text route rest) rest route routes found (length-tail_text route rest)
        h)

spaces : Bytes
spaces = 32 ∷ 32 ∷ 32 ∷ 32 ∷ []

entry_text-object_text :
    (route : RouteSpec) (rest : Bytes)
    → IsPlainRoute route
    → entry_text route ++ rest ≡ spaces ++ object_text route rest
unfolding entry_text spaces
entry_text-object_text route rest h = simp (
  escape_plain route.destination h.destination,
  escape_plain route.gateway h.gateway,
  escape_plain route.interface_luid h.interface_luid,
  escape_plain route.tag h.tag,
  append_assoc,
)

Holds-entry :
    (route : RouteSpec) (rest : Bytes) (routes : List RouteSpec)
    → IsPlainRoute route
    → Holds rest routes
    → Holds (entry_text route ++ rest) (route ∷ routes)
unfolding spaces
Holds-entry route rest routes plain h =
    subst (λ s. Holds s (route ∷ routes)) (sym (entry_text-object_text route rest plain))
      (Holds-append spaces (object_text route rest) (route ∷ routes) refl
        (Holds-object route rest routes plain h))

-- The entries, each after a comma and the end of a line.
Holds-more_entries :
    (routes : List RouteSpec) (rest : Bytes)
    → All IsPlainRoute routes
    → Holds rest []
    → Holds (more_entries routes ++ rest) routes
unfolding more_entries
Holds-more_entries [] rest plain h = h
Holds-more_entries (route ∷ routes) rest plain h =
    subst (λ s. Holds (44 ∷ 10 ∷ s) (route ∷ routes))
      (sym (append_assoc (entry_text route) (more_entries routes) rest))
      (Holds-append (44 ∷ 10 ∷ []) _ (route ∷ routes) refl (
        Holds-entry route (more_entries routes ++ rest) routes plain.0
          (Holds-more_entries routes rest plain.1 h)))

Holds-entries :
    (routes : List RouteSpec) (rest : Bytes)
    → All IsPlainRoute routes
    → Holds rest []
    → Holds (entries routes ++ rest) routes
unfolding entries
Holds-entries [] rest plain h = h
Holds-entries (route ∷ routes) rest plain h =
    subst (λ s. Holds (10 ∷ s) (route ∷ routes))
      (sym (append_assoc (entry_text route) (more_entries routes) rest))
      (Holds-append (10 ∷ []) _ (route ∷ routes) refl (
        Holds-entry route (more_entries routes ++ rest) routes plain.0
          (Holds-more_entries routes rest plain.1 h)))

end_text : Bytes
end_text = 10 ∷ (text "  ]" ++ 10 ∷ 125 ∷ 10 ∷ [])

Holds-end_text : Holds end_text []
unfolding end_text
Holds-end_text = Holds-append (10 ∷ (text "  ]" ++ 10 ∷ 125 ∷ 10 ∷ [])) [] [] refl Holds-nil

first_brace : (s : Bytes) → match_entry (123 ∷ 10 ∷ s) ≡ none
unfolding match_entry match_parts group after quoted
first_brace s = refl

Holds-state_text :
    (routes : List RouteSpec) → All IsPlainRoute routes → Holds (state_text routes) routes
unfolding state_text end_text quoted
Holds-state_text routes plain = Holds-skip 123 _ routes (first_brace _) (
    Holds-append (10 ∷ quoted (text "  'version': 1,") ++ 10 ∷ quoted (text "  'routes': [")) _
      routes refl (Holds-entries routes end_text plain Holds-end_text))

-- Load reads back exactly the inventory from the bytes that Save writes for it, in order, if no field
-- has a backslash, a quotation mark or byte 26.
pub load-state_text :
    (routes : List RouteSpec)
    → All IsPlainRoute routes
    → load (some (write_text (state_text routes))) [] ≡ routes
unfolding load
load-state_text routes plain =
    rw (read_text-write_text (state_text routes) (state_text-IsWhole routes plain))
      (Holds-state_text routes plain (length (state_text routes)) (omega arith))
