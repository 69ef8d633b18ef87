-- ===== src/Routes/Load/Tests.antt =====
-- A state file with two routes, and one whose tag has a quotation mark.
use netpilot.Base.{◌≡◌, refl, some, [], ◌∷◌, ◌++◌}
use netpilot.Base.Text.{text}
use netpilot.Protocol.Types.{RouteSpec}
use netpilot.Routes.Inventory.{escape, state_text}
use netpilot.Routes.Load.{load}
use netpilot.Std.TextMode.{write_text, read_text}
use netpilot.Routes.Load.Whole.{IsPlainRoute}
use netpilot.Routes.Load.Saved.{load-state_text}

abbrev office : RouteSpec
office = record {
  destination = text "203.0.113.10/32";
  gateway = text "192.168.8.1";
  interface_luid = text "123456";
  tag = text "netpilot:rule";
}

abbrev home : RouteSpec
home = record office { destination = text "198.51.100.0/24"; gateway = [] }

office_plain : IsPlainRoute office
office_plain = record { destination = refl; gateway = refl; interface_luid = refl; tag = refl }

home_plain : IsPlainRoute home
home_plain = record { destination = refl; gateway = refl; interface_luid = refl; tag = refl }

load-state_text_example :
    load (some (write_text (state_text (office ∷ home ∷ [])))) [] ≡ office ∷ home ∷ []
load-state_text_example = load-state_text (office ∷ home ∷ []) (office_plain, (home_plain, tt))

abbrev marked : RouteSpec
marked = record office { tag = 34 ∷ [] }

quoted_lost : load (some (write_text (state_text (marked ∷ [])))) [] ≡ []
unfolding load state_text escape write_text read_text
quoted_lost = refl

-- Byte 26 in a tag ends the reading: its entry is lost, and the one after it.
abbrev ended : RouteSpec
ended = record office { tag = text "netpilot:" ++ 26 ∷ [] }

ended_lost : load (some (write_text (state_text (home ∷ ended ∷ office ∷ [])))) [] ≡ home ∷ []
unfolding load state_text escape write_text read_text
ended_lost = refl
