-- ===== src/Routes/Inventory.antt =====
-- RouteManager::Save and Cleanup, and the text of the state file.
use netpilot.Base.{◌||◌, Option, none, some, List, [], ◌∷◌, ◌++◌, ◌==◌, if◌then◌else◌}
use netpilot.Base.Text.{Bytes, text}
use netpilot.Protocol.Types.{RouteSpec}
use netpilot.Std.TextMode.{write_text}
use netpilot.Routes.Net.{Net}
use netpilot.Routes.Entry.{done, failed, thrown, remove}

-- `\` and `"` get a `\` before them.
unfoldable pub escape : Bytes → Bytes
escape [] = []
escape (c ∷ s) = let rest = escape s in if c == 92 || c == 34 then 92 ∷ c ∷ rest else c ∷ rest

-- In the literals below `'` stands for the quotation mark of the source.
unfoldable pub quoted : Bytes → Bytes
quoted [] = []
quoted (c ∷ s) = let rest = quoted s in if c == 39 then 34 ∷ rest else c ∷ rest

unfoldable pub entry_text : RouteSpec → Bytes
unfolding escape quoted
entry_text route =
    quoted (text "    {'destination':'")
    ++ (escape route.destination
        ++ (quoted (text "','gateway':'")
            ++ (escape route.gateway
                ++ (quoted (text "','interfaceLuid':'")
                    ++ (escape route.interface_luid
                        ++ (quoted (text "','tag':'")
                            ++ (escape route.tag ++ quoted (text "'}"))))))))

-- The entries after the first one.
unfoldable pub more_entries : List RouteSpec → Bytes
unfolding entry_text
more_entries [] = []
more_entries (route ∷ rest) = 44 ∷ 10 ∷ (entry_text route ++ more_entries rest)

unfoldable pub entries : List RouteSpec → Bytes
unfolding entry_text more_entries
entries [] = []
entries (route ∷ rest) = 10 ∷ (entry_text route ++ more_entries rest)

unfoldable pub state_text : List RouteSpec → Bytes
unfolding entries quoted
state_text managed =
    123 ∷ 10 ∷ quoted (text "  'version': 1,")
    ++ (10
        ∷ (quoted (text "  'routes': [")
            ++ (entries managed ++ (10 ∷ (text "  ]" ++ 10 ∷ 125 ∷ 10 ∷ [])))))

module _ (n : Net) where
  open n use {World, write_state}

  -- RouteManager::Save; the stream is in text mode.
  unfoldable pub save : List RouteSpec → World → World
  unfolding state_text write_text
  save managed w = write_state (write_text (state_text managed)) w

  -- The loop of Cleanup; a failed deletion is passed over.
  unfoldable pub remove_all : List RouteSpec → World → Option World
  remove_all [] w = some w
  remove_all (route ∷ rest) w = elim (remove n route w) [
    | done w' ↦ remove_all rest w'
    | failed error w' ↦ remove_all rest w'
    | thrown ↦ none
  ]

  unfoldable pub cleanup : List RouteSpec → World → Option (List RouteSpec × World)
  unfolding remove_all save
  cleanup managed w = elim (remove_all managed w) [ none ↦ none | some w' ↦ some ([], save [] w') ]
