-- ===== src/Brewing/Laws.antt =====
-- Which payloads of the machine stop a drink.
use delonghi_ha.Prelude.{List, [], ◌∷◌, Bool, false, not, ◌&&◌, ◌||◌, ◌==◌, ◌≡◌}
use delonghi_ha.Ecam.Monitor.{Alarm, Monitor}
use delonghi_ha.Brewing.{blocking_names, named}

-- Whether the table of alarms marks it as blocking, "Machine Service Required" (bit 6) left out and
-- "Coffee Beans Empty" (bit 5) added.
abbrev pub stops : Alarm → Bool
stops a = (a.blocking && not (a.bit == 6)) || a.bit == 5

abbrev pub any_stops : List Alarm → Bool
any_stops [] = false
any_stops (a ∷ rest) = stops a || any_stops rest

abbrev Agrees : Alarm → Type 0
Agrees a = named a.name blocking_names ≡ stops a
