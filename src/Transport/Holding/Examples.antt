-- ===== src/Transport/Holding/Examples.antt =====
-- A peer that is linked, dialled, attached and killed.
use aw.Base.{
  ◌≡◌, true, none, some, List, [], ◌∷◌, arith, ltb, if◌then◌else◌, ◌==◌, nat_Eq, bytes_Eq,
}
use aw.Base.Arrays.{padded, Bytes_Eq}
use aw.Channel.Client.{is_bound}
use aw.Channel.Client.Counting.{Counts}
use aw.Dht.Distance.{Signatory}
use aw.Dht.Table.{new_in_mem_table}
use aw.Transport.{is_connected}
use aw.Transport.Holding.{System, Action, links, holds, releases, attaches, kills, acts}
use aw.Transport.Holding.Views.{view, bindings}
use aw.Transport.Holding.Refinement.{at_start, acts-refines}

abbrev remote : Signatory
remote = padded 31 1

abbrev some_actions : List Action
some_actions = holds remote ∷ links remote ∷ attaches remote ∷ kills remote ∷ releases 0 ∷ []

abbrev after_actions : System
after_actions = acts (at_start (new_in_mem_table (padded 31 7))) some_actions

acts-refines_example :
    Counts after_actions.transport.client remote (bindings (view after_actions remote))
    × (is_bound after_actions.transport.client remote
        ≡ (if bindings (view after_actions remote) == 0 then none else some true))
    × (is_connected after_actions.transport remote ≡ ltb 0 (view after_actions remote).attachments)
acts-refines_example =
    acts-refines (new_in_mem_table (padded 31 7)) some_actions remote (omega arith)
