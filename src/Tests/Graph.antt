-- ===== src/Tests/Graph.antt =====
-- The ledger's edges.
use gontext.Base.{◌≤◌}
use gontext.Base.{string_eq}
use gontext.Base.{◌≡◌, refl}
use gontext.Base.{false, ◌&&◌, some, [], ◌∷◌}
use gontext.Base.{arith, length, select}
use gontext.Base.Dict.{inner, get2}
use gontext.Base.Sort.{tally, values}
use gontext.Ports.{GraphEdge, EdgeListOptions}
use gontext.Platform.{ok}
use gontext.Ledger.{new_store, or_limit}
use gontext.Ledger.Edges.{same_triple, upsert_edge, list_edges, wanted}
use gontext.Ledger.Edges.Unique.{AreGraphs, upsert_edge-AreGraphs, new_store-AreGraphs}
use gontext.Ledger.Edges.Listing.{list_edges_complete}
use gontext.Tests.Data.{acme, plan_in_folder}

upsert_edge-AreGraphs_example : AreGraphs (upsert_edge plan_in_folder 7 "x" new_store).1
upsert_edge-AreGraphs_example =
    upsert_edge-AreGraphs plan_in_folder 7 "x" new_store new_store-AreGraphs

accepted : (upsert_edge plan_in_folder 7 "x" new_store).0 ≡ ok tt
unfolding upsert_edge
accepted = refl

abbrev stored : GraphEdge
stored = record plan_in_folder { created_at = 7; updated_at = 7; state = "ACTIVE" }

found : get2 (upsert_edge plan_in_folder 7 "x" new_store).1.edges acme "e1" ≡ some stored
unfolding get2 gontext.Base.Dict.get upsert_edge gontext.Base.Dict.put
    gontext.Ledger.Edges.merge_edge gontext.Base.Count.refresh
found = refl

abbrev of_plan : EdgeListOptions
of_plan = record { resource_ids = "plan" ∷ []; predicates = []; include_dead = false; limit = 5 }

few_edges :
    length (
      select
        (wanted of_plan)
        (values (inner (upsert_edge plan_in_folder 7 "x" new_store).1.edges acme)))
    ≤ or_limit of_plan.limit 200
unfolding inner or_limit gontext.Base.Dict.get upsert_edge gontext.Base.Dict.put
    gontext.Ledger.Edges.merge_edge gontext.Base.Count.refresh wanted
few_edges = omega arith

list_edges_complete_example :
    tally
      (same_triple stored)
      (list_edges acme of_plan (upsert_edge plan_in_folder 7 "x" new_store).1)
    ≡ tally
        (λ e. wanted of_plan e && same_triple stored e)
        (values (inner (upsert_edge plan_in_folder 7 "x" new_store).1.edges acme))
list_edges_complete_example =
    list_edges_complete acme of_plan (upsert_edge plan_in_folder 7 "x" new_store).1 few_edges
      (same_triple stored)
