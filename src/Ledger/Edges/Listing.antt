-- ===== src/Ledger/Edges/Listing.antt =====
-- What ListEdges returns.
use gontext.Base.{◌≤◌}
use gontext.Base.{String}
use gontext.Base.{◌≡◌, ap, ◌∙◌}
use gontext.Base.{Bool, true, ◌&&◌}
use gontext.Base.{arith, length, select, All, length-take-le}
use gontext.Base.Dict.{inner}
use gontext.Base.Sort.{
  sort, values, tally, tally-sort, tally-select, take-all, All-select, All-take, All-sort,
  length-sort,
}
use gontext.Ports.{GraphEdge, EdgeListOptions}
use gontext.Ledger.{Store, or_limit}
use gontext.Ledger.Edges.{wanted, edge_less, list_edges}

module _ (org : String) (opts : EdgeListOptions) (s : Store) where
  -- ListEdges returns stored edges that pass its filters only, and no more than the limit.
  pub list_edges-wanted :
      All (λ e. wanted opts e ≡ true) (list_edges org opts s)
      × (length (list_edges org opts s) ≤ or_limit opts.limit 200)
  unfolding list_edges
  list_edges-wanted = (
    All-take (λ e. wanted opts e ≡ true) (or_limit opts.limit 200) _
        (All-sort (λ e. wanted opts e ≡ true) edge_less _
          (All-select (wanted opts) (values (inner s.edges org)))),
    length-take-le (or_limit opts.limit 200) _,
  )

  -- Where no more edges pass the filters than the limit allows, ListEdges returns them all, each as
  -- often as it is stored: every test counts the same edges in both.
  pub list_edges_complete :
      length (select (wanted opts) (values (inner s.edges org))) ≤ or_limit opts.limit 200
      → (test : GraphEdge → Bool)
      → tally test (list_edges org opts s)
        ≡ tally (λ e. wanted opts e && test e) (values (inner s.edges org))
  unfolding list_edges
  list_edges_complete few test =
      let found = select (wanted opts) (values (inner s.edges org)) in
      ap (tally test) (
        take-all (or_limit opts.limit 200) (sort edge_less found)
          (omega (arith, length-sort edge_less found)))
      ∙ tally-sort test edge_less found
      ∙ tally-select test (wanted opts) (values (inner s.edges org))
