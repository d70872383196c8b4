-- ===== src/Ledger/Edges.antt =====
-- UpsertEdge, GetEdge, ListEdges, TombstoneEdge and ListActiveParentEdgesNeedingAuthz of
-- internal/adapters/memory/ledger.go.
pub mod Unique
pub mod Effects
pub mod Listing
use gontext.Base.{ℕ}
use gontext.Base.{String, string_eq, ◌==◌, contains}
use gontext.Base.{Bool, not, ◌&&◌, ◌||◌, Option, none, some, List, [], ◌∷◌, ◌++◌}
use gontext.Base.{ltb, if◌then◌else◌, take, select}
use gontext.Base.{number_eq}
use gontext.Base.Dict.{Dict, Dict2, put, inner, get2, put2}
use gontext.Base.Count.{refresh}
use gontext.Base.Sort.{sort, text_less, is_empty, values}
use gontext.Ports.{GraphEdge, EdgeListOptions, edge_parent}
use gontext.Platform.{Result, ok, err, err_validation, err_not_found}
use gontext.Ledger.{Store, Step, or_now, or_default, or_limit}

abbrev pub active : String
active = "ACTIVE"

abbrev pub tombstoned : String
tombstoned = "TOMBSTONED"

-- an active edge with the ends and the predicate of another
unfoldable pub same_triple : GraphEdge → GraphEdge → Bool
same_triple edge existing =
    existing.state == active
    && existing.from_id == edge.from_id
    && existing.to_id == edge.to_id
    && existing.predicate == edge.predicate

unfoldable pub refreshed : GraphEdge → ℕ → GraphEdge → GraphEdge
refreshed edge now existing = record existing {
  confidence = edge.confidence;
  sync_authz = edge.sync_authz;
  attributes = edge.attributes;
  updated_at = now;
}

-- the fields that the store fills in
unfoldable pub filled : GraphEdge → ℕ → String → GraphEdge
unfolding or_now or_default
filled edge now fresh = record edge {
  edge_id = or_default edge.edge_id fresh;
  created_at = or_now edge.created_at now;
  updated_at = now;
  state = or_default edge.state active;
}

-- the map of one organization: the matching active edge refreshed, or the edge put
unfoldable pub merge_edge : Dict GraphEdge → GraphEdge → ℕ → Dict GraphEdge
merge_edge m edge now = elim (refresh (same_triple edge) (refreshed edge now) m) [
  | some r ↦ r
  | none ↦ put m edge.edge_id edge
]

unfoldable pub upsert_edge : GraphEdge → ℕ → String → Store → Step (Unit {0})
unfolding filled
upsert_edge edge now fresh s =
    if edge.org_id == "" || edge.from_id == "" || edge.to_id == "" || edge.predicate == ""
    then (err (err_validation "org, from_id, to_id, predicate required"), s)
    else if edge.from_id == edge.to_id
    then (err (err_validation "self-edges are not allowed"), s)
    else (
      ok tt,
      record s {
        edges =
            put s.edges edge.org_id
              (merge_edge (inner s.edges edge.org_id) (filled edge now fresh) now);
      },
    )

unfoldable pub found_edge : Option GraphEdge → Result GraphEdge
found_edge none = err (err_not_found "edge not found")
found_edge (some e) = ok e

unfoldable pub get_edge : String → String → Store → Result GraphEdge
unfolding found_edge
get_edge org_id edge_id s = found_edge (get2 s.edges org_id edge_id)

-- the loop of ListEdges
unfoldable pub wanted : EdgeListOptions → GraphEdge → Bool
wanted opts e =
    not (not opts.include_dead && e.state == tombstoned)
    && (is_empty opts.resource_ids
        || contains opts.resource_ids e.from_id
        || contains opts.resource_ids e.to_id)
    && (is_empty opts.predicates || contains opts.predicates e.predicate)

-- the comparison of ListEdges
unfoldable pub edge_less : GraphEdge → GraphEdge → Bool
edge_less a b =
    if not (a.from_id == b.from_id)
    then text_less a.from_id b.from_id
    else if not (a.predicate == b.predicate)
    then text_less a.predicate b.predicate
    else if not (a.to_id == b.to_id)
    then text_less a.to_id b.to_id
    else if not (a.created_at == b.created_at)
    then ltb a.created_at b.created_at
    else text_less a.edge_id b.edge_id

unfoldable pub list_edges : String → EdgeListOptions → Store → List GraphEdge
unfolding or_limit
list_edges org_id opts s =
    take (or_limit opts.limit 200)
      (sort edge_less (select (wanted opts) (values (inner s.edges org_id))))

unfoldable pub tombstone : GraphEdge → ℕ → GraphEdge
tombstone e now = record e { state = tombstoned; updated_at = now }

unfoldable pub tombstone_edge : String → String → ℕ → Store → Step (Unit {0})
unfolding tombstone
tombstone_edge org_id edge_id now s = elim (get2 s.edges org_id edge_id) [
  | none ↦ (err (err_not_found "edge not found"), s)
  | some e ↦ (ok tt, record s { edges = put2 s.edges org_id edge_id (tombstone e now) })
]

needs_authz : GraphEdge → Bool
needs_authz e = e.state == active && e.predicate == edge_parent && e.sync_authz

-- the edges of every organization, or of one, that ask for a parent tuple
unfoldable pub parent_edges : String → Dict2 GraphEdge → List GraphEdge
unfolding needs_authz
parent_edges org_id [] = []
parent_edges org_id ((oid, m) ∷ rest) =
    if not (org_id == "") && not (oid == org_id)
    then parent_edges org_id rest
    else select needs_authz (values m) ++ parent_edges org_id rest

unfoldable pub list_active_parent_edges_needing_authz : String → ℕ → Store → List GraphEdge
unfolding or_limit
list_active_parent_edges_needing_authz org_id limit s =
    take (or_limit limit 100) (parent_edges org_id s.edges)
