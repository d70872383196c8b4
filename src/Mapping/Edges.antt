-- ===== src/Mapping/Edges.antt =====
-- resolveEdges and edgeFromVisibilityRef of internal/mapping/mapping.go. The number of the mapping
-- in the text of an error is left out.
pub mod Sound
use gontext.Base.{ℕ}
use gontext.Base.{
  String, string_eq, ◌==◌, concat, has_prefix, trim_prefix, contains, lower, trim_space, equal_fold,
  cut,
}
use gontext.Base.{Bool, true, false, not, ◌&&◌, ◌||◌, Option, none, some, List, [], ◌∷◌, ◌++◌}
use gontext.Base.{ltb, if◌then◌else◌, any}
use gontext.Base.{number_eq}
use gontext.Ports.{
  Confidence, below_zero, at_zero, between, at_one, above_one, not_a_number, edge_parent,
}
use gontext.Platform.{Result, ok, err, ◌>>=◌, err_validation}
use gontext.Mapping.{Json, Expr, EdgeMapping, CanonicalEdge, Host}
use gontext.Mapping.Eval.{eval_string}

-- allowedPredicate
unfoldable pub allowed_predicate : String → Bool
allowed_predicate p =
    contains (edge_parent ∷ "related_to" ∷ "mentions" ∷ "derived_from" ∷ "assigned_to" ∷ []) p

unfoldable pub edge_key : CanonicalEdge → String
edge_key e = concat (concat (concat (concat e.from_id "|") e.predicate) "|") e.to_id

unfoldable pub same_ends : CanonicalEdge → CanonicalEdge → Bool
same_ends e x = x.from_id == e.from_id && x.to_id == e.to_id && x.predicate == e.predicate

-- the first edge of the same triple takes over what the new one asks for
unfoldable pub merge_into : CanonicalEdge → List CanonicalEdge → List CanonicalEdge
merge_into e [] = []
merge_into e (x ∷ xs) =
    if same_ends e x
    then record x {
      sync_authz_parent = e.sync_authz_parent || x.sync_authz_parent;
      ensure_endpoints = e.ensure_endpoints || x.ensure_endpoints;
    }
      ∷ xs
    else x ∷ merge_into e xs

-- edges and seen
pub record Found : Type 0 where
  pub edges : List CanonicalEdge
  pub seen : List String

unfoldable pub is_malformed : CanonicalEdge → Bool
is_malformed e = e.from_id == "" || e.to_id == "" || e.predicate == "" || e.from_id == e.to_id

-- e.Confidence <= 0
unfoldable pub is_unset : Confidence → Bool
is_unset below_zero = true
is_unset at_zero = true
is_unset c = false

-- add
unfoldable pub add : CanonicalEdge → Found → Found
add e f =
    if is_malformed e
    then f
    else if contains f.seen (edge_key e)
    then record f { edges = merge_into e f.edges }
    else record {
      edges =
          f.edges
          ++ (record e { confidence = if is_unset e.confidence then at_one else e.confidence }
              ∷ []);
      seen = edge_key e ∷ f.seen;
    }

-- the confidence of a mapping, 1 where there is none that can be read
unfoldable pub confidence_of : Host → Option Expr → Json → Confidence
confidence_of host none payload = at_one
confidence_of host (some e) payload =
    let raw = eval_string host (some e) payload in
    let read : Confidence = elim (host.parse_float raw) [ none ↦ at_one | some c ↦ c ] in
    if raw == "" then at_one else read

-- conf < 0 || conf > 1, which is false of a NaN
unfoldable pub is_out_of_range : Confidence → Bool
is_out_of_range below_zero = true
is_out_of_range above_one = true
is_out_of_range c = false

unfoldable pub or_else : String → String → String
or_else s default = if s == "" then default else s

unfoldable pub flag : Option Bool → Bool → Bool
flag none default = default
flag (some b) default = b

-- the checks of a mapping's edge, in order
unfoldable pub checked_edge :
    EdgeMapping → String → String → String → Confidence → Result (Option CanonicalEdge)
checked_edge em pred from_id to_id conf =
    let sync = flag em.sync_authz_parent false in
    if sync && not (equal_fold pred edge_parent)
    then err (err_validation "sync_authz_parent only allowed for parent")
    else if not (allowed_predicate (lower pred))
    then err (err_validation "unsupported predicate")
    else if is_out_of_range conf
    then err (err_validation "confidence must be 0..1")
    else ok (
        some (record {
          from_id = from_id;
          to_id = to_id;
          predicate = lower pred;
          confidence = conf;
          ensure_endpoints = flag em.ensure_endpoints true;
          sync_authz_parent = sync;
          to_kind = "";
          to_title = "";
          to_external_id = "";
        }))

-- the edge of a mapping, none where it has no target
unfoldable pub mapped_edge : Host → Json → String → EdgeMapping → Result (Option CanonicalEdge)
mapped_edge host payload resource_id em =
    let pred = or_else (eval_string host em.predicate payload) edge_parent in
    let from_id = or_else (eval_string host em.from payload) resource_id in
    let to_id = eval_string host em.to payload in
    if to_id == ""
    then ok none
    else checked_edge em pred from_id to_id (confidence_of host em.confidence payload)

unfoldable pub add_some : Option CanonicalEdge → Found → Found
add_some none f = f
add_some (some e) f = add e f

-- the loop over the mappings
unfoldable pub add_mapped : Host → Json → String → List EdgeMapping → Found → Result Found
add_mapped host payload resource_id [] f = ok f
add_mapped host payload resource_id (em ∷ ems) f = mapped_edge host payload resource_id em >>= λ e.
    add_mapped host payload resource_id ems (add_some e f)

unfoldable pub parent_edge : String → String → String → String → String → CanonicalEdge
parent_edge resource_id parent_id kind title external = record {
  from_id = resource_id;
  to_id = parent_id;
  predicate = edge_parent;
  confidence = at_one;
  ensure_endpoints = true;
  sync_authz_parent = false;
  to_kind = kind;
  to_title = title;
  to_external_id = external;
}

-- object[:i] at the first ':', where something stands before it
unfoldable pub kind_of : String → String
kind_of object = elim (cut 58 object) [
  | none ↦ object
  | some (a, b) ↦ if a == "" then object else a
]

unfoldable pub before_hash : String → String
before_hash ref = elim (cut 35 ref) [ none ↦ ref | some (a, b) ↦ a ]

-- edgeFromVisibilityRef
unfoldable pub edge_from_visibility_ref : Host → String → String → Option CanonicalEdge
edge_from_visibility_ref host resource_id visibility_ref =
    let object = trim_space (before_hash (trim_space visibility_ref)) in
    let stripped = trim_prefix object "resource:" in
    let is_resource = has_prefix object "resource:" in
    let parent_id = if is_resource then stripped else host.uuid_v5 object in
    if object == "" || parent_id == "" || parent_id == resource_id
    then none
    else if is_resource
    then some (parent_edge resource_id parent_id "resource" parent_id object)
    else some (parent_edge resource_id parent_id (kind_of object) object object)

unfoldable pub has_parent : String → List CanonicalEdge → Bool
has_parent resource_id edges =
    any (λ (e : CanonicalEdge). e.predicate == edge_parent && e.from_id == resource_id) edges

-- the edge of the visibility reference, where no parent is there yet
unfoldable pub add_visible : Host → String → String → Found → Found
add_visible host resource_id visibility_ref f =
    if visibility_ref == "" || has_parent resource_id f.edges
    then f
    else add_some (edge_from_visibility_ref host resource_id visibility_ref) f

-- the edge of parent_resource_id
unfoldable pub start_edges : Host → Option Expr → Json → String → Found
start_edges host parent payload resource_id =
    let parent_id = eval_string host parent payload in
    let none_yet : Found = record { edges = []; seen = [] } in
    if parent_id == ""
    then none_yet
    else add (parent_edge resource_id parent_id "container" "" "") none_yet

-- resolveEdges
unfoldable pub resolve_edges :
    Host → Option Expr → List EdgeMapping → Json → String → String → Result (List CanonicalEdge)
resolve_edges host parent mappings payload resource_id visibility_ref =
    add_mapped host payload resource_id mappings (start_edges host parent payload resource_id)
    >>= λ f. ok (add_visible host resource_id visibility_ref f).edges
