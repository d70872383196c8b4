-- ===== src/Fga/Usersets.antt =====
-- can_read of a resource by contracts/openfga/model.fga with its usersets, and the in-memory
-- provider, which expands none.
use gontext.Base.{String, string_eq, concat, has_prefix, contains}
use gontext.Base.{◌≡◌}
use gontext.Base.{true, false}
use gontext.Fga.{Memory, has, parents, is_organization}
use gontext.Fga.Model.{Tuple, Linked, CanRead}

-- A member of an organization, or of a team: by a tuple, or from the team's organization.
pub data IsMember (m : Memory) (s : String) : String → Type 0 where
  member : (g : String) → Tuple m g "member" s → IsMember m s g
  member_from :
      (g org : String)
      → is_organization g ≡ false
      → Linked m g "organization" org
      → Tuple m org "member" s
      → IsMember m s g

-- The subject text of the members of a group.
abbrev pub members_of : String → String
members_of g = concat g "#member"

-- can_read by the rules of model.fga: what needs no userset, the members of a team or an organization
-- as readers, the members of a team as assignees, and what a parent gives.
pub data ModelRead (m : Memory) (s : String) : String → Type 0 where
  by_tuples : (o : String) → CanRead m s o → ModelRead m s o
  reader_group :
      (o g : String) → Tuple m o "reader" (members_of g) → IsMember m s g → ModelRead m s o
  assignee_group :
      (o g : String)
      → has_prefix g "team:" ≡ true
      → Tuple m o "assignee" (members_of g)
      → IsMember m s g
      → ModelRead m s o
  from_parent : (o p : String) → contains (parents m o) p ≡ true → ModelRead m s p → ModelRead m s o

-- No object has the members of a group as the subject of a relation.
abbrev pub NoGroups : Memory → String → Type 0
NoGroups m relation = (o g : String) → has m o relation (members_of g) ≡ false
