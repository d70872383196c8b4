-- ===== src/Fga/Model.antt =====
-- The rules for can_manage and can_read that the in-memory evaluation implements, as derivations over
-- the stored tuples. They are those of contracts/openfga/model.fga less its usersets: a reader may
-- there be team#member or organization#member and an assignee team#member, and a team and a brand
-- have the members and the managers of their organization; here a subject is a reader, an assignee, a
-- member or a manager by a tuple of its own only. An organization has no parents and no owner rule in
-- that model; the evaluation lets an owner tuple on it manage it.
use gontext.Base.{String, string_eq, ◌==◌, contains}
use gontext.Base.{◌≡◌}
use gontext.Base.{true, false}
use gontext.Base.Dict.{keys}
use gontext.Fga.{Memory, has, subjects, parents, is_organization}

abbrev pub Tuple : Memory → String → String → String → Type 0
Tuple m object relation subject = has m object relation subject ≡ true

abbrev pub Linked : Memory → String → String → String → Type 0
Linked m object relation target = contains (keys (subjects m object relation)) target ≡ true

pub data CanManage (m : Memory) (s : String) : String → Type 0 where
  owner : (o : String) → Tuple m o "owner" s → CanManage m s o
  manager : (o : String) → is_organization o ≡ true → Tuple m o "manager" s → CanManage m s o
  knowledge_admin :
      (o : String) → is_organization o ≡ true → Tuple m o "knowledge_admin" s → CanManage m s o
  manager_from :
      (o g : String)
      → is_organization o ≡ false
      → Linked m o "organization" g
      → Tuple m g "manager" s
      → CanManage m s o
  knowledge_admin_from :
      (o g : String)
      → is_organization o ≡ false
      → Linked m o "organization" g
      → Tuple m g "knowledge_admin" s
      → CanManage m s o
  manage_from_parent :
      (o p : String)
      → is_organization o ≡ false
      → contains (parents m o) p ≡ true
      → CanManage m s p
      → CanManage m s o

pub data CanRead (m : Memory) (s : String) : String → Type 0 where
  reader : (o : String) → Tuple m o "reader" s → CanRead m s o
  restricted_reader : (o : String) → Tuple m o "restricted_reader" s → CanRead m s o
  assignee : (o : String) → Tuple m o "assignee" s → CanRead m s o
  manages : (o : String) → CanManage m s o → CanRead m s o
  read_from_parent :
      (o p : String) → contains (parents m o) p ≡ true → CanRead m s p → CanRead m s o

-- What a relation name asks for: a computed relation, or a tuple.
abbrev pub Grants : Memory → String → String → String → Type 0
Grants m s o relation = elim (relation == "can_read") [
  | true ↦ CanRead m s o
  | false ↦ elim (relation == "can_manage") [
    | true ↦ CanManage m s o
    | false ↦ Tuple m o relation s
  ]
]
