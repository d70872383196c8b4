-- ===== src/Fga.antt =====
-- internal/adapters/openfga/memory.go, and the name mappings of client.go: relationship tuples, and
-- the evaluation of can_read and can_manage over them.
pub mod Model
pub mod Sound
pub mod Keys
pub mod Explored
pub mod Complete
pub mod Refute
pub mod Check
pub mod Fuel
pub mod Ends
pub mod Decides
pub mod Usersets
pub mod Tuples
pub mod Monotone
pub mod Outcome
pub mod Scope
use gontext.Base.{ℕ, zero, suc}
use gontext.Base.{String, string_eq, ◌==◌, concat, has_prefix, trim_prefix, contains_text, contains}
use gontext.Base.{Bool, true, false, ◌&&◌, ◌||◌, Option, none, some, List, [], ◌∷◌}
use gontext.Base.{if◌then◌else◌, is_some, any}
use gontext.Base.Dict.{Dict, Dict2, get, put, remove, get2, put2, or_empty, keys}
use gontext.Ports.{RelationshipTuple}

-- Memory. A map[string]bool holds true at each of its keys.
pub record Memory : Type 0 where
  pub relations : Dict2 (Dict Bool)
  pub model_id : String
  pub org_members : Dict2 Bool

-- NewMemory
unfoldable pub new_memory : Memory
new_memory = record { relations = []; model_id = "memory-model"; org_members = [] }

-- m.Relations[object][relation]
unfoldable pub subjects : Memory → String → String → Dict Bool
subjects m object relation = or_empty (get2 m.relations object relation)

abbrev or_false : Option Bool → Bool
or_false none = false
or_false (some b) = b

unfoldable pub has : Memory → String → String → String → Bool
unfolding subjects
has m object relation subject = or_false (get (subjects m object relation) subject)

-- can_read, can_delete and can_admin are written as the relations behind them.
unfoldable pub writable : String → String
writable relation =
    let mapped = if relation == "can_read" then "reader" else relation in
    if mapped == "can_delete" || mapped == "can_admin" then "owner" else mapped

record_member : Memory → String → String → String → Memory
record_member m object relation subject =
    if has_prefix object "organization:" && relation == "member"
    then record m {
      org_members = put2 m.org_members (trim_prefix object "organization:") subject true;
    }
    else m

-- grantLocked
unfoldable pub grant : Memory → String → String → String → Memory
unfolding writable record_member subjects
grant m object relation subject =
    let rel = writable relation in
    let granted = put (subjects m object rel) subject true in
    record_member (record m { relations = put2 m.relations object rel granted }) object rel subject

-- can_read alone is renamed before a tuple is deleted.
unfoldable pub deletable : String → String
deletable relation = if relation == "can_read" then "reader" else relation

-- Revoke
unfoldable pub revoke : Memory → String → String → String → Memory
unfolding subjects
revoke m object relation subject =
    let rel = deletable relation in
    let rest = remove (subjects m object rel) subject in
    if is_some (get2 m.relations object rel)
    then record m { relations = put2 m.relations object rel rest }
    else m

unfoldable pub blank_tuple : RelationshipTuple → Bool
blank_tuple t = t.object == "" || t.relation == "" || t.subject == ""

unfoldable pub write_one : Memory → RelationshipTuple → Memory
unfolding blank_tuple
write_one m t = if blank_tuple t then m else grant m t.object t.relation t.subject

unfoldable pub write_tuples : Memory → List RelationshipTuple → Memory
write_tuples m [] = m
write_tuples m (t ∷ ts) = write_tuples (write_one m t) ts

unfoldable pub delete_one : Memory → RelationshipTuple → Memory
unfolding blank_tuple
delete_one m t = if blank_tuple t then m else revoke m t.object t.relation t.subject

unfoldable pub delete_tuples : Memory → List RelationshipTuple → Memory
delete_tuples m [] = m
delete_tuples m (t ∷ ts) = delete_tuples (delete_one m t) ts

unfoldable pub has_tuple : Memory → RelationshipTuple → Bool
has_tuple m t = has m t.object t.relation t.subject

pub add_org_member : Memory → String → String → Memory
add_org_member m org_id subject =
    let user = if contains_text subject ":" then subject else concat "user:" subject in
    grant (record m { org_members = put2 m.org_members org_id subject true })
      (concat "organization:" org_id) "member" user

-- The outcome of `can` and the map `visiting` as it leaves it; none when the fuel is spent.
abbrev pub Visit : Type 0
Visit = Option (Bool × List String)

-- An early `return true`, or the rest of the body.
abbrev pub or_else : Visit → (List String → Visit) → Visit
or_else none rest = none
or_else (some (true, visiting)) rest = some (true, visiting)
or_else (some (false, visiting)) rest = rest visiting

-- for parent := range ... { if m.can(parent, ...) { return true } }
unfoldable pub any_parent : (String → List String → Visit) → List String → List String → Visit
any_parent call [] visiting = some (false, visiting)
any_parent call (p ∷ ps) visiting = or_else (call p visiting) (any_parent call ps)

unfoldable pub reads_directly : Memory → String → String → Bool
reads_directly m object subject =
    has m object "reader" subject
    || has m object "restricted_reader" subject
    || has m object "owner" subject
    || has m object "assignee" subject

unfoldable pub org_manages : Memory → String → String → Bool
org_manages m subject org = has m org "manager" subject || has m org "knowledge_admin" subject

unfoldable pub is_organization : String → Bool
is_organization object = has_prefix object "organization:"

unfoldable pub manages_directly : Memory → String → String → Bool
manages_directly m object subject =
    has m object "owner" subject
    || any (org_manages m subject) (keys (subjects m object "organization"))

unfoldable pub parents : Memory → String → List String
parents m object = keys (subjects m object "parent")

module _ (m : Memory) (subject : String) (call : String → String → List String → Visit) where
  unfoldable pub read_body : String → List String → Visit
  read_body object visiting =
      if reads_directly m object subject
      then some (true, visiting)
      else or_else (call object "can_manage" visiting)
          (any_parent (λ p. call p "can_read") (parents m object))

  unfoldable pub manage_body : String → List String → Visit
  manage_body object visiting =
      if is_organization object
      then some (org_manages m subject object || has m object "owner" subject, visiting)
      else if manages_directly m object subject
      then some (true, visiting)
      else any_parent (λ p. call p "can_manage") (parents m object) visiting

  -- the switch on the relation
  unfoldable pub body : String → String → List String → Visit
  body object relation visiting =
      if relation == "can_read"
      then read_body object visiting
      else if relation == "can_manage"
      then manage_body object visiting
      else some (has m object relation subject, visiting)

unfoldable pub visit_key : String → String → String
visit_key object relation = concat (concat object "|") relation

unfoldable pub can : ℕ → Memory → String → String → String → List String → Visit
can zero m subject object relation visiting = none
can (suc fuel) m subject object relation visiting =
    let key = visit_key object relation in
    let rest = body m subject (can fuel m subject) object relation (key ∷ visiting) in
    if contains visiting key then some (false, visiting) else rest
