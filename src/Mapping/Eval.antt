-- ===== src/Mapping/Eval.antt =====
-- evalString and what it calls, of internal/mapping/mapping.go. resolve returns no error, and so
-- evalString returns none: both are the values alone.
use Prim.Native.Char.{code}
use gontext.Base.{ℕ, zero, suc, ◌+◌, ◌-◌, ◌*◌}
use gontext.Base.{
  String, string_eq, ◌==◌, concat, has_prefix, trim_prefix, contains_text, lower, trim_space, cut,
}
use gontext.Base.{Bool, true, false, not, ◌&&◌, ◌||◌, Option, none, some, List, [], ◌∷◌}
use gontext.Base.{ltb, leb, if◌then◌else◌}
use gontext.Base.{number_eq, split_on}
use gontext.Mapping.{
  Json, null, text, number, truth, arr, obj, Items, nil, cons, Fields, end, field, Expr, Host,
}

-- the last character of a text has this code
ends_with : ℕ → String → Bool
ends_with c String.[] = false
ends_with c (String.◌∷◌ x String.[]) = code x == c
ends_with c (String.◌∷◌ x (String.◌∷◌ y s)) = ends_with c (String.◌∷◌ y s)

-- a text without its last character
init : String → String
init String.[] = String.[]
init (String.◌∷◌ x String.[]) = String.[]
init (String.◌∷◌ x (String.◌∷◌ y s)) = String.◌∷◌ x (init (String.◌∷◌ y s))

-- what stands between two such characters at the ends of a text
unfoldable pub quoted : ℕ → String → Option String
unfolding ends_with init
quoted q String.[] = none
quoted q (String.◌∷◌ c s) = if code c == q && ends_with q s then some (init s) else none

digits : ℕ → String → Option ℕ
digits acc String.[] = some acc
digits acc (String.◌∷◌ c s) =
    let rest = digits (acc * 10 + (code c - 48)) s in
    if leb 48 (code c) && leb (code c) 57 then rest else none

-- strconv.Atoi, whose result is 0 on an error; none for a negative number
unfoldable pub index_in : String → Option ℕ
unfolding digits
index_in String.[] = some 0
index_in (String.◌∷◌ c s) =
    elim (digits 0 (if code c == 45 || code c == 43 then s else String.◌∷◌ c s)) [
      | none ↦ some 0
      | some n ↦ if code c == 45 && ltb 0 n then none else some n
    ]

-- key and index of a part such as key[0]; no index where there is none
unfoldable pub part_of : String → String × Option ℕ
unfolding ends_with init
part_of p = elim (cut 91 p) [
  | none ↦ (p, none)
  | some (key, rest) ↦ if ends_with 93 rest then (key, index_in (init rest)) else (p, none)
]

-- node[key], null where there is none
unfoldable pub field_of : Fields → String → Json
field_of end key = null
field_of (field k v fs) key = if k == key then v else field_of fs key

unfoldable pub item_of : Items → ℕ → Json
item_of nil i = null
item_of (cons x xs) zero = x
item_of (cons x xs) (suc i) = item_of xs i

unfoldable pub at_index : Option ℕ → Json → Json
at_index none v = v
at_index (some i) (arr xs) = item_of xs i
at_index (some i) v = null

-- one part of the path: only an object has parts
unfoldable pub dig_part : String → Option ℕ → Json → Json
dig_part key i (obj fs) = at_index i (if key == "" then obj fs else field_of fs key)
dig_part key i v = null

unfoldable pub dig_parts : List String → Json → Json
dig_parts [] v = v
dig_parts (p ∷ ps) v =
    let here = trim_space p in
    let part = part_of here in dig_parts ps (if here == "" then v else dig_part part.0 part.1 v)

-- dig. Once a part finds nothing the code returns nil, and null has no parts but blank ones.
unfoldable pub dig : Json → String → Json
dig root path =
    let p = trim_prefix (trim_prefix path ".") "/" in
    if p == "" then root else dig_parts (split_on 46 p) root

-- resolve
unfoldable pub resolve : String → Json → Json
resolve given payload =
    let expr = trim_space given in
    let plain =
      if has_prefix expr "$." || has_prefix expr "$["
      then dig payload (trim_prefix expr "$")
      else if has_prefix expr "."
      then dig payload expr
      else if contains_text expr "." && not (contains_text expr " ")
      then dig payload (concat "." expr)
      else text expr in
    if expr == "" then null else elim (quoted 34 expr) [
      | some s ↦ text s
      | none ↦ elim (quoted 39 expr) [ some s ↦ text s | none ↦ plain ]
    ]

-- applyTransform
unfoldable pub apply_transform : Host → String → String → String
apply_transform host s transform =
    let t = lower (trim_space transform) in
    if t == "" || t == "identity"
    then s
    else if t == "lowercase"
    then lower s
    else if t == "trim"
    then trim_space s
    else if t == "sha256_hex"
    then host.sha256_hex s
    else if t == "uuid_v5"
    then host.uuid_v5 s
    else s

-- stringify, with the parts of an array joined by commas
unfoldable mutual
  pub stringify : Host → Json → String
  stringify host null = ""
  stringify host (text s) = s
  stringify host (number s) = s
  stringify host (truth b) = if b then "true" else "false"
  stringify host (arr xs) = join host xs
  stringify host (obj fs) = host.marshal (obj fs)

  pub join : Host → Items → String
  join host nil = ""
  join host (cons x xs) = join_rest host (stringify host x) xs

  pub join_rest : Host → String → Items → String
  join_rest host first nil = first
  join_rest host first (cons x xs) =
      join_rest host (concat first (concat "," (stringify host x))) xs

unfoldable pub is_blank : Json → Bool
is_blank null = true
is_blank (text s) = s == ""
is_blank v = false

-- with a default, transformed, where the expression gives nothing
unfoldable pub eval_expr : Host → Expr → Json → String
eval_expr host e payload =
    let raw = resolve e.expr payload in
    let given : String = elim e.default [ none ↦ "" | some d ↦ stringify host d ] in
    let changed : String = elim e.default [
      | none ↦ ""
      | some d ↦ apply_transform host (stringify host d) e.transform
    ] in
    if trim_space e.expr == ""
    then given
    else if is_blank raw
    then changed
    else apply_transform host (stringify host raw) e.transform

-- evalString
unfoldable pub eval_string : Host → Option Expr → Json → String
eval_string host none payload = ""
eval_string host (some e) payload = eval_expr host e payload
