-- ===== src/Rbac/Scope.antt =====
-- Scope filters: from a user's assignments to a fragment of a Cypher WHERE clause.
pub mod Filter
use Prim.Native.String.{◌++◌ as append}
use dgraphai.Prelude.{
  ℕ, String, Bool, true, false, Option, none, some, List, [], ◌∷◌, ◌++◌, map, keep, str_eq,
  if◌then◌else◌,
}
use dgraphai.Rbac.Permissions.{ScopeValue, RoleAssignment}

-- the dicts of the list `conditions`
pub data Condition : Type 0 where
  connector : List String → Condition
  tag : List String → Condition
  attribute : List (String × String) → Condition

abbrev pub is_some {ℓ} : {A : Type ℓ} → Option A → Bool
is_some none = false
is_some (some a) = true

-- `d.get(k, default)` of a key that is there or not
abbrev pub get_or {ℓ} : {A : Type ℓ} → Option A → A → A
get_or none d = d
get_or (some a) d = a

-- one round of the loop of `build_scope_filter`: what it appends, or `none` for the `AttributeError` of
-- `get` on NULL
abbrev pub with_value {ℓ} : {A : Type ℓ} → Option ScopeValue → (ScopeValue → A) → Option A
with_value none f = none
with_value (some v) f = some (f v)

abbrev pub condition_of : String → Option ScopeValue → Option (List Condition)
condition_of scope_type value =
    if str_eq scope_type "connector"
    then with_value value (λ v. connector (get_or v.connector_ids []) ∷ [])
    else if str_eq scope_type "tag"
    then with_value value (λ v. tag (get_or v.tags []) ∷ [])
    else if str_eq scope_type "attribute"
    then with_value value (λ v. attribute (get_or v.filters []) ∷ [])
    else some []

abbrev pub condition : RoleAssignment → Option (List Condition)
condition a = elim a.scope_type [ none ↦ some [] | some t ↦ condition_of t a.scope_value ]

abbrev pub join_lists : Option (List Condition) → Option (List Condition) → Option (List Condition)
join_lists none q = none
join_lists (some cs) none = none
join_lists (some cs) (some ds) = some (cs ++ ds)

abbrev pub conditions : List RoleAssignment → Option (List Condition)
conditions [] = some []
conditions (a ∷ rest) = join_lists (condition a) (conditions rest)

abbrev pub non_empty {ℓ} : {A : Type ℓ} → List A → Option (List A)
non_empty [] = none
non_empty (a ∷ rest) = some (a ∷ rest)

abbrev pub filter_of : Option (List Condition) → Option (Option (List Condition))
filter_of none = none
filter_of (some cs) = some (non_empty cs)

-- The filter's operator is always "OR", so the filter is its list of conditions. The outer `none` is the
-- exception.
unfoldable pub build_scope_filter : List RoleAssignment → Option (Option (List Condition))
build_scope_filter assignments =
    let scoped = keep (λ (a : RoleAssignment). is_some a.scope_type) assignments in
    elim scoped [ [] ↦ some none | a ∷ rest ↦ filter_of (conditions (a ∷ rest)) ]

-- `sep.join(parts)`
abbrev pub join : String → List String → String
join sep [] = ""
join sep (s ∷ []) = s
join sep (s ∷ t ∷ rest) = append s (append sep (join sep (t ∷ rest)))

abbrev quoted : String → String
quoted i = append "\"" (append i "\"")

-- what one condition appends to `clauses`
unfoldable pub clauses : Condition → List String
clauses (connector ids) =
    append "n.connector_id IN [" (append (join ", " (map quoted ids)) "]") ∷ []
clauses (tag tags) = map (λ t. append "'" (append t "' IN n.tags")) tags
clauses (attribute filters) =
    map (λ kv. append "n." (append kv.0 (append " = '" (append kv.1 "'")))) filters

abbrev pub all_clauses : List Condition → List String
all_clauses [] = []
all_clauses (c ∷ rest) = clauses c ++ all_clauses rest

-- `f"({f' {op} '.join(clauses)})"`, or nothing if there is no clause
abbrev pub disjunction : List String → String
disjunction [] = ""
disjunction (c ∷ rest) = append "(" (append (join " OR " (c ∷ rest)) ")")

unfoldable pub scope_filter_to_cypher : Option (List Condition) → String
scope_filter_to_cypher none = ""
scope_filter_to_cypher (some conds) = disjunction (all_clauses conds)
