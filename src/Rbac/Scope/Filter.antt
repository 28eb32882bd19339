-- ===== src/Rbac/Scope/Filter.antt =====
-- What a scope filter restricts.
use Prim.Native.String.{◌++◌ as append}
use text.Mathlib.TextLemmas.{append-eq-nil_iff}
use dgraphai.Prelude.{
  Bool-cases, ap, inl, inr, sym, ◌∙◌, eq_iff, ◌≢◌, append_assoc, ◌↔◌, String, Bool, true, false,
  Option, none, some, List, [], ◌∷◌, ◌++◌, keep, str_eq, ◌≡◌, refl, arith, All, if◌then◌else◌,
}
use dgraphai.Rbac.Permissions.{RoleAssignment, ScopeValue}
use dgraphai.Rbac.Scope.{
  Condition, filter_of, join_lists, is_some, disjunction, condition, conditions, non_empty,
  build_scope_filter, scope_filter_to_cypher, clauses, all_clauses,
}

join_lists_nil : (q : Option (List Condition)) → join_lists (some []) q ≡ q
join_lists_nil none = refl
join_lists_nil (some ds) = refl

join_lists_assoc :
    (p q r : Option (List Condition))
    → join_lists (join_lists p q) r ≡ join_lists p (join_lists q r)
join_lists_assoc none q r = refl
join_lists_assoc (some cs) none r = refl
join_lists_assoc (some cs) (some ds) none = refl
join_lists_assoc (some cs) (some ds) (some es) = ap some (append_assoc cs ds es)

condition_unscoped : (a : RoleAssignment) → is_some a.scope_type ≡ false → condition a ≡ some []
condition_unscoped a e = ground (arith, e)

keep_scoped :
    (a : RoleAssignment) (xs : List RoleAssignment) (b : Bool)
    → is_some a.scope_type ≡ b
    → keep (λ (a : RoleAssignment). is_some a.scope_type) (a ∷ xs) ≡ (
        if b
        then a ∷ keep (λ (a : RoleAssignment). is_some a.scope_type) xs
        else keep (λ (a : RoleAssignment). is_some a.scope_type) xs)
keep_scoped a xs b e =
    ap
      (λ c.
        if c
        then a ∷ keep (λ (a : RoleAssignment). is_some a.scope_type) xs
        else keep (λ (a : RoleAssignment). is_some a.scope_type) xs)
      e

conditions-keep :
    (xs : List RoleAssignment)
    → conditions (keep (λ (a : RoleAssignment). is_some a.scope_type) xs) ≡ conditions xs
conditions-keep [] = refl
conditions-keep (a ∷ xs) = elim (Bool-cases (is_some a.scope_type)) [
  | inl scoped ↦
      ap conditions (keep_scoped a xs true scoped)
      ∙ ap (join_lists (condition a)) (conditions-keep xs)
  | inr unscoped ↦
      ap conditions (keep_scoped a xs false unscoped)
      ∙ conditions-keep xs
      ∙ sym (join_lists_nil (conditions xs))
      ∙ ap (λ p. join_lists p (conditions xs)) (sym (condition_unscoped a unscoped))
]

filter_of-conditions :
    (scoped : List RoleAssignment)
    → (elim scoped [ [] ↦ some none | a ∷ rest ↦ filter_of (conditions (a ∷ rest)) ])
      ≡ filter_of (conditions scoped)
filter_of-conditions [] = refl
filter_of-conditions (a ∷ rest) = refl

pub build_scope_filter-eq :
    (xs : List RoleAssignment) → build_scope_filter xs ≡ filter_of (conditions xs)
unfolding build_scope_filter
build_scope_filter-eq xs =
    filter_of-conditions (keep (λ (a : RoleAssignment). is_some a.scope_type) xs)
    ∙ ap filter_of (conditions-keep xs)

conditions-append :
    (xs ys : List RoleAssignment)
    → conditions (xs ++ ys) ≡ join_lists (conditions xs) (conditions ys)
conditions-append [] ys = sym (join_lists_nil (conditions ys))
conditions-append (a ∷ xs) ys =
    ap (join_lists (condition a)) (conditions-append xs ys)
    ∙ sym (join_lists_assoc (condition a) (conditions xs) (conditions ys))

-- An assignment with no scope type plays no part in the filter, wherever it stands among the
-- assignments: a user who holds one beside scoped assignments gets the filter of the scoped ones.
pub build_scope_filter-unscoped :
    (xs ys : List RoleAssignment) (a : RoleAssignment)
    → a.scope_type ≡ none
    → build_scope_filter (xs ++ a ∷ ys) ≡ build_scope_filter (xs ++ ys)
build_scope_filter-unscoped xs ys a h =
    build_scope_filter-eq (xs ++ a ∷ ys)
    ∙ ap filter_of (
        conditions-append xs (a ∷ ys)
        ∙ ap (join_lists (conditions xs)) (
            ap (λ p. join_lists p (conditions ys)) (condition_unscoped a (ap is_some h))
            ∙ join_lists_nil (conditions ys))
        ∙ sym (conditions-append xs ys))
    ∙ sym (build_scope_filter-eq (xs ++ ys))

-- Assignments that restrict nothing: no scope, an unknown scope type, or a tag or attribute scope
-- that lists nothing.
abbrev pub empty_list {ℓ} : {A : Type ℓ} → Option (List A) → Bool
empty_list none = true
empty_list (some []) = true
empty_list (some (a ∷ rest)) = false

abbrev pub has_no_entry {ℓ} :
    {A : Type ℓ} → (ScopeValue → Option (List A)) → Option ScopeValue → Bool
has_no_entry f none = false
has_no_entry f (some v) = empty_list (f v)

abbrev pub restricts_nothing : RoleAssignment → Bool
restricts_nothing a = elim a.scope_type [
  | none ↦ true
  | some t ↦
      if str_eq t "connector"
      then false
      else if str_eq t "tag"
      then has_no_entry (λ v. v.tags) a.scope_value
      else if str_eq t "attribute"
      then has_no_entry (λ v. v.filters) a.scope_value
      else true
]

-- no exception, and no clause
abbrev NoClauses : Option (List Condition) → Type 0
NoClauses none = ⊥
NoClauses (some cs) = all_clauses cs ≡ []

condition_clauses : (a : RoleAssignment) → NoClauses (condition a) ↔ (restricts_nothing a ≡ true)
unfolding clauses
condition_clauses a = ground arith

all_clauses-append :
    (cs ds : List Condition) → all_clauses (cs ++ ds) ≡ all_clauses cs ++ all_clauses ds
all_clauses-append [] ds = refl
all_clauses-append (c ∷ cs) ds = rw (all_clauses-append cs ds, append_assoc)

append-eq-nil {ℓ} : {A : Type ℓ} (xs ys : List A) → (xs ++ ys ≡ []) ↔ ((xs ≡ []) × (ys ≡ []))
append-eq-nil [] ys = (λ h. (refl, h), λ h. h.1)
append-eq-nil (x ∷ xs) ys = ground arith

join_lists-NoClauses :
    (p q : Option (List Condition)) → NoClauses (join_lists p q) ↔ (NoClauses p × NoClauses q)
join_lists-NoClauses none q = (λ h. elim h [ ], λ h. h.0)
join_lists-NoClauses (some cs) none = (λ h. elim h [ ], λ h. h.1)
join_lists-NoClauses (some cs) (some ds) =
    let e = append-eq-nil (all_clauses cs) (all_clauses ds) in
    let same = all_clauses-append cs ds in (λ h. e.0 (sym same ∙ h), λ h. same ∙ e.1 h)

no_clauses :
    (xs : List RoleAssignment)
    → NoClauses (conditions xs) ↔ All (λ a. restricts_nothing a ≡ true) xs
no_clauses [] = (λ _. tt, λ _. refl)
no_clauses (a ∷ xs) =
    let e = join_lists-NoClauses (condition a) (conditions xs) in
    (
      λ h. ((condition_clauses a).0 (e.0 h).0, (no_clauses xs).0 (e.0 h).1),
      λ h. e.1 ((condition_clauses a).1 h.0, (no_clauses xs).1 h.1),
    )

-- Text in parentheses is not empty.
parenthesised : (s : String) → append "(" s ≢ ""
parenthesised s h = ground (arith, eq_iff "(" "", append-eq-nil_iff.0 h)

disjunction-eq-nil : (ts : List String) → (disjunction ts ≡ "") ↔ (ts ≡ [])
disjunction-eq-nil [] = (λ _. refl, λ _. refl)
disjunction-eq-nil (t ∷ ts) = (λ h. absurd (parenthesised _ h), λ h. cc)

scope_filter_to_cypher-eq-nil :
    (cs : List Condition) → (scope_filter_to_cypher (non_empty cs) ≡ "") ↔ (all_clauses cs ≡ [])
unfolding scope_filter_to_cypher
scope_filter_to_cypher-eq-nil [] = (λ _. refl, λ _. refl)
scope_filter_to_cypher-eq-nil (c ∷ cs) = disjunction-eq-nil (all_clauses (c ∷ cs))

-- The fragment of the filter, unless building it raised.
abbrev pub fragment : Option (Option (List Condition)) → Option String
fragment none = none
fragment (some conds) = some (scope_filter_to_cypher conds)

fragment-NoClauses :
    (p : Option (List Condition)) → (fragment (filter_of p) ≡ some "") ↔ NoClauses p
fragment-NoClauses none = (λ h. cc, λ h. elim h [ ])
fragment-NoClauses (some cs) =
    let e = scope_filter_to_cypher-eq-nil cs in (λ h. e.0 cc, λ h. ap some (e.1 h))

-- No exception is raised and the fragment is empty, so that the query is not restricted at all,
-- exactly when every assignment has no scope, a scope type other than the three known ones, or a tag
-- or attribute scope, not NULL, with no entry; one connector scope, even with no connector, makes it a
-- restriction or an exception.
pub unrestricted_iff :
    (xs : List RoleAssignment)
    → (fragment (build_scope_filter xs) ≡ some "") ↔ All (λ a. restricts_nothing a ≡ true) xs
unrestricted_iff xs =
    let e = fragment-NoClauses (conditions xs) in
    (
      λ h. (no_clauses xs).0 (e.0 (ap fragment (sym (build_scope_filter-eq xs)) ∙ h)),
      λ h. ap fragment (build_scope_filter-eq xs) ∙ e.1 ((no_clauses xs).1 h),
    )
