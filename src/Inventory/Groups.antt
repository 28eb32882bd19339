-- ===== src/Inventory/Groups.antt =====
-- The top-level categories by their group: `get_by_group` of src/dgraphai/inventory/taxonomy.py.
use dgraphai.Inventory.Model.{Category, details}
use dgraphai.Inventory.Taxonomy.{inventory}
use mathlib.Core.List.{append-nil}
use dgraphai.Prelude.{
  Bool, Bool-cases, true, false, ap, if◌then◌else◌, sym, ◌∙◌, inl, inr, List, Option, String, [],
  append_assoc, eq_iff, keep, none, refl, some, str_eq, ◌++◌, ◌≡◌, ◌∷◌,
}
use dgraphai.Prelude.Dict.{insert, lookup, lookup-insert}

abbrev or_empty : Option (List Category) → List Category
or_empty none = []
or_empty (some cats) = cats

-- `d.get(group, [])`
abbrev pub listed : String → List (String × List Category) → List Category
listed group d = or_empty (lookup group d)

-- the loop's body, `out.setdefault(c.group, []).append(c)`
abbrev add_to_group : Category → List (String × List Category) → List (String × List Category)
add_to_group c d = insert (details c).group (listed (details c).group d ++ (c ∷ [])) d

unfoldable pub group_all :
    List Category → List (String × List Category) → List (String × List Category)
group_all [] d = d
group_all (c ∷ cats) d = group_all cats (add_to_group c d)

unfoldable pub get_by_group : List (String × List Category)
get_by_group = group_all inventory []

abbrev pub of_group : String → List Category → List Category
of_group group cats = keep (λ c. str_eq group (details c).group) cats

if-append :
    (b : Bool) (c : Category) (cats : List Category)
    → (if b then c ∷ [] else []) ++ cats ≡ (if b then c ∷ cats else cats)
if-append true c cats = refl
if-append false c cats = refl

listed-add_to_group :
    (group : String) (c : Category) (d : List (String × List Category))
    → listed group (add_to_group c d) ≡ listed group d ++ of_group group (c ∷ [])
listed-add_to_group group c d = elim (Bool-cases (str_eq group (details c).group)) [
  | inl same ↦
      chosen same
      ∙ ap (λ g. listed g d ++ (c ∷ [])) (sym ((eq_iff group (details c).group).0 same))
      ∙ ap (λ b. listed group d ++ (if b then c ∷ [] else [])) (sym same)
  | inr other ↦
      chosen other
      ∙ sym (append-nil (listed group d))
      ∙ ap (λ b. listed group d ++ (if b then c ∷ [] else [])) (sym other)
]
  where
    appended : List Category
    appended = listed (details c).group d ++ (c ∷ [])

    chosen :
        {b : Bool}
        → str_eq group (details c).group ≡ b
        → listed group (add_to_group c d) ≡ or_empty (if b then some appended else lookup group d)
    chosen e =
        ap or_empty (lookup-insert (details c).group group appended d)
        ∙ ap (λ b. or_empty (if b then some appended else lookup group d)) e

-- A dictionary of groups, to which categories are added, lists for each group what it listed and
-- then the categories of that group, in their order.
pub listed-group_all :
    (group : String) (cats : List Category) (d : List (String × List Category))
    → listed group (group_all cats d) ≡ listed group d ++ of_group group cats
unfolding group_all
listed-group_all group [] d = sym (append-nil (listed group d))
listed-group_all group (c ∷ cats) d =
    listed-group_all group cats (add_to_group c d)
    ∙ ap (λ xs. xs ++ of_group group cats) (listed-add_to_group group c d)
    ∙ append_assoc (listed group d) (of_group group (c ∷ [])) (of_group group cats)
    ∙ ap (λ xs. listed group d ++ xs)
        (if-append (str_eq group (details c).group) c (of_group group cats))

-- The dictionary of `get_by_group` lists for each group exactly the top-level categories of it, in
-- the order of the taxonomy.
pub get_by_group_lem : (group : String) → listed group get_by_group ≡ of_group group inventory
unfolding get_by_group
get_by_group_lem group = listed-group_all group inventory []
