-- ===== src/Inventory/Tenants.antt =====
-- What a lookup in the index of src/dgraphai/inventory/taxonomy.py gives, and which queries compare the
-- tenant.
use dgraphai.Inventory.Model.{Categories, Category, category, details, more, no_more}
use dgraphai.Inventory.Taxonomy.{all_categories, category_index, get_category, index}
use dgraphai.Prelude.{
  Bool, Bool-cases, List, Option, String, [], eq_iff, false, inl, inr, none, not, refl, some, ap,
  if◌then◌else◌, starts_with, str_eq, subst, sym, ◌∙◌, true, ◌&&◌, ◌||◌, ◌≡◌, ◌⊎◌, ◌∷◌,
}
use dgraphai.Prelude.Dict.{insert, lookup, lookup-insert}

-- `part in text`
abbrev is_in : String → String → Bool
is_in part String.[] = starts_with String.[] part
is_in part (String.◌∷◌ c text) = starts_with (String.◌∷◌ c text) part || is_in part text

-- The conditions of the query end in the comparison of the tenant, and none of them is joined by `OR`,
-- which binds less than `AND`.
abbrev pub is_scoped : Category → Bool
is_scoped c =
    is_in ".tenant_id = $tid RETURN" (details c).cypher && not (is_in " OR " (details c).cypher)

-- the category of private keys, whose query is not so
abbrev pub is_private_keys : Category → Bool
is_private_keys c = str_eq (details c).id "certs-keys"

abbrev text_is : String → Option String → Bool
text_is s none = false
text_is s (some t) = str_eq s t

-- they name the category as their parent, and are of its group
abbrev belong_to : Category → Categories → Bool
belong_to c no_more = true
belong_to c (more s rest) =
    text_is (details c).id (details s).parent_id
    && str_eq (details c).group (details s).group
    && belong_to c rest

abbrev pub is_parent : Category → Bool
is_parent (category d cs) = belong_to (category d cs) cs

abbrev every : List Category → Bool
every [] = true
every (c ∷ cats) = ((is_scoped c || is_private_keys c) && is_parent c) && every cats

every_category : every all_categories ≡ true
every_category = refl

abbrev pub absent : String → List Category → Bool
absent cid [] = true
absent cid (c ∷ cats) = not (str_eq cid (details c).id) && absent cid cats

-- a category of the name, whose query is scoped or is that of private keys, and which is its
-- subcategories' parent
abbrev pub Found : String → Option Category → Type 0
Found cid o =
    (c : Category) × (o ≡ some c)
    × ((details c).id ≡ cid)
    × ((is_scoped c ≡ true) ⊎ ((details c).id ≡ "certs-keys"))
    × (is_parent c ≡ true)

-- either no category has the name, or one of that name is found
abbrev LookupResult : String → List Category → Option Category → Type 0
LookupResult cid cats o = ((o ≡ none) × (absent cid cats ≡ true)) ⊎ Found cid o

or_false : (a : Bool) → (a || false) ≡ true → a ≡ true
or_false true e = refl
or_false false e = e

scoped_or_keys :
    (c : Category)
    → (is_scoped c || is_private_keys c) ≡ true
    → (is_scoped c ≡ true) ⊎ ((details c).id ≡ "certs-keys")
scoped_or_keys c e = elim (Bool-cases (is_private_keys c)) [
  | inl keys ↦ inr ((eq_iff (details c).id "certs-keys").0 keys)
  | inr other ↦ inl (or_false (is_scoped c) (subst (λ b. (is_scoped c || b) ≡ true) other e))
]

split_and : (a b : Bool) → (a && b) ≡ true → (a ≡ true) × (b ≡ true)
split_and true b h = (refl, h)
split_and false b h = absurd cc

module _ (cid : String) where
  insert-Found :
      (c : Category) (d : List (String × Category))
      → ((is_scoped c || is_private_keys c) && is_parent c) ≡ true
      → str_eq cid (details c).id ≡ true
      → Found cid (lookup cid (insert (details c).id c d))
  insert-Found c d ok same =
      let (scoped, parent) = split_and (is_scoped c || is_private_keys c) (is_parent c) ok in
      (
        c,
        lookup-insert (details c).id cid c d ∙ ap (λ b. if b then some c else lookup cid d) same,
        sym ((eq_iff cid (details c).id).0 same),
        scoped_or_keys c scoped,
        parent,
      )

  insert-other :
      (c : Category) (d : List (String × Category))
      → str_eq cid (details c).id ≡ false
      → lookup cid (insert (details c).id c d) ≡ lookup cid d
  insert-other c d other =
      lookup-insert (details c).id cid c d ∙ ap (λ b. if b then some c else lookup cid d) other

  index-Found :
      (cats : List Category) (d : List (String × Category))
      → every cats ≡ true
      → Found cid (lookup cid d)
      → Found cid (lookup cid (index cats d))
  index-Found [] d ok found = found
  index-Found (c ∷ cats) d ok found =
      let (ok_c, ok_cats) =
        split_and ((is_scoped c || is_private_keys c) && is_parent c) (every cats) ok in
      index-Found cats (insert (details c).id c d) ok_cats
        (elim (Bool-cases (str_eq cid (details c).id)) [
          | inl same ↦ insert-Found c d ok_c same
          | inr other ↦ subst (Found cid) (sym (insert-other c d other)) found
        ])

  index-LookupResult :
      (cats : List Category) (d : List (String × Category))
      → every cats ≡ true
      → lookup cid d ≡ none
      → LookupResult cid cats (lookup cid (index cats d))
  index-LookupResult [] d ok missing = inl (missing, refl)
  index-LookupResult (c ∷ cats) d ok missing =
      let (ok_c, ok_cats) =
        split_and ((is_scoped c || is_private_keys c) && is_parent c) (every cats) ok in
      elim (Bool-cases (str_eq cid (details c).id)) [
        | inl same ↦
            inr (index-Found cats (insert (details c).id c d) ok_cats (insert-Found c d ok_c same))
        | inr other ↦
            elim (index-LookupResult cats (insert (details c).id c d) ok_cats
              (insert-other c d other ∙ missing)) [
                | inl (gone, none_of) ↦
                    inl (gone, ap (λ b. not b && absent cid cats) other ∙ none_of)
                | inr found ↦ inr found
              ]
      ]

-- Whatever the name that is looked up: either no category of the taxonomy has it and nothing is
-- found, or a category of that name is found; unless it is "certs-keys", the conditions of its query
-- are not joined by `OR` and end in the comparison of a node's `tenant_id` with the parameter `$tid`;
-- and its subcategories name it as their parent and are of its group.
pub get_category_lem : (cid : String) → LookupResult cid all_categories (get_category cid)
unfolding get_category category_index
get_category_lem cid = index-LookupResult cid all_categories [] every_category refl
