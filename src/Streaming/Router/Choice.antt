-- ===== src/Streaming/Router/Choice.antt =====
-- Which agent is chosen.
use dgraphai.Prelude.Members.{IsIn, IsIn-any, any-IsIn, contains-IsIn}
use dgraphai.Prelude.Dict.{contains}
use dgraphai.Prelude.{not, ◌↔◌, ◌⊎◌, ◌&&◌}
use dgraphai.Streaming.Router.{AgentTopology, serves}
use dgraphai.Prelude.{Bool-cases, Option-cases, String, inl, inr, leb→le, subst, sym}
use dgraphai.Streaming.Router.{Topology, agents_of, is_candidate, routing_score, select_source}
use dgraphai.Prelude.{
  All, Bool, List, Option, [], ap, arith, false, if◌then◌else◌, keep, leb, none, refl, some, true,
  ℕ, ◌∙◌, ◌∷◌, ◌≡◌, ◌≤◌,
}
use dgraphai.Streaming.Router.{first, insert_by, sort_by}

-- The first of the sorted list, without sorting.
abbrev best : {A : Type 0} → (A → ℕ) → List A → Option A
best key [] = none
best key (x ∷ xs) = elim (best key xs) [
  | none ↦ some x
  | some y ↦ (if leb (key x) (key y) then some x else some y)
]

-- What holds of a choice: it is in the list, it has the property, and its key is least among those that have it.
abbrev IsLeast : {A : Type 0} → (A → ℕ) → (A → Bool) → List A → Option A → Type 0
IsLeast key p xs none = All (λ x. p x ≡ false) xs
IsLeast key p xs (some t) = IsIn t xs × (p t ≡ true) × All (λ x. p x ≡ true → key t ≤ key x) xs

module _ {A : Type 0} (key : A → ℕ) where
  first-insert_by :
      (x : A) (ys : List A)
      → first (insert_by key x ys) ≡ elim (first ys) [
        | none ↦ some x
        | some y ↦ (if leb (key x) (key y) then some x else some y)
      ]
  first-insert_by x [] = refl
  first-insert_by x (y ∷ ys) = ground arith

  first-sort_by : (xs : List A) → first (sort_by key xs) ≡ best key xs
  first-sort_by [] = refl
  first-sort_by (x ∷ xs) =
      first-insert_by x (sort_by key xs)
      ∙ ap
          (λ o. elim o [
            | none ↦ some x
            | some y ↦ (if leb (key x) (key y) then some x else some y)
          ])
          (first-sort_by xs)

  All-le :
      (p : A → Bool) (n m : ℕ) (xs : List A)
      → n ≤ m
      → All (λ x. p x ≡ true → m ≤ key x) xs
      → All (λ x. p x ≡ true → n ≤ key x) xs
  All-le p n m [] le h = tt
  All-le p n m (x ∷ xs) le h = ((λ e. omega (arith, h.0 e)), All-le p n m xs le h.1)

  All-none :
      (p : A → Bool) (n : ℕ) (xs : List A)
      → All (λ x. p x ≡ false) xs
      → All (λ x. p x ≡ true → n ≤ key x) xs
  All-none p n [] h = tt
  All-none p n (x ∷ xs) h = ((λ e. ground (arith, h.0)), All-none p n xs h.1)

  keep_yes : (p : A → Bool) (x : A) (xs : List A) → p x ≡ true → keep p (x ∷ xs) ≡ x ∷ keep p xs
  keep_yes p x xs e = ground (arith, e)

  keep_no : (p : A → Bool) (x : A) (xs : List A) → p x ≡ false → keep p (x ∷ xs) ≡ keep p xs
  keep_no p x xs e = ground (arith, e)

  -- the better of an element and what the rest gives
  abbrev pick : A → Option A → Option A
  pick x none = some x
  pick x (some y) = if leb (key x) (key y) then some x else some y

  pick-IsLeast :
      (p : A → Bool) (x : A) (xs : List A) (o : Option A)
      → p x ≡ true
      → IsLeast key p xs o
      → IsLeast key p (x ∷ xs) (pick x o)
  pick-IsLeast p x xs none e h = (inl refl, e, ((λ k. omega arith), All-none p (key x) xs h))
  pick-IsLeast p x xs (some y) e h = elim (Bool-cases (leb (key x) (key y))) [
    | inl le ↦ rw le (
      inl refl,
      e,
      ((λ k. omega arith), All-le p (key x) (key y) xs (leb→le (key x) (key y) le) h.2),
    )
    | inr gt ↦ rw gt (inr h.0, h.1, ((λ k. ground (arith, gt)), h.2))
  ]

  skip-IsLeast :
      (p : A → Bool) (x : A) (xs : List A) (o : Option A)
      → p x ≡ false
      → IsLeast key p xs o
      → IsLeast key p (x ∷ xs) o
  skip-IsLeast p x xs none e h = (e, h)
  skip-IsLeast p x xs (some y) e h = (inr h.0, h.1, ((λ k. ground (arith, e)), h.2))

  best_cons : (x : A) (xs : List A) → best key (x ∷ xs) ≡ pick x (best key xs)
  best_cons x xs = elim (Option-cases (best key xs)) [
    | inl e ↦ ground (arith, e)
    | inr (y, e) ↦ ground (arith, e)
  ]

  best-IsLeast : (p : A → Bool) (xs : List A) → IsLeast key p xs (best key (keep p xs))
  best-IsLeast p [] = tt
  best-IsLeast p (x ∷ xs) = elim (Bool-cases (p x)) [
    | inl e ↦
        subst (λ l. IsLeast key p (x ∷ xs) (best key l)) (sym (keep_yes p x xs e))
          (subst (IsLeast key p (x ∷ xs)) (sym (best_cons x (keep p xs)))
            (pick-IsLeast p x xs (best key (keep p xs)) e (best-IsLeast p xs)))
    | inr e ↦
        subst (λ l. IsLeast key p (x ∷ xs) (best key l)) (sym (keep_no p x xs e))
          (skip-IsLeast p x xs (best key (keep p xs)) e (best-IsLeast p xs))
  ]

-- An agent that may be chosen: online, not excluded, and with one of the connectors in its index, or
-- no connector is asked for.
abbrev pub IsEligible : List String → List String → AgentTopology → Type 0
IsEligible connector_ids exclude t =
    (t.is_online ≡ true)
    × (IsIn t.agent_id exclude → ⊥)
    × ((connector_ids ≡ []) ⊎ ((c : String) × IsIn c connector_ids × IsIn c t.indexed_connectors))

serves-shared :
    (cs : List String) (t : AgentTopology)
    → (serves cs t ≡ true) ↔ ((cs ≡ []) ⊎ ((c : String) × IsIn c cs × IsIn c t.indexed_connectors))
serves-shared [] t = (λ e. inl refl, λ h. refl)
serves-shared (x ∷ xs) t = (
  λ e.
      let (c, m, k) = any-IsIn (λ c. contains c t.indexed_connectors) (x ∷ xs) e in
      inr (c, m, (contains-IsIn c t.indexed_connectors).0 k),
  λ h. elim h [
    | inl none_asked ↦ absurd cc
    | inr (c, m, k) ↦
        IsIn-any (λ c. contains c t.indexed_connectors) c (x ∷ xs) m
          ((contains-IsIn c t.indexed_connectors).1 k)
  ],
)

not_excluded : (k : String) (xs : List String) → (not (contains k xs) ≡ true) ↔ (IsIn k xs → ⊥)
not_excluded k xs = (
  λ e m. ground (arith, e, (contains-IsIn k xs).1 m),
  λ h. elim (Bool-cases (contains k xs)) [
    | inl there ↦ absurd (h ((contains-IsIn k xs).0 there))
    | inr missing ↦ ap not missing
  ],
)

three : (a b c : Bool) → ((a && b && c) ≡ true) ↔ ((a ≡ true) × (b ≡ true) × (c ≡ true))
three a b c = ground arith

is_candidate-IsEligible :
    (cs exclude : List String) (t : AgentTopology)
    → (is_candidate cs exclude t ≡ true) ↔ IsEligible cs exclude t
is_candidate-IsEligible cs exclude t =
    let parts = three t.is_online (not (contains t.agent_id exclude)) (serves cs t) in
    (
      λ e.
          let (online, free, shares) = parts.0 e in
          (online, (not_excluded t.agent_id exclude).0 free, (serves-shared cs t).0 shares),
      λ h. parts.1 (h.0, (not_excluded t.agent_id exclude).1 h.1, (serves-shared cs t).1 h.2),
    )

-- What holds of a choice among a list, for a property: none has it and nothing is chosen, or what is
-- chosen is in the list, has it, and its key is least among those that have it.
abbrev pub IsChoice : {A : Type 0} → (A → ℕ) → (A → Type 0) → List A → Option A → Type 0
IsChoice key P xs none = All (λ x. P x → ⊥) xs
IsChoice key P xs (some t) = IsIn t xs × P t × All (λ x. P x → key t ≤ key x) xs

module _ {A : Type 0} (key : A → ℕ) (p : A → Bool) (P : A → Type 0)
    (same : (x : A) → (p x ≡ true) ↔ P x) where
  none-IsChoice : (xs : List A) → All (λ x. p x ≡ false) xs → All (λ x. P x → ⊥) xs
  none-IsChoice [] h = tt
  none-IsChoice (x ∷ xs) h = ((λ k. ground (arith, h.0, (same x).1 k)), none-IsChoice xs h.1)

  least-IsChoice :
      (n : ℕ) (xs : List A) → All (λ x. p x ≡ true → n ≤ key x) xs → All (λ x. P x → n ≤ key x) xs
  least-IsChoice n [] h = tt
  least-IsChoice n (x ∷ xs) h = ((λ k. h.0 ((same x).1 k)), least-IsChoice n xs h.1)

  IsLeast-IsChoice : (xs : List A) (o : Option A) → IsLeast key p xs o → IsChoice key P xs o
  IsLeast-IsChoice xs none h = none-IsChoice xs h
  IsLeast-IsChoice xs (some t) h = (h.0, (same t).0 h.1, least-IsChoice (key t) xs h.2)

-- Nothing is chosen exactly when no registered agent is online, not excluded, and has one of the
-- connectors, or none are asked for; otherwise the choice is such a registered agent, and no other
-- such agent has a smaller routing score.
pub select_source_lem :
    (ratio : ℕ → ℕ → ℕ) (connector_ids : List String) (region : String) (exclude : List String)
    (agents : Topology)
    → IsChoice
        (routing_score ratio region)
        (IsEligible connector_ids exclude)
        (agents_of agents)
        (select_source ratio connector_ids region exclude agents)
unfolding select_source
select_source_lem ratio connector_ids region exclude agents =
    let key = routing_score ratio region in
    let p = is_candidate connector_ids exclude in
    IsLeast-IsChoice key p (IsEligible connector_ids exclude)
      (is_candidate-IsEligible connector_ids exclude) (agents_of agents) _
      (subst (IsLeast key p (agents_of agents))
        (sym (first-sort_by key (keep p (agents_of agents))))
        (best-IsLeast key p (agents_of agents)))
