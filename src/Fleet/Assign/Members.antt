-- ===== src/Fleet/Assign/Members.antt =====
-- To whom connectors are assigned.
use dgraphai.Fleet.Assign.{
  AssignRequest, assign_connectors, assign_to, is_strategy, on_own, strategy_of,
}
use dgraphai.Fleet.Model.{Fleet, Floats, System, own_fleet}
use dgraphai.Prelude.{subst, sym}
use dgraphai.Fleet.Assign.{agent_at, round_robin, update_dict}
use dgraphai.Fleet.Lists.{All-insert}
use dgraphai.Prelude.{
  All, Bool-cases, List, Option, String, [], arith, eq_refl, get_elem?, inl, inr, length, none,
  some, str_eq, suc, true, zero, ℕ, ◌%◌, ◌<◌, ◌∷◌, ◌≡◌, ◌⊎◌,
}
use dgraphai.Prelude.Dict.{contains, insert, lookup, lookup-insert}

get_elem-contains :
    (agents : List String) (n : ℕ)
    → n < length agents
    → contains (elim (get_elem? agents n) [ none ↦ "" | some a ↦ a ]) agents ≡ true
get_elem-contains [] n h = ground arith
get_elem-contains (a ∷ agents) zero h = ground (arith, eq_refl a)
get_elem-contains (a ∷ agents) (suc n) h = ground (arith, get_elem-contains agents n (omega arith))

agent_at-contains :
    (a : String) (agents : List String) (i : ℕ)
    → contains (agent_at (a ∷ agents) i) (a ∷ agents) ≡ true
agent_at-contains a agents i =
    get_elem-contains (a ∷ agents) (i % length (a ∷ agents)) (omega arith)

-- An entry of a dictionary that is a member.
abbrev pub IsMember : List String → Option String → Type 0
IsMember agents o = (a : String) × (o ≡ some a) × (contains a agents ≡ true)

module _ (a : String) (agents : List String) (c : String) where
  insert-IsMember :
      (x v : String) (d : List (String × String))
      → contains v (a ∷ agents) ≡ true
      → (str_eq c x ≡ true) ⊎ IsMember (a ∷ agents) (lookup c d)
      → IsMember (a ∷ agents) (lookup c (insert x v d))
  insert-IsMember x v d m h = elim (Bool-cases (str_eq c x)) [
    | inl same ↦ (v, ground (arith, lookup-insert x c v d), m)
    | inr other ↦ elim h [
      | inl same ↦ absurd cc
      | inr (w, e, k) ↦ (w, ground (arith, lookup-insert x c v d), k)
    ]
  ]

  round_robin-IsMember :
      (i : ℕ) (cs : List String) (d : List (String × String))
      → (contains c cs ≡ true) ⊎ IsMember (a ∷ agents) (lookup c d)
      → IsMember (a ∷ agents) (lookup c (round_robin (a ∷ agents) i cs d))
  round_robin-IsMember i [] d (inl h) = absurd cc
  round_robin-IsMember i [] d (inr h) = h
  round_robin-IsMember i (x ∷ cs) d (inr h) =
      round_robin-IsMember (suc i) cs _
        (inr (insert-IsMember x _ d (agent_at-contains a agents i) (inr h)))
  round_robin-IsMember i (x ∷ cs) d (inl h) = elim (Bool-cases (str_eq c x)) [
    | inl same ↦
        round_robin-IsMember (suc i) cs _
          (inr (insert-IsMember x _ d (agent_at-contains a agents i) (inl same)))
    | inr other ↦ round_robin-IsMember (suc i) cs _ (inl (ground arith))
  ]

  update_dict-IsMember :
      (d e : List (String × String))
      → All (λ kv. contains kv.1 (a ∷ agents) ≡ true) e
      → (IsMember (a ∷ agents) (lookup c e)) ⊎ IsMember (a ∷ agents) (lookup c d)
      → IsMember (a ∷ agents) (lookup c (update_dict d e))
  update_dict-IsMember d [] all (inl (w, e, k)) = absurd cc
  update_dict-IsMember d [] all (inr h) = h
  update_dict-IsMember d ((k, v) ∷ e) all (inr h) =
      update_dict-IsMember (insert k v d) e all.1 (inr (insert-IsMember k v d all.0 (inr h)))
  update_dict-IsMember d ((k, v) ∷ e) all (inl h) = elim (Bool-cases (str_eq c k)) [
    | inl same ↦
        update_dict-IsMember (insert k v d) e all.1 (inr (insert-IsMember k v d all.0 (inl same)))
    | inr other ↦ update_dict-IsMember (insert k v d) e all.1 (inl (h.0, ground (arith, h.1), h.2))
  ]

round_robin-All :
    (a : String) (agents : List String) (i : ℕ) (cs : List String) (d : List (String × String))
    → All (λ kv. contains kv.1 (a ∷ agents) ≡ true) d
    → All (λ kv. contains kv.1 (a ∷ agents) ≡ true) (round_robin (a ∷ agents) i cs d)
round_robin-All a agents i [] d h = h
round_robin-All a agents i (c ∷ cs) d h =
    round_robin-All a agents (suc i) cs _
      (All-insert (λ kv. contains kv.1 (a ∷ agents) ≡ true) c _ d h (agent_at-contains a agents i))

module _ (F : Floats) where
  -- In the state after a call, each of the connectors has a member of the fleet.
  abbrev pub AllAssigned : String → List String → List String → System F → Type 0
  AllAssigned fleet_id connectors agents s =
      (g : Fleet) × (lookup fleet_id s.fleets ≡ some g)
      × ((c : String)
          → contains c connectors ≡ true
          → IsMember agents (lookup c g.connector_assignments))

  assign_to-AllAssigned :
      (fleet_id : String) (req : AssignRequest) (s : System F) (f : Fleet) (a : String)
      (agents : List String)
      → is_strategy (strategy_of req.strategy f.scan_strategy) ≡ true
      → AllAssigned fleet_id req.connector_ids
          (a ∷ agents)
          (assign_to F fleet_id req s f (a ∷ agents)).0
  assign_to-AllAssigned fleet_id req s f a agents known =
      let d = round_robin (a ∷ agents) 0 req.connector_ids [] in
      rw known (
        record f { connector_assignments = update_dict f.connector_assignments d },
        ground (
          arith,
          lookup-insert fleet_id fleet_id
              (record f { connector_assignments = update_dict f.connector_assignments d }) s.fleets,
          eq_refl fleet_id,
        ),
        λ c h.
            update_dict-IsMember a agents c f.connector_assignments d
              (round_robin-All a agents 0 req.connector_ids [] _)
              (inl (round_robin-IsMember a agents c 0 req.connector_ids [] (inl h))),
      )

  -- With one of the three strategies, an assignment in a tenant's own fleet that has members sends
  -- every connector of the request to a member, in the state that it leaves.
  pub assign_connectors_lem :
      (fleet_id : String) (req : AssignRequest) (tenant : String) (s : System F) (f : Fleet)
      (a : String) (agents : List String)
      → own_fleet tenant fleet_id s.fleets ≡ some f
      → f.agent_ids ≡ a ∷ agents
      → is_strategy (strategy_of req.strategy f.scan_strategy) ≡ true
      → AllAssigned fleet_id req.connector_ids
          (a ∷ agents)
          (assign_connectors F fleet_id req tenant s).0
  unfolding assign_connectors
  assign_connectors_lem fleet_id req tenant s f a agents own e known =
      subst (λ o. AllAssigned fleet_id req.connector_ids (a ∷ agents) (on_own F fleet_id req s o).0)
        (sym own)
        (subst
          (λ as'.
            AllAssigned fleet_id req.connector_ids (a ∷ agents)
              (assign_to F fleet_id req s f as').0)
          (sym e) (assign_to-AllAssigned fleet_id req s f a agents known))
