-- ===== src/Fleet/Calls.antt =====
-- The calls of tenants in any order, what they keep within bounds, and whose fleets they change.
use dgraphai.Fleet.Lists.{All-insert, All-remove_key, length-drop, lookup-remove_key}
use dgraphai.Fleet.Model.{list_or_empty}
use dgraphai.Prelude.{◌++◌}
use dgraphai.Fleet.Model.{owned_by}
use dgraphai.Prelude.{sym, ◌∙◌}
use dgraphai.Prelude.{Option-cases, inl, inr}
use dgraphai.Fleet.Assign.{assign_to}
use dgraphai.Fleet.Model.{Fleet, own_fleet}
use dgraphai.Fleet.Store.{last_100}
use dgraphai.Prelude.{Option, some}
use dgraphai.Fleet.Assign.{AssignRequest, assign_connectors}
use dgraphai.Fleet.Model.{Entry, Floats, System, remove_key}
use dgraphai.Fleet.Store.{
  CreateFleetRequest, UpdateFleetRequest, create_fleet, delete_fleet, submit_telemetry,
  update_fleet,
}
use dgraphai.Prelude.{
  All, List, String, [], arith, eq_iff, length, none, refl, ℕ, ◌-◌, ◌∷◌, ◌≡◌, ◌≢◌, ◌≤◌,
}
use dgraphai.Prelude.Dict.{insert, lookup, lookup-insert}

-- A call of a tenant that changes the dictionaries, or is refused. A new identifier is unused.
pub data Step (F : Floats) (tenant : String) : System F → System F → Type 0 where
  created :
      (id : String) (now : ℕ) (req : CreateFleetRequest) (s : System F)
      → lookup id s.fleets ≡ none
      → Step F tenant s (create_fleet F id now req tenant s).0
  changed :
      (id : String) (body : UpdateFleetRequest) (s : System F)
      → Step F tenant s (update_fleet F id body tenant s).0
  deleted : (id : String) (s : System F) → Step F tenant s (delete_fleet F id tenant s).0
  submitted :
      (id : String) (entry : Entry F) (s : System F)
      → Step F tenant s (submit_telemetry F id entry tenant s).0
  assigned :
      (id : String) (req : AssignRequest) (s : System F)
      → Step F tenant s (assign_connectors F id req tenant s).0

-- The calls of all tenants, from the empty dictionaries.
pub data Reach (F : Floats) : System F → Type 0 where
  start : Reach F (record { fleets = []; telemetry = [] })
  next : (tenant : String) (s s' : System F) → Reach F s → Step F tenant s s' → Reach F s'

-- The calls of all tenants but one.
pub data Others (F : Floats) (tenant : String) : System F → System F → Type 0 where
  none_yet : (s : System F) → Others F tenant s s
  then_by :
      (other : String) (s s' s'' : System F)
      → Others F tenant s s'
      → other ≢ tenant
      → Step F other s' s''
      → Others F tenant s s''

-- No fleet has more than 100 entries of telemetry.
abbrev pub IsBounded : {F : Floats} → System F → Type 0
IsBounded s = All (λ e. length e.1 ≤ 100) s.telemetry

length-last_100 : (F : Floats) (xs : List (Entry F)) → length (last_100 F xs) ≤ 100
length-last_100 F xs = omega (arith, length-drop (length xs - 100) xs)

module _ (F : Floats) where
  assign-telemetry :
      (id : String) (req : AssignRequest) (s : System F) (f : Fleet) (agents : List String)
      → (assign_to F id req s f agents).0.telemetry ≡ s.telemetry
  assign-telemetry id req s f [] = refl
  assign-telemetry id req s f (a ∷ agents) = refl

  inserted :
      (id k : String) (g : Fleet) (fleets : List (String × Fleet)) (f : Fleet)
      → k ≢ id
      → lookup k fleets ≡ some f
      → lookup k (insert id g fleets) ≡ some f
  inserted id k g fleets f d e = ground (arith, lookup-insert id k g fleets, eq_iff k id)

  new_key :
      (id k : String) (fleets : List (String × Fleet)) (f : Fleet)
      → lookup id fleets ≡ none
      → lookup k fleets ≡ some f
      → k ≢ id
  new_key id k fleets f free e h = absurd cc

  removed :
      (id k : String) (fleets : List (String × Fleet)) (f : Fleet)
      → k ≢ id
      → lookup k fleets ≡ some f
      → lookup k (remove_key id fleets) ≡ some f
  removed id k fleets f d e = lookup-remove_key id k fleets (λ h. d (sym h)) ∙ e

  assign-foreign :
      (id : String) (req : AssignRequest) (s : System F) (g : Fleet) (agents : List String)
      (k : String) (f : Fleet)
      → k ≢ id
      → lookup k s.fleets ≡ some f
      → lookup k (assign_to F id req s g agents).0.fleets ≡ some f
  assign-foreign id req s g [] k f d e = e
  assign-foreign id req s g (a ∷ agents) k f d e = inserted id k _ s.fleets f d e

  own_key :
      (tenant id k : String) (fleets : List (String × Fleet)) (f g : Fleet) (o : Option Fleet)
      → f.tenant_id ≢ tenant
      → lookup k fleets ≡ some f
      → lookup id fleets ≡ o
      → owned_by tenant o ≡ some g
      → k ≢ id
  own_key tenant id k fleets f g none d e l own = ground arith
  own_key tenant id k fleets f g (some x) d e l own = ground (arith, eq_iff x.tenant_id tenant)

  step-IsBounded :
      {tenant : String} {s s' : System F} → IsBounded s → Step F tenant s s' → IsBounded s'
  unfolding create_fleet update_fleet delete_fleet submit_telemetry assign_connectors
  step-IsBounded {tenant} h (created id now req s free) =
      All-insert (λ e. length e.1 ≤ 100) id [] s.telemetry h (omega arith)
  step-IsBounded {tenant} h (changed id body s) =
      elim (Option-cases (own_fleet tenant id s.fleets)) [
        | inl e ↦ rw (update_fleet, e) h
        | inr (f, e) ↦ rw (update_fleet, e) h
      ]
  step-IsBounded {tenant} h (deleted id s) = elim (Option-cases (own_fleet tenant id s.fleets)) [
    | inl e ↦ rw (delete_fleet, e) h
    | inr (f, e) ↦ rw (delete_fleet, e) (All-remove_key (λ e. length e.1 ≤ 100) id s.telemetry h)
  ]
  step-IsBounded {tenant} h (submitted id entry s) =
      elim (Option-cases (own_fleet tenant id s.fleets)) [
        | inl e ↦ rw (submit_telemetry, e) h
        | inr (f, e) ↦
            rw (submit_telemetry, e)
              (All-insert (λ e. length e.1 ≤ 100) id _ s.telemetry h
                (length-last_100 F (list_or_empty (lookup id s.telemetry) ++ entry ∷ [])))
      ]
  step-IsBounded {tenant} h (assigned id req s) =
      elim (Option-cases (own_fleet tenant id s.fleets)) [
        | inl e ↦ rw (assign_connectors, e) h
        | inr (f, e) ↦ rw (assign_connectors, e, assign-telemetry id req s f f.agent_ids) h
      ]

  -- Whatever calls of whatever tenants come in whatever order, no fleet has more than 100 entries of
  -- telemetry.
  pub telemetry-IsBounded : {s : System F} → Reach F s → IsBounded s
  telemetry-IsBounded start = _
  telemetry-IsBounded (next tenant s s' r step) = step-IsBounded (telemetry-IsBounded r) step

  other_key :
      (tenant id k : String) (fleets : List (String × Fleet)) (f g : Fleet)
      → f.tenant_id ≢ tenant
      → lookup k fleets ≡ some f
      → own_fleet tenant id fleets ≡ some g
      → k ≢ id
  other_key tenant id k fleets f g d e own =
      own_key tenant id k fleets f g (lookup id fleets) d e refl own

  -- A fleet of another tenant after one call.
  step-foreign :
      {tenant : String} {s s' : System F} (k : String) (f : Fleet)
      → f.tenant_id ≢ tenant
      → lookup k s.fleets ≡ some f
      → Step F tenant s s'
      → lookup k s'.fleets ≡ some f
  unfolding create_fleet update_fleet delete_fleet submit_telemetry assign_connectors
  step-foreign {tenant} k f d e (created id now req s free) =
      inserted id k _ s.fleets f (new_key id k s.fleets f free e) e
  step-foreign {tenant} k f d e (changed id body s) =
      elim (Option-cases (own_fleet tenant id s.fleets)) [
        | inl w ↦ rw (update_fleet, w) e
        | inr (g, w) ↦
            rw (update_fleet, w)
              (inserted id k _ s.fleets f (other_key tenant id k s.fleets f g d e w) e)
      ]
  step-foreign {tenant} k f d e (deleted id s) =
      elim (Option-cases (own_fleet tenant id s.fleets)) [
        | inl w ↦ rw (delete_fleet, w) e
        | inr (g, w) ↦
            rw (delete_fleet, w)
              (removed id k s.fleets f (other_key tenant id k s.fleets f g d e w) e)
      ]
  step-foreign {tenant} k f d e (submitted id entry s) =
      elim (Option-cases (own_fleet tenant id s.fleets)) [
        | inl w ↦ rw (submit_telemetry, w) e
        | inr (g, w) ↦ rw (submit_telemetry, w) e
      ]
  step-foreign {tenant} k f d e (assigned id req s) =
      elim (Option-cases (own_fleet tenant id s.fleets)) [
        | inl w ↦ rw (assign_connectors, w) e
        | inr (g, w) ↦
            rw (assign_connectors, w)
              (assign-foreign id req s g g.agent_ids k f (other_key tenant id k s.fleets f g d e w)
                e)
      ]

  -- A fleet is as its tenant left it after any calls of the other tenants, in any order: the same
  -- members, assignments and settings, under the same identifier.
  pub foreign_kept :
      {tenant : String} {s s' : System F} (k : String) (f : Fleet)
      → f.tenant_id ≡ tenant
      → lookup k s.fleets ≡ some f
      → Others F tenant s s'
      → lookup k s'.fleets ≡ some f
  foreign_kept k f own e (none_yet s) = e
  foreign_kept k f own e (then_by other s s' s'' r d step) =
      step-foreign k f (ground arith) (foreign_kept k f own e r) step
