-- ===== src/Fleet/Model.antt =====
-- The rows and the two dictionaries of fleets, and what their handlers answer. Floats, which probes
-- measure, are a parameter. The host, the system and the version of an agent, and its counter of
-- files, are left out, and so is the time at which telemetry came.
use dgraphai.Prelude.{
  Bool, List, Option, String, [], if◌then◌else◌, none, some, str_eq, suc, zero, ℕ, ◌∷◌,
}
use dgraphai.Prelude.Dict.{lookup}

-- Python's floats, with whole numbers among them, and their order.
pub record Floats : Type 1 where
  pub N : Type 0
  pub number : ℕ → N
  pub lt : N → N → Bool

pub record Fleet : Type 0 where
  pub id : String
  pub name : String
  pub description : String
  pub tenant_id : String
  pub created_at : ℕ
  pub scan_strategy : String
  pub agent_ids : List String
  pub connector_assignments : List (String × String)

pub record ScannerAgent : Type 0 where
  pub id : String
  pub tenant_id : String
  pub name : String
  pub last_seen_at : Option ℕ

-- a probe's result, where a key may be missing
pub record Probe (F : Floats) : Type 0 where
  pub peer_agent_id : Option String
  pub reachable : Bool
  pub latency_ms : Option F.N
  pub bandwidth_mbps : Option F.N

pub record Entry (F : Floats) : Type 0 where
  pub from_agent : String
  pub probes : List (Probe F)

-- `_FLEETS` and `_TELEMETRY`
pub record System (F : Floats) : Type 0 where
  pub fleets : List (String × Fleet)
  pub telemetry : List (String × List (Entry F))

pub data Answer {ℓ} (A : Type ℓ) : Type ℓ where
  answered : A → Answer A
  refused : ℕ → String → Answer A

abbrev pub fleet_not_found {ℓ} : {A : Type ℓ} → Answer A
fleet_not_found = refused 404 "Fleet not found"

-- `fleet and fleet["tenant_id"] == tenant`
abbrev pub owned_by : String → Option Fleet → Option Fleet
owned_by tenant none = none
owned_by tenant (some f) = if str_eq f.tenant_id tenant then some f else none

abbrev pub own_fleet : String → String → List (String × Fleet) → Option Fleet
own_fleet tenant fleet_id fleets = owned_by tenant (lookup fleet_id fleets)

-- `d.pop(k, None)`
abbrev pub remove_key {ℓ} : {A : Type ℓ} → String → List (String × A) → List (String × A)
remove_key k [] = []
remove_key k ((j, v) ∷ d) = let rest = remove_key k d in if str_eq k j then d else (j, v) ∷ rest

abbrev pub list_or_empty {ℓ} : {A : Type ℓ} → Option (List A) → List A
list_or_empty none = []
list_or_empty (some xs) = xs

abbrev pub drop {ℓ} : {A : Type ℓ} → ℕ → List A → List A
drop zero xs = xs
drop (suc n) [] = []
drop (suc n) (x ∷ xs) = drop n xs

abbrev pub value_or {ℓ} : {A : Type ℓ} → Option A → A → A
value_or none d = d
value_or (some a) d = a
