-- ===== src/Privacy/Tests.antt =====
-- Runs of the erasure at concrete inputs.
use dgraphai.Prelude.{Option, String, [], ap, arith, false, min, some, true, ℕ, ◌-◌, ◌∷◌, ◌≡◌, ◌⊎◌}
use dgraphai.Privacy.Erasure.{Backend, erase_graph_data, finished, has_row}
use dgraphai.Privacy.Erasure.GraphLoop.{Counts, Ended, Progresses, erase_graph_data_returns}
use dgraphai.Tenancy.Model.{Tenant}

-- a graph is its number of nodes
abbrev counter : String → ℕ → Option (ℕ × ℕ)
counter tenant g = some (min 10000 g, g - min 10000 g)

abbrev backend : Backend
backend = record { Graph = ℕ; query = counter }

abbrev acme : Tenant
acme = record { id = "acme"; slug = "acme"; name = "Acme"; plan = "starter"; is_active = true }

some_same : {a b : ℕ × ℕ} → some a ≡ some b → a ≡ b
some_same e = cc

backend-Counts : Counts backend "acme" (λ n. n)
backend-Counts n g g' e =
    let f = some_same e in
    let deleted : min 10000 g ≡ n = ap (λ x. x.0) f in
    let left : g - min 10000 g ≡ g' = ap (λ x. x.1) f in omega (arith, deleted, left)

backend-Progresses : Progresses backend "acme" (λ n. n)
backend-Progresses g g' e =
    let f = some_same e in
    let deleted : min 10000 g ≡ 0 = ap (λ x. x.0) f in
    let left : g - min 10000 g ≡ g' = ap (λ x. x.1) f in omega (arith, deleted, left)

erase_graph_data_returns_example :
    ((has_row "acme" (acme ∷ []) ≡ true)
      × Ended {G = ℕ} (λ n. n) (erase_graph_data backend (acme ∷ []) "acme" 25001 25000))
    ⊎ ((has_row "acme" (acme ∷ []) ≡ false)
        × (erase_graph_data backend (acme ∷ []) "acme" 25001 25000 ≡ finished 25000))
erase_graph_data_returns_example =
    erase_graph_data_returns backend "acme" (λ n. n) backend-Counts backend-Progresses 25001 25000
      (acme ∷ []) (omega arith)
