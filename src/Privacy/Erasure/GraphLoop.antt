-- ===== src/Privacy/Erasure/GraphLoop.antt =====
-- The loop over the batches of a graph.
use dgraphai.Prelude.{
  Bool-cases, List, Option, String, arith, false, inl, inr, none, refl, some, suc, true, zero, ℕ,
  ◌+◌, ◌<◌, ◌≡◌, ◌⊎◌,
}
use dgraphai.Privacy.Erasure.{
  Backend, GraphRun, erase_graph_data, erase_loop, failed, finished, has_row, on_deleted,
  out_of_fuel,
}
use dgraphai.Tenancy.Model.{Tenant}

-- How the loop ends: with no node of the tenant left, or by a failure of the database.
abbrev pub Ended : {G : Type 0} → (G → ℕ) → GraphRun G → Type 0
Ended size (finished g) = size g ≡ 0
Ended size failed = Unit
Ended size out_of_fuel = ⊥

module _ (b : Backend) (tenant : String) (size : b.Graph → ℕ) where
  -- The answer is the number of nodes that are gone.
  abbrev pub Counts : Type 0
  Counts = (n : ℕ) (g g' : b.Graph) → b.query tenant g ≡ some (n, g') → size g' + n ≡ size g

  -- Nothing is deleted only when nothing is left.
  abbrev pub Progresses : Type 0
  Progresses = (g g' : b.Graph) → b.query tenant g ≡ some (0, g') → size g' ≡ 0

  on_deleted-Ended :
      (fuel : ℕ) (g : b.Graph) (o : Option (ℕ × b.Graph))
      → b.query tenant g ≡ o
      → Counts
      → Progresses
      → ((g' : b.Graph) → size g' < fuel → Ended size (erase_loop b tenant fuel g'))
      → size g < suc fuel
      → Ended size (on_deleted b o (erase_loop b tenant fuel))
  on_deleted-Ended fuel g none e counts progresses rest h = _
  on_deleted-Ended fuel g (some (zero, g')) e counts progresses rest h = progresses g g' e
  on_deleted-Ended fuel g (some (suc n, g')) e counts progresses rest h =
      rest g' (omega (arith, counts (suc n) g g' e))

  erase_loop-Ended :
      Counts
      → Progresses
      → (fuel : ℕ) (g : b.Graph) → size g < fuel
      → Ended size (erase_loop b tenant fuel g)
  erase_loop-Ended counts progresses zero g h = absurd (omega arith)
  erase_loop-Ended counts progresses (suc fuel) g h =
      on_deleted-Ended fuel g (b.query tenant g) refl counts progresses
        (erase_loop-Ended counts progresses fuel) h

  -- The function returns: when a query answers the number of nodes that it deletes, and deletes some
  -- as long as there are any, then rounds for the number of nodes and one more are enough. Where the
  -- tenant has a row, no node of it is left unless the database fails; where it has none, the graph is
  -- what it was.
  pub erase_graph_data_returns :
      Counts
      → Progresses
      → (fuel : ℕ) (g : b.Graph) (tenants : List Tenant) → size g < fuel
      → ((has_row tenant tenants ≡ true) × Ended size (erase_graph_data b tenants tenant fuel g))
        ⊎ ((has_row tenant tenants ≡ false)
            × (erase_graph_data b tenants tenant fuel g ≡ finished g))
  unfolding erase_graph_data
  erase_graph_data_returns counts progresses fuel g tenants h =
      elim (Bool-cases (has_row tenant tenants)) [
        | inl row ↦ inl (row, rw row (erase_loop-Ended counts progresses fuel g h))
        | inr no_row ↦ inr (no_row, rw no_row refl)
      ]
