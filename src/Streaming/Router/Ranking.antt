-- ===== src/Streaming/Router/Ranking.antt =====
-- The ranking of the agents.
use dgraphai.Prelude.{◌&&◌}
use dgraphai.Streaming.Router.{ranked_sources, serves}
use dgraphai.Prelude.{Bool-cases, String, inl, inr, map}
use dgraphai.Streaming.Router.{Topology, agents_of, is_candidate, routing_score}
use dgraphai.Prelude.{Bool, List, [], ap, arith, keep, leb, refl, ℕ, ◌∙◌, ◌∷◌, ◌≡◌}
use dgraphai.Streaming.Router.{insert_by, sort_by}

module _ {A : Type 0} (key : A → ℕ) where
  abbrev with_key : A → A × ℕ
  with_key x = (x, key x)

  scored-insert_by :
      (x : A) (ys : List A)
      → insert_by {A = A × ℕ} (λ y. y.1) (with_key x) (map with_key ys)
        ≡ map with_key (insert_by key x ys)
  scored-insert_by x [] = refl
  scored-insert_by x (y ∷ ys) = elim (Bool-cases (leb (key x) (key y))) [
    | inl e ↦ rw e refl
    | inr e ↦ rw e (ap (λ l. with_key y ∷ l) (scored-insert_by x ys))
  ]

  scored-sort_by :
      (xs : List A)
      → sort_by {A = A × ℕ} (λ y. y.1) (map with_key xs) ≡ map with_key (sort_by key xs)
  scored-sort_by [] = refl
  scored-sort_by (x ∷ xs) =
      ap (insert_by {A = A × ℕ} (λ y. y.1) (with_key x)) (scored-sort_by xs)
      ∙ scored-insert_by x (sort_by key xs)

keep_same :
    {A : Type 0} (p q : A → Bool) (xs : List A) → ((x : A) → p x ≡ q x) → keep p xs ≡ keep q xs
keep_same p q [] h = refl
keep_same p q (x ∷ xs) h = ground (arith, h x, keep_same p q xs h)

-- The ranking is the candidates that select_source sorts when no agent is excluded, in the same
-- order and with their scores.
pub ranked_sources_lem :
    (ratio : ℕ → ℕ → ℕ) (connector_ids : List String) (region : String) (agents : Topology)
    → ranked_sources ratio connector_ids region agents
      ≡ map
          (λ t. (t, routing_score ratio region t))
          (sort_by
            (routing_score ratio region)
            (keep (is_candidate connector_ids []) (agents_of agents)))
unfolding ranked_sources
ranked_sources_lem ratio connector_ids region agents =
    let key = routing_score ratio region in
    scored-sort_by key (keep (λ t. t.is_online && serves connector_ids t) (agents_of agents))
    ∙ ap (λ l. map (with_key key) (sort_by key l))
        (keep_same (λ t. t.is_online && serves connector_ids t) (is_candidate connector_ids [])
          (agents_of agents) (λ t. ground arith))
