-- ===== src/Fleet/Lists.antt =====
-- Lemmas on the dictionaries and on the end of a list.
use dgraphai.Fleet.Model.{drop, remove_key}
use dgraphai.Prelude.{
  All, List, String, [], arith, eq_iff, false, if◌then◌else◌, length, refl, str_eq, suc, true, zero,
  ℕ, ◌-◌, ◌∷◌, ◌≡◌, ◌≢◌,
}
use dgraphai.Prelude.Dict.{insert, lookup}

pub length-drop {ℓ} : {A : Type ℓ} (n : ℕ) (xs : List A) → length (drop n xs) ≡ length xs - n
length-drop zero xs = omega arith
length-drop (suc n) [] = omega arith
length-drop (suc n) (x ∷ xs) = omega (arith, length-drop n xs)

pub All-insert {ℓ} :
    {A : Type ℓ} (P : String × A → Type 0) (k : String) (v : A) (d : List (String × A))
    → All P d
    → P (k, v)
    → All P (insert k v d)
All-insert P k v [] h p = (p, _)
All-insert P k v ((j, w) ∷ d) h p =
    elim (str_eq k j) as (λ b. All P (if b then (k, v) ∷ d else (j, w) ∷ insert k v d)) [
      | true ↦ (p, h.1)
      | false ↦ (h.0, All-insert P k v d h.1 p)
    ]

pub All-remove_key {ℓ} :
    {A : Type ℓ} (P : String × A → Type 0) (k : String) (d : List (String × A))
    → All P d
    → All P (remove_key k d)
All-remove_key P k [] h = _
All-remove_key P k ((j, w) ∷ d) h =
    elim (str_eq k j) as (λ b. All P (if b then d else (j, w) ∷ remove_key k d)) [
      | true ↦ h.1
      | false ↦ (h.0, All-remove_key P k d h.1)
    ]

pub lookup-remove_key {ℓ} :
    {A : Type ℓ} (k j : String) (d : List (String × A))
    → k ≢ j
    → lookup j (remove_key k d) ≡ lookup j d
lookup-remove_key k j [] h = refl
lookup-remove_key k j ((i, w) ∷ d) h =
    ground (arith, eq_iff k i, eq_iff j i, lookup-remove_key k j d h)
