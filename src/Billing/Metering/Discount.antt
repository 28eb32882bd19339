-- ===== src/Billing/Metering/Discount.antt =====
-- Which discount a number of nodes gets, and how a bill depends on the usage.
use dgraphai.Prelude.{Bool-cases, leb, leb→le}
use dgraphai.Billing.Metering.{
  BillingPlan, first_reached, insert_reverse, sorted_reverse, volume_discount_pct,
}
use dgraphai.Prelude.{All, List, [], arith, inl, inr, refl, ℕ, ◌<◌, ◌∷◌, ◌≡◌, ◌≤◌, ◌⊎◌}

abbrev pub Elem : ℕ × ℕ → List (ℕ × ℕ) → Type 0
Elem x [] = ⊥
Elem x (y ∷ ys) = (x ≡ y) ⊎ Elem x ys

-- thresholds do not grow
abbrev Descending : List (ℕ × ℕ) → Type 0
Descending [] = Unit
Descending (x ∷ xs) = All (λ y. y.0 ≤ x.0) xs × Descending xs

All-insert :
    (P : ℕ × ℕ → Type 0) (x : ℕ × ℕ) (ys : List (ℕ × ℕ))
    → P x
    → All P ys
    → All P (insert_reverse x ys)
All-insert P x [] p h = (p, tt)
All-insert P x (y ∷ ys) p h = ground (arith, All-insert P x ys p h.1)

All-map :
    (P Q : ℕ × ℕ → Type 0) (xs : List (ℕ × ℕ)) → ((x : ℕ × ℕ) → P x → Q x) → All P xs → All Q xs
All-map P Q [] f h = tt
All-map P Q (x ∷ xs) f h = (f x h.0, All-map P Q xs f h.1)

insert-All :
    (P : ℕ × ℕ → Type 0) (x : ℕ × ℕ) (ys : List (ℕ × ℕ))
    → All P (insert_reverse x ys)
    → P x × All P ys
insert-All P x [] h = h
insert-All P x (y ∷ ys) h = ground (arith, insert-All P x ys)

insert-Elem : (z x : ℕ × ℕ) (ys : List (ℕ × ℕ)) → Elem z (insert_reverse x ys) → Elem z (x ∷ ys)
insert-Elem z x [] h = h
insert-Elem z x (y ∷ ys) h = ground (arith, insert-Elem z x ys)

insert-Descending :
    (x : ℕ × ℕ) (ys : List (ℕ × ℕ)) → Descending ys → Descending (insert_reverse x ys)
insert-Descending x [] h = (tt, tt)
insert-Descending (t, d) ((u, e) ∷ ys) h = ground (
  arith,
  All-map (λ y. y.0 ≤ u) (λ y. y.0 ≤ t) ys,
  All-insert (λ y. y.0 ≤ u) (t, d) ys,
  insert-Descending (t, d) ys h.1,
)

sorted-Descending : (xs : List (ℕ × ℕ)) → Descending (sorted_reverse xs)
sorted-Descending [] = tt
sorted-Descending (x ∷ xs) = insert-Descending x (sorted_reverse xs) (sorted-Descending xs)

sorted-All : (P : ℕ × ℕ → Type 0) (xs : List (ℕ × ℕ)) → All P (sorted_reverse xs) → All P xs
sorted-All P [] h = tt
sorted-All P (x ∷ xs) h = let r = insert-All P x (sorted_reverse xs) h in (r.0, sorted-All P xs r.1)

sorted-Elem : (z : ℕ × ℕ) (xs : List (ℕ × ℕ)) → Elem z (sorted_reverse xs) → Elem z xs
sorted-Elem z [] h = h
sorted-Elem z (x ∷ xs) h = elim (insert-Elem z x (sorted_reverse xs) h) [
  | inl e ↦ inl e
  | inr m ↦ inr (sorted-Elem z xs m)
]

-- The discount of the tiers for a number of nodes: no threshold is reached and it is zero, or it is
-- the discount of a tier whose threshold is reached and is the greatest such threshold.
abbrev pub IsDiscount : List (ℕ × ℕ) → ℕ → ℕ → Type 0
IsDiscount tiers n pct =
    (All (λ y. n < y.0) tiers × (pct ≡ 0))
    ⊎ ((x : ℕ × ℕ) × Elem x tiers × (x.0 ≤ n) × (pct ≡ x.1) × All (λ y. y.0 ≤ n → y.0 ≤ x.0) tiers)

first_reached-IsDiscount :
    (n : ℕ) (xs : List (ℕ × ℕ)) → Descending xs → IsDiscount xs n (first_reached n xs)
first_reached-IsDiscount n [] h = inl (tt, refl)
first_reached-IsDiscount n ((t, d) ∷ xs) h = elim (Bool-cases (leb t n)) [
  | inl le ↦ rw le (
      inr (
        (t, d),
        inl refl,
        leb→le t n le,
        refl,
        ((λ k. omega arith), All-map (λ y. y.0 ≤ t) (λ y. y.0 ≤ n → y.0 ≤ t) xs (λ x a b. a) h.0),
      ))
  | inr gt ↦ rw gt (elim (first_reached-IsDiscount n xs h.1) [
    | inl r ↦ inl ((ground arith, r.0), r.1)
    | inr (x, m, le, e, greatest) ↦ inr (x, inr m, le, e, (ground arith, greatest))
  ])
]

-- Whatever order a plan lists its tiers in, the percentage is zero below all thresholds, and
-- otherwise the discount of a tier with the greatest threshold that the number of nodes reaches.
pub volume_discount_pct_lem :
    (plan : BillingPlan) (n : ℕ)
    → IsDiscount plan.volume_discount_tiers n (volume_discount_pct plan n)
unfolding volume_discount_pct
volume_discount_pct_lem plan n =
    let xs = plan.volume_discount_tiers in
    elim (first_reached-IsDiscount n (sorted_reverse xs) (sorted-Descending xs)) [
      | inl h ↦ inl (sorted-All (λ y. n < y.0) xs h.0, h.1)
      | inr (x, m, le, e, greatest) ↦
          inr (x, sorted-Elem x xs m, le, e, sorted-All (λ y. y.0 ≤ n → y.0 ≤ x.0) xs greatest)
    ]
