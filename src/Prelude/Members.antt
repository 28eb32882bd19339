-- ===== src/Prelude/Members.antt =====
-- Membership in a list, and what the list functions of the models do to it.
use mathlib.Core.Path.{◌≡◌, refl, sym, ap, subst}
use mathlib.Core.Logic.{◌↔◌, ◌⊎◌, inl, inr}
use mathlib.Core.Bool.{Bool, true, false}
use mathlib.Core.List.{List, [], ◌∷◌, ◌++◌, map}
use native.Mathlib.Omega.{arith}
use Prim.Native.String.{String}
use text.Mathlib.TextEquality.{eq_iff}
use dgraphai.Prelude.Dict.{contains}
use dgraphai.Prelude.Lists.{any, keep}
use dgraphai.Prelude.Tests.{Bool-cases}

abbrev pub IsIn : {A : Type 0} → A → List A → Type 0
IsIn t [] = ⊥
IsIn t (x ∷ xs) = (t ≡ x) ⊎ IsIn t xs

module _ {A : Type 0} where
  pub any-IsIn : (p : A → Bool) (xs : List A) → any p xs ≡ true → (x : A) × IsIn x xs × (p x ≡ true)
  any-IsIn p [] e = absurd cc
  any-IsIn p (x ∷ xs) e = elim (Bool-cases (p x)) [
    | inl hit ↦ (x, inl refl, hit)
    | inr miss ↦ let (y, m, h) = any-IsIn p xs (ground (arith, e, miss)) in (y, inr m, h)
  ]

  pub IsIn-any : (p : A → Bool) (x : A) (xs : List A) → IsIn x xs → p x ≡ true → any p xs ≡ true
  IsIn-any p x [] m h = elim m [ ]
  IsIn-any p x (y ∷ ys) (inl e) h =
      let k : p y ≡ true = subst (λ z. p z ≡ true) e h in ground (arith, k)
  IsIn-any p x (y ∷ ys) (inr m) h = ground (arith, IsIn-any p x ys m h)

  pub append-IsIn : (x : A) (xs ys : List A) → IsIn x (xs ++ ys) → IsIn x xs ⊎ IsIn x ys
  append-IsIn x [] ys m = inr m
  append-IsIn x (y ∷ xs) ys (inl e) = inl (inl e)
  append-IsIn x (y ∷ xs) ys (inr m) = elim (append-IsIn x xs ys m) [
    | inl k ↦ inl (inr k)
    | inr k ↦ inr k
  ]

  pub IsIn-append_left : (x : A) (xs ys : List A) → IsIn x xs → IsIn x (xs ++ ys)
  IsIn-append_left x [] ys m = elim m [ ]
  IsIn-append_left x (y ∷ xs) ys (inl e) = inl e
  IsIn-append_left x (y ∷ xs) ys (inr m) = inr (IsIn-append_left x xs ys m)

  pub IsIn-append_right : (x : A) (xs ys : List A) → IsIn x ys → IsIn x (xs ++ ys)
  IsIn-append_right x [] ys m = m
  IsIn-append_right x (y ∷ xs) ys m = inr (IsIn-append_right x xs ys m)

  keep_yes : (p : A → Bool) (x : A) (xs : List A) → p x ≡ true → keep p (x ∷ xs) ≡ x ∷ keep p xs
  keep_yes p x xs e = ground (arith, e)

  keep_no : (p : A → Bool) (x : A) (xs : List A) → p x ≡ false → keep p (x ∷ xs) ≡ keep p xs
  keep_no p x xs e = ground (arith, e)

  pub keep-IsIn :
      (p : A → Bool) (x : A) (xs : List A) → IsIn x (keep p xs) → IsIn x xs × (p x ≡ true)
  keep-IsIn p x [] m = elim m [ ]
  keep-IsIn p x (y ∷ ys) m = elim (Bool-cases (p y)) [
    | inl hit ↦ elim (subst (IsIn x) (keep_yes p y ys hit) m) [
      | inl e ↦ (inl e, subst (λ z. p z ≡ true) (sym e) hit)
      | inr k ↦ let (a, b) = keep-IsIn p x ys k in (inr a, b)
    ]
    | inr miss ↦
        let (a, b) = keep-IsIn p x ys (subst (IsIn x) (keep_no p y ys miss) m) in (inr a, b)
  ]

  pub IsIn-keep : (p : A → Bool) (x : A) (xs : List A) → IsIn x xs → p x ≡ true → IsIn x (keep p xs)
  IsIn-keep p x [] m h = elim m [ ]
  IsIn-keep p x (y ∷ ys) (inl e) h =
      subst (IsIn x) (sym (keep_yes p y ys (subst (λ z. p z ≡ true) e h))) (inl e)
  IsIn-keep p x (y ∷ ys) (inr m) h = elim (Bool-cases (p y)) [
    | inl hit ↦ subst (IsIn x) (sym (keep_yes p y ys hit)) (inr (IsIn-keep p x ys m h))
    | inr miss ↦ subst (IsIn x) (sym (keep_no p y ys miss)) (IsIn-keep p x ys m h)
  ]

  pub map-IsIn :
      {B : Type 0} (f : A → B) (y : B) (xs : List A)
      → IsIn y (map f xs)
      → (x : A) × IsIn x xs × (y ≡ f x)
  map-IsIn f y [] m = elim m [ ]
  map-IsIn f y (x ∷ xs) (inl e) = (x, inl refl, e)
  map-IsIn f y (x ∷ xs) (inr m) = let (z, k, e) = map-IsIn f y xs m in (z, inr k, e)

  pub IsIn-map : {B : Type 0} (f : A → B) (x : A) (xs : List A) → IsIn x xs → IsIn (f x) (map f xs)
  IsIn-map f x [] m = elim m [ ]
  IsIn-map f x (y ∷ ys) (inl e) = inl (ap f e)
  IsIn-map f x (y ∷ ys) (inr m) = inr (IsIn-map f x ys m)

pub contains-IsIn : (k : String) (xs : List String) → (contains k xs ≡ true) ↔ IsIn k xs
contains-IsIn k [] = (λ e. absurd cc, λ m. elim m [ ])
contains-IsIn k (x ∷ xs) = ground (arith, eq_iff k x, contains-IsIn k xs)
