-- ===== src/Scanners/Rotation.antt =====
-- The rotation of a scanner's key.
use dgraphai.Prelude.{ap, subst, sym, ◌∙◌}
use dgraphai.Auth.Login.{given}
use dgraphai.Prelude.{
  All, Bool, List, String, [], arith, eq_iff, eq_refl, false, if◌then◌else◌, inl, inr, keep, map,
  refl, some, str_eq, true, update_where, ℕ, ◌∷◌, ◌≡◌, ◌≢◌, ◌⊎◌,
}
use dgraphai.Scanners.Handlers.{
  Scanner, State, get_scanner, has_key, on_scanner, rotate_key, seen, set_key, set_row, with_id,
}
use dgraphai.Auth.Model.{Reply, get_db, http_exception}
use dgraphai.Rbac.Assign.{one_or_none}

-- A row with the new key, seen now.
abbrev pub rotated : (String → String) → ℕ → String → Scanner → Scanner
rotated hash now raw_key x = set_key hash raw_key (seen now x)

update_twice :
    (hash : String → String) (now : ℕ) (id raw_key : String) (xs : List Scanner)
    → update_where (with_id id) (set_key hash raw_key) (update_where (with_id id) (seen now) xs)
      ≡ update_where (with_id id) (rotated hash now raw_key) xs
update_twice hash now id raw_key [] = refl
update_twice hash now id raw_key (x ∷ xs) = ground (arith, update_twice hash now id raw_key xs)

-- The rows that match a key are those of one scanner.
abbrev OnlyOf : String → String → Scanner → Type 0
OnlyOf h id x = (has_key h x ≡ false) ⊎ (x.id ≡ id)

keep-OnlyOf :
    (h id : String) (xs : List Scanner)
    → All (λ x. x.id ≡ id) (keep (has_key h) xs)
    → All (OnlyOf h id) xs
keep-OnlyOf h id [] own = _
keep-OnlyOf h id (x ∷ xs) own = one-OnlyOf h id x xs (has_key h x) refl own (keep-OnlyOf h id xs)
  where
    one-OnlyOf :
        (h id : String) (x : Scanner) (xs : List Scanner) (b : Bool)
        → has_key h x ≡ b
        → All (λ x. x.id ≡ id) (if b then x ∷ keep (has_key h) xs else keep (has_key h) xs)
        → (All (λ x. x.id ≡ id) (keep (has_key h) xs) → All (OnlyOf h id) xs)
        → All (OnlyOf h id) (x ∷ xs)
    one-OnlyOf h id x xs true e own rest = (inr own.0, rest own.1)
    one-OnlyOf h id x xs false e own rest = (inl e, rest own)

module _ (hash : String → String) (now : ℕ) (id raw_key : String) where
  old_gone :
      (h : String) (xs : List Scanner)
      → h ≢ hash raw_key
      → All (OnlyOf h id) xs
      → keep (has_key h) (update_where (with_id id) (rotated hash now raw_key) xs) ≡ []
  old_gone h [] d own = refl
  old_gone h (x ∷ xs) d own = elim own.0 [
    | inl miss ↦
        ground (arith, eq_iff h (hash raw_key), eq_iff (hash raw_key) h, old_gone h xs d own.1)
    | inr same ↦ ground (
      arith,
      eq_iff x.id id,
      eq_iff h (hash raw_key),
      eq_iff (hash raw_key) h,
      old_gone h xs d own.1,
    )
  ]

  new_found :
      (xs : List Scanner)
      → All (λ x. x.api_key_hash ≢ hash raw_key) xs
      → keep (has_key (hash raw_key)) (update_where (with_id id) (rotated hash now raw_key) xs)
        ≡ keep (λ x. x.is_active) (map (rotated hash now raw_key) (keep (with_id id) xs))
  new_found [] new = refl
  new_found (x ∷ xs) new =
      ground
        (arith, eq_iff x.api_key_hash (hash raw_key), eq_refl (hash raw_key), new_found xs new.1)

reached :
    (hash : String → String) (now : ℕ) (key : String) (rest : Scanner → State → State × Reply)
    (s : State) (xs : List Scanner)
    → str_eq key "" ≡ false
    → keep (has_key (hash key)) s.scanners ≡ xs
    → get_scanner hash now (some key) rest s
      ≡ get_db s (on_scanner hash now rest s (one_or_none xs))
unfolding get_scanner
reached hash now key rest s xs given found = rw (given, found) refl

-- The rows after the rotation.
abbrev pub after_rotation : (String → String) → ℕ → String → String → State → State
after_rotation hash now id raw_key s = record s {
  scanners = update_where (with_id id) (rotated hash now raw_key) s.scanners;
}

rotate_state :
    (hash : String → String) (now : ℕ) (key raw_key : String) (s : State) (x : Scanner)
    → str_eq key "" ≡ false
    → keep (has_key (hash key)) s.scanners ≡ x ∷ []
    → (get_scanner hash now (some key) (rotate_key hash now raw_key) s).0
      ≡ after_rotation hash now x.id raw_key s
unfolding rotate_key
rotate_state hash now key raw_key s x given mine =
    ap (λ r. r.0) (reached hash now key (rotate_key hash now raw_key) s (x ∷ []) given mine)
    ∙ ap (λ xs. record s { scanners = xs }) (update_twice hash now x.id raw_key s.scanners)

one_active :
    (f : Scanner → Scanner) (x : Scanner) (xs : List Scanner)
    → (f x).is_active ≡ true
    → xs ≡ x ∷ []
    → keep (λ y. y.is_active) (map f xs) ≡ f x ∷ []
one_active f x xs active e = rw e (ap (λ b. if b then f x ∷ [] else []) active)

-- A scanner with a key that no other row has, under an identifier that no other row has, rotates it to
-- a key of another hash that no row has: the old key is refused from then on, at any time and for any
-- handler, and changes nothing; the new key reaches the handler as the same scanner.
pub rotate_key_lem :
    (hash : String → String) (now : ℕ) (key raw_key : String) (s : State) (x : Scanner)
    → str_eq key "" ≡ false
    → str_eq raw_key "" ≡ false
    → keep (has_key (hash key)) s.scanners ≡ x ∷ []
    → keep (with_id x.id) s.scanners ≡ x ∷ []
    → x.is_active ≡ true
    → All (λ y. y.api_key_hash ≢ hash raw_key) s.scanners
    → hash key ≢ hash raw_key
    → let after = (get_scanner hash now (some key) (rotate_key hash now raw_key) s).0 in
      ((later : ℕ) (rest : Scanner → State → State × Reply)
        → get_scanner hash later (some key) rest after
          ≡ (after, http_exception 401 "Invalid or inactive scanner key"))
      × ((later : ℕ) (rest : Scanner → State → State × Reply)
          → get_scanner hash later (some raw_key) rest after
            ≡ get_db after
                (rest (seen later (rotated hash now raw_key x)) (set_row x.id (seen later) after)))
rotate_key_lem hash now key raw_key s x given given' mine unique active new d =
    let after = after_rotation hash now x.id raw_key s in
    let own = subst (All (λ y. y.id ≡ x.id)) (sym mine) (refl, _) in
    let found =
      new_found hash now x.id raw_key s.scanners new
      ∙ one_active (rotated hash now raw_key) x (keep (with_id x.id) s.scanners) active unique in
    rw (rotate_state hash now key raw_key s x given mine) (
      λ later rest. reached hash later key rest after [] given (
          old_gone hash now x.id raw_key (hash key) s.scanners d
            (keep-OnlyOf (hash key) x.id s.scanners own)),
      λ later rest.
          reached hash later raw_key rest after (rotated hash now raw_key x ∷ []) given' found,
    )
