-- ===== src/Scanners/Tests.antt =====
-- Runs of the scanner handlers at concrete inputs.
use dgraphai.Prelude.{String, [], arith, eq_iff, none, refl, some, true, ℕ, ◌∷◌, ◌≡◌, ◌≢◌}
use dgraphai.Scanners.Handlers.{Scanner, State, get_scanner, rotate_key, seen, set_row}
use dgraphai.Scanners.Rotation.{rotate_key_lem, rotated}
use dgraphai.Auth.Model.{Reply, get_db, http_exception}

abbrev scanner : Scanner
scanner = record {
  id = "s1";
  tenant_id = "acme";
  name = "NAS";
  api_key_hash = "old";
  platform = "docker";
  version = "1";
  is_active = true;
  last_seen = none;
}

abbrev state : State
state = record { scanners = scanner ∷ []; agents = [] }

abbrev old_key : String
old_key = "old"

abbrev new_key : String
new_key = "new"

old-new : old_key ≢ new_key
old-new = ground (arith, eq_iff "old" "new")

abbrev after : State
after = (get_scanner (λ k. k) 5 (some "old") (rotate_key (λ k. k) 5 "new") state).0

rotate_key_lem_example :
    ((later : ℕ) (rest : Scanner → State → State × Reply)
      → get_scanner (λ k. k) later (some "old") rest after
        ≡ (after, http_exception 401 "Invalid or inactive scanner key"))
    × ((later : ℕ) (rest : Scanner → State → State × Reply)
        → get_scanner (λ k. k) later (some "new") rest after
          ≡ get_db after (
              rest
                (seen later (rotated (λ k. k) 5 "new" scanner))
                (set_row "s1" (seen later) after)))
rotate_key_lem_example =
    rotate_key_lem (λ k. k) 5 "old" "new" state scanner refl refl refl refl refl (old-new, tt)
      old-new
