-- ===== src/RateLimit/Limiter/Window.antt =====
-- The limiter counts the requests in a sliding window.
use mathlib.Core.List.{append-nil}
use dgraphai.Prelude.{ap, append_assoc, length, subst, sym, ◌*◌, ◌∙◌}
use dgraphai.RateLimit.Limiter.{prune, record_request}
use dgraphai.RateLimit.Redis.{RedisLaws}
use dgraphai.Prelude.{
  All, Bool, List, String, [], arith, keep, ltb, refl, ℕ, ◌++◌, ◌-◌, ◌<◌, ◌∷◌, ◌≡◌, ◌≤◌,
}
use dgraphai.RateLimit.Limiter.{check_window, micros}
use dgraphai.RateLimit.Redis.{Redis}

keep_append : (p : ℕ → Bool) (xs ys : List ℕ) → keep p (xs ++ ys) ≡ keep p xs ++ keep p ys
keep_append p [] ys = refl
keep_append p (x ∷ xs) ys = ground (arith, keep_append p xs ys)

keep_later :
    (b c : ℕ) (xs : List ℕ)
    → b ≤ c
    → keep (λ t. ltb c t) (keep (λ t. ltb b t) xs) ≡ keep (λ t. ltb c t) xs
keep_later b c [] h = refl
keep_later b c (x ∷ xs) h = ground (arith, keep_later b c xs h)

All-keep :
    (p : ℕ → Bool) (n m : ℕ) (xs : List ℕ)
    → n < m
    → All (λ t. t ≤ n) xs
    → All (λ t. t < m) (keep p xs)
All-keep p n m [] h a = tt
All-keep p n m (x ∷ xs) h a = ground (arith, All-keep p n m xs h a.1)

All-last : (t : ℕ) (xs : List ℕ) → All (λ u. u < t) xs → All (λ u. u ≤ t) (xs ++ t ∷ [])
All-last t [] h = (omega arith, tt)
All-last t (x ∷ xs) h = (omega arith, All-last t xs h.1)

-- Each time is later than the one before.
abbrev pub Increasing : ℕ → List ℕ → Type 0
Increasing n [] = Unit
Increasing n (t ∷ ts) = (n < t) × Increasing t ts

-- the last time
abbrev pub latest : ℕ → List ℕ → ℕ
latest n [] = n
latest n (t ∷ ts) = latest t ts

module _ (r : Redis) (key : String) (limit window : ℕ) where
  -- one request after the other
  abbrev pub serve : List ℕ → r.Store → r.Store
  serve [] s = s
  serve (t ∷ ts) s = serve ts (check_window r key limit window t s).0

  -- The set agrees with the past requests on every window that is still to come.
  record Tracks (past : List ℕ) (now : ℕ) (s : r.Store) : Type 0 where
    agrees :
        (c : ℕ)
        → now - micros window ≤ c
        → keep (λ t. ltb c t) (r.scores key s) ≡ keep (λ t. ltb c t) past
    before : All (λ t. t ≤ now) (r.scores key s)

  module _ (laws : RedisLaws r) (positive : 0 < window) where
    recorded :
        (past : List ℕ) (now t : ℕ) (s : r.Store)
        → now < t
        → Tracks past now s
        → r.scores key (record_request r key window t s)
          ≡ keep (λ u. ltb (t - micros window) u) past ++ t ∷ []
    recorded past now t s later tr =
        let p = prune r key window t s in
        let c = t - micros window in
        laws.expire_keeps key (window * 2) (r.zadd key t p) (omega arith)
        ∙ laws.zadd_last key t p (
            subst (All (λ u. u < t)) (sym (laws.zremrangebyscore_scores key c s))
              (All-keep (λ u. ltb c u) now t (r.scores key s) later tr.before))
        ∙ ap (λ us. us ++ t ∷ []) (laws.zremrangebyscore_scores key c s ∙ tr.agrees c (omega arith))

    All-snoc :
        (c now t : ℕ) (past : List ℕ) (s : r.Store)
        → now < t
        → now - micros window ≤ c
        → Tracks past now s
        → All (λ u. u ≤ t) (keep (λ u. ltb c u) past ++ t ∷ [])
    All-snoc c now t past s later le tr = All-last t (keep (λ u. ltb c u) past) (
        subst (All (λ u. u < t)) (tr.agrees c le)
          (All-keep (λ u. ltb c u) now t (r.scores key s) later tr.before))

    check_window-Tracks :
        (past : List ℕ) (now t : ℕ) (s : r.Store)
        → now < t
        → Tracks past now s
        → Tracks (past ++ t ∷ []) t (check_window r key limit window t s).0
    unfolding check_window
    check_window-Tracks past now t s later tr = record {
      agrees = λ c le.
          ap (keep (λ u. ltb c u)) (recorded past now t s later tr)
          ∙ keep_append (λ u. ltb c u) (keep (λ u. ltb (t - micros window) u) past) (t ∷ [])
          ∙ ap (λ us. us ++ keep (λ u. ltb c u) (t ∷ [])) (keep_later (t - micros window) c past le)
          ∙ sym (keep_append (λ u. ltb c u) past (t ∷ []));
      before =
          subst (All (λ u. u ≤ t)) (sym (recorded past now t s later tr))
            (All-snoc (t - micros window) now t past s later (omega arith) tr);
    }

    serve-Tracks :
        (ts past : List ℕ) (now : ℕ) (s : r.Store)
        → Increasing now ts
        → Tracks past now s
        → Tracks (past ++ ts) (latest now ts) (serve ts s)
    serve-Tracks [] past now s inc tr = rw (append-nil past) tr
    serve-Tracks (t ∷ ts) past now s inc tr =
        rw (sym (append_assoc past (t ∷ []) ts))
          (serve-Tracks ts (past ++ t ∷ []) t _ inc.1 (check_window-Tracks past now t s inc.0 tr))

    verdict_counts :
        (past : List ℕ) (now t : ℕ) (s : r.Store)
        → now < t
        → Tracks past now s
        → (check_window r key limit window t s).1.allowed
          ≡ ltb (length (keep (λ u. ltb (t - micros window) u) past)) limit
    unfolding check_window
    verdict_counts past now t s later tr =
        let c = t - micros window in
        ground (
          arith,
          laws.zcard_length key (prune r key window t s),
          ap length (laws.zremrangebyscore_scores key c s ∙ tr.agrees c (omega arith)),
        )

-- With a Redis that does what is documented, a window that is not zero, and requests at increasing
-- times for one key from an empty set: a request is allowed exactly if fewer than `limit` of the earlier ones, whether they
-- were allowed or refused, are in the window before it.
pub check_window-count :
    (r : Redis) (laws : RedisLaws r) (key : String) (limit window start t : ℕ) (ts : List ℕ)
    (s : r.Store)
    → 0 < window
    → r.scores key s ≡ []
    → Increasing start ts
    → latest start ts < t
    → (check_window r key limit window t (serve r key limit window ts s)).1.allowed
      ≡ ltb (length (keep (λ u. ltb (t - micros window) u) ts)) limit
check_window-count r laws key limit window start t ts s positive empty inc later =
    verdict_counts r key limit window laws positive ts (latest start ts) t
      (serve r key limit window ts s) later
      (serve-Tracks r key limit window laws positive ts [] start s inc (record {
        agrees = λ c le. ap (keep (λ u. ltb c u)) empty;
        before = subst (All (λ u. u ≤ start)) (sym empty) tt;
      }))
