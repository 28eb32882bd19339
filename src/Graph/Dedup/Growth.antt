-- ===== src/Graph/Dedup/Growth.antt =====
-- What repeated scans do to the number of nodes.
use dgraphai.Graph.Dedup.{Node, Props, Row, bulk_upsert, created, matches, merge_rows, row_of}
use dgraphai.Prelude.{
  All, All-append, List, String, [], any, arith, false, length, length-append, map, none, refl,
  ◌++◌, ◌+◌, ◌∷◌, ◌≡◌,
}

-- No node has the property that MERGE looks for.
abbrev pub HasNoId : Node → Type 0
HasNoId n = n.id ≡ none

none_match :
    (node_id tid : String) (nodes : List Node)
    → All HasNoId nodes
    → any (matches node_id tid) nodes ≡ false
none_match node_id tid [] h = refl
none_match node_id tid (n ∷ nodes) h = rw (h.0) (none_match node_id tid nodes h.1)

merge_rows-grow :
    (agent_id tid : String) (rows : List Row) (nodes : List Node)
    → All HasNoId nodes
    → All HasNoId (merge_rows agent_id tid rows nodes)
      × (length (merge_rows agent_id tid rows nodes) ≡ length rows + length nodes)
merge_rows-grow agent_id tid [] nodes h = (h, omega arith)
merge_rows-grow agent_id tid (row ∷ rows) nodes h =
    let more = nodes ++ created agent_id tid row ∷ [] in
    let r = merge_rows-grow agent_id tid rows more (All-append HasNoId nodes _ h (refl, _)) in
    rw (none_match row.node_id tid nodes h)
      (r.0, omega (arith, r.1, length-append nodes (created agent_id tid row ∷ [])))

length-map {ℓ κ} :
    {A : Type ℓ} {B : Type κ} (f : A → B) (xs : List A) → length (map f xs) ≡ length xs
length-map f [] = refl
length-map f (x ∷ xs) = omega (arith, length-map f xs)

-- Two batches in a graph that no other statement wrote: every row of both makes a new node, also a row
-- of the second whose file the first has already brought, and no node has an `id`.
pub bulk_upsert_grows :
    (sha256 : String → String) (first second : List Props) (agent_id agent_id' tid : String)
    → let once = bulk_upsert sha256 first agent_id tid [] in
      let twice = bulk_upsert sha256 second agent_id' tid once in
      All HasNoId twice × (length twice ≡ length second + length first)
unfolding bulk_upsert
bulk_upsert_grows sha256 first second agent_id agent_id' tid =
    let once = merge_rows-grow agent_id tid (map (row_of sha256) first) [] _ in
    let twice =
      merge_rows-grow agent_id' tid (map (row_of sha256) second)
        (merge_rows agent_id tid (map (row_of sha256) first) []) once.0 in
    (
      twice.0,
      omega (
        arith,
        twice.1,
        once.1,
        length-map (row_of sha256) first,
        length-map (row_of sha256) second,
      ),
    )
