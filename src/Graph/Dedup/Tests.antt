-- ===== src/Graph/Dedup/Tests.antt =====
-- Runs of the deduplication at concrete inputs.
use dgraphai.Graph.Dedup.{Props, bulk_upsert, make_canonical_path, make_node_id}
use dgraphai.Graph.Dedup.Growth.{HasNoId, bulk_upsert_grows}
use dgraphai.Graph.Dedup.Identity.{make_node_id_lem}
use dgraphai.Prelude.{All, Option, String, [], length, none, refl, some, ◌↔◌, ◌∷◌, ◌≡◌}

abbrev sha : String
sha = "0123456789abcdef0123456789abcdef0123456789abcdef0123456789abcdef"

abbrev file_at : Option String → Option String → String → Props
file_at hash conn path = record {
  sha256 = hash;
  connector_id = conn;
  path = some path;
  protocol = some "smb";
  host = some "nas";
  share = some "media";
  hostname = none;
  bucket = none;
  key = none;
  account_name = none;
  container = none;
  name = none;
  extension = none;
  file_category = none;
  mime_type = none;
  size = none;
  modified_at = none;
  indexed_at = none;
}

abbrev movie : String → Props
movie conn = file_at (some sha) (some conn) "/m.mkv"

canonical : make_canonical_path (movie "c1") ≡ "smb://nas/media/m.mkv"
unfolding make_canonical_path
canonical = refl

-- two files of different connectors with one path identifier
colon_collides :
    (make_node_id (λ k. k) (file_at none (some "a:b") "c"))
    ≡ make_node_id (λ k. k) (file_at none (some "a") "b:c")
unfolding make_node_id
colon_collides = refl

make_node_id_lem_run :
    (make_node_id (λ k. k) (movie "c1") ≡ make_node_id (λ k. k) (movie "c2")) ↔ (sha ≡ sha)
make_node_id_lem_run = make_node_id_lem (λ k. k) (movie "c1") (movie "c2") refl

-- One file that two agents bring makes two nodes.
bulk_upsert_grows_example :
    let once = bulk_upsert (λ k. k) (movie "c1" ∷ []) "agent1" "acme" [] in
    let twice = bulk_upsert (λ k. k) (movie "c2" ∷ []) "agent2" "acme" once in
    All HasNoId twice × (length twice ≡ 2)
bulk_upsert_grows_example =
    bulk_upsert_grows (λ k. k) (movie "c1" ∷ []) (movie "c2" ∷ []) "agent1" "agent2" "acme"
