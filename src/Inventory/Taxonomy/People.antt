-- ===== src/Inventory/Taxonomy/People.antt =====
-- The categories of the group "People & Identity" in src/dgraphai/inventory/taxonomy.py.
use dgraphai.Inventory.Model.{Category, category, column, more, no_more}
use dgraphai.Prelude.{[], none, some, ◌∷◌}

abbrev people_identified : Category
people_identified =
    category
      (record {
        id = "people-identified";
        name = "Identified People";
        description = "People with a confirmed identity (known=true)";
        group = "People & Identity";
        icon = "✅";
        color = "#ec4899";
        cypher = "MATCH (p:Person) WHERE p.known = true AND p.tenant_id = $tid RETURN p AS f";
        columns =
            column "name" "Name" 180 "text"
            ∷ column "face_count" "Appearances" 100 "num"
            ∷ column "first_seen" "First Seen" 130 "date"
            ∷ [];
        tags = "people" ∷ "identified" ∷ [];
        parent_id = some "people";
      })
      no_more

abbrev people_unknown : Category
people_unknown =
    category
      (record {
        id = "people-unknown";
        name = "Unidentified Faces";
        description = "Face clusters not yet matched to a named person";
        group = "People & Identity";
        icon = "👥";
        color = "#f472b6";
        cypher =
            "MATCH (fc:FaceCluster) WHERE NOT (fc)-[:SAME_PERSON_AS]->(:Person) AND fc.tenant_id = $tid RETURN fc AS f";
        columns =
            column "cluster_id" "Cluster" 120 "mono"
            ∷ column "face_count" "Appearances" 100 "num"
            ∷ column "first_seen" "First Seen" 130 "date"
            ∷ [];
        tags = "people" ∷ "faces" ∷ "unidentified" ∷ [];
        parent_id = some "people";
      })
      no_more

abbrev pub people : Category
people =
    category
      (record {
        id = "people";
        name = "People";
        description = "Individuals identified by face recognition or document analysis";
        group = "People & Identity";
        icon = "👤";
        color = "#f472b6";
        cypher = "MATCH (p:Person) WHERE p.tenant_id = $tid RETURN p AS f";
        columns =
            column "name" "Name" 180 "text"
            ∷ column "known" "Identified" 90 "bool"
            ∷ column "face_count" "Appearances" 100 "num"
            ∷ column "first_seen" "First Seen" 130 "date"
            ∷ [];
        tags = "people" ∷ [];
        parent_id = none;
      })
      (more people_identified (more people_unknown (no_more)))
