-- ===== src/Inventory/Taxonomy/Storage.antt =====
-- The categories of the group "Storage" in src/dgraphai/inventory/taxonomy.py.
use dgraphai.Inventory.Model.{Category, base, category, column, no_more}
use dgraphai.Prelude.{[], none, ◌++◌, ◌∷◌}

abbrev pub duplicates : Category
duplicates =
    category
      (record {
        id = "duplicates";
        name = "Duplicate Files";
        description = "Files sharing identical content (same SHA-256)";
        group = "Storage";
        icon = "♻\u{fe0f}";
        color = "#6b7280";
        cypher =
            "MATCH (f:File)-[:DUPLICATE_OF]->(g:File) WHERE f.tenant_id = $tid RETURN DISTINCT f";
        columns =
            base
            ++ (column "sha256" "Hash" 160 "mono" ∷ column "extension" "Format" 80 "badge" ∷ []);
        tags = "storage" ∷ "duplicates" ∷ [];
        parent_id = none;
      })
      (no_more)

abbrev pub directories : Category
directories =
    category
      (record {
        id = "directories";
        name = "Directories";
        description = "Folder structure across all connected sources";
        group = "Storage";
        icon = "📁";
        color = "#fbbf24";
        cypher = "MATCH (d:Directory) WHERE d.tenant_id = $tid RETURN d AS f";
        columns =
            column "name" "Name" 200 "text"
            ∷ column "path" "Path" 300 "path"
            ∷ column "file_count" "Files" 70 "num"
            ∷ column "total_bytes" "Total Size" 100 "size"
            ∷ [];
        tags = "storage" ∷ "filesystem" ∷ [];
        parent_id = none;
      })
      (no_more)
