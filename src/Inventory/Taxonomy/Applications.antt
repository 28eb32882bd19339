-- ===== src/Inventory/Taxonomy/Applications.antt =====
-- The categories of the group "Software Inventory" in src/dgraphai/inventory/taxonomy.py.
use dgraphai.Inventory.Model.{Category, category, column, no_more}
use dgraphai.Prelude.{[], none, ◌∷◌}

abbrev pub applications : Category
applications =
    category
      (record {
        id = "applications";
        name = "Installed Applications";
        description = "Applications detected on scanned systems";
        group = "Software Inventory";
        icon = "🖥\u{fe0f}";
        color = "#8b5cf6";
        cypher = "MATCH (a:Application) WHERE a.tenant_id = $tid RETURN a AS f";
        columns =
            column "name" "Name" 200 "text"
            ∷ column "version_string" "Version" 90 "text"
            ∷ column "eol_status" "EOL" 80 "badge"
            ∷ column "cve_count" "CVEs" 60 "num"
            ∷ column "update_available" "Update" 80 "bool"
            ∷ [];
        tags = "software" ∷ "applications" ∷ [];
        parent_id = none;
      })
      (no_more)
