-- ===== src/Inventory/Taxonomy/Productivity.antt =====
-- The categories of the group "Productivity" in src/dgraphai/inventory/taxonomy.py.
use dgraphai.Inventory.Model.{Category, base, category, column, more, no_more}
use dgraphai.Prelude.{[], none, some, ◌++◌, ◌∷◌}

abbrev calendar_ics : Category
calendar_ics =
    category
      (record {
        id = "calendar-ics";
        name = "Calendar (.ics)";
        description = "iCalendar event files";
        group = "Productivity";
        icon = "📆";
        color = "#84cc16";
        cypher = "MATCH (f:File) WHERE f.extension = '.ics' AND f.tenant_id = $tid RETURN f";
        columns = base ++ ([]);
        tags = "calendar" ∷ "ics" ∷ [];
        parent_id = some "calendar-contacts";
      })
      no_more

abbrev contacts_vcf : Category
contacts_vcf =
    category
      (record {
        id = "contacts-vcf";
        name = "Contacts (.vcf)";
        description = "vCard contact files";
        group = "Productivity";
        icon = "👤";
        color = "#65a30d";
        cypher = "MATCH (f:File) WHERE f.extension = '.vcf' AND f.tenant_id = $tid RETURN f";
        columns = base ++ ([]);
        tags = "contacts" ∷ "vcf" ∷ [];
        parent_id = some "calendar-contacts";
      })
      no_more

abbrev pub calendar_contacts : Category
calendar_contacts =
    category
      (record {
        id = "calendar-contacts";
        name = "Calendar & Contacts";
        description = "Calendar files (.ics) and contact cards (.vcf)";
        group = "Productivity";
        icon = "📅";
        color = "#a3e635";
        cypher =
            "MATCH (f:File) WHERE f.file_category IN ['calendar','contact'] AND f.tenant_id = $tid RETURN f";
        columns = base ++ (column "extension" "Format" 80 "badge" ∷ []);
        tags = "calendar" ∷ "contacts" ∷ [];
        parent_id = none;
      })
      (more calendar_ics (more contacts_vcf (no_more)))
