-- ===== src/Inventory/Taxonomy/Email.antt =====
-- The categories of the group "Email" in src/dgraphai/inventory/taxonomy.py.
use dgraphai.Inventory.Model.{Category, base, category, column, more, no_more}
use dgraphai.Prelude.{[], none, some, ◌++◌, ◌∷◌}

abbrev emails_eml : Category
emails_eml =
    category
      (record {
        id = "emails-eml";
        name = ".eml / .mbox";
        description = "Standard email files (.eml, .mbox, .mbx)";
        group = "Email";
        icon = "📧";
        color = "#0ea5e9";
        cypher =
            "MATCH (f:File) WHERE f.extension IN ['.eml','.mbox','.mbx'] AND f.tenant_id = $tid RETURN f";
        columns =
            base
            ++ (column "author" "From" 140 "text"
                ∷ column "title" "Subject" 200 "text"
                ∷ column "pii_detected" "PII" 60 "bool"
                ∷ []);
        tags = "email" ∷ "eml" ∷ [];
        parent_id = some "emails";
      })
      no_more

abbrev emails_msg : Category
emails_msg =
    category
      (record {
        id = "emails-msg";
        name = ".msg (Outlook)";
        description = "Microsoft Outlook message files (.msg)";
        group = "Email";
        icon = "📧";
        color = "#0284c7";
        cypher = "MATCH (f:File) WHERE f.extension = '.msg' AND f.tenant_id = $tid RETURN f";
        columns =
            base
            ++ (column "author" "From" 140 "text"
                ∷ column "title" "Subject" 200 "text"
                ∷ column "pii_detected" "PII" 60 "bool"
                ∷ []);
        tags = "email" ∷ "msg" ∷ "outlook" ∷ [];
        parent_id = some "emails";
      })
      no_more

abbrev pub emails : Category
emails =
    category
      (record {
        id = "emails";
        name = "Email";
        description = ".eml, .msg, and .mbox email archive files";
        group = "Email";
        icon = "✉\u{fe0f}";
        color = "#38bdf8";
        cypher = "MATCH (f:File) WHERE f.file_category = 'email' AND f.tenant_id = $tid RETURN f";
        columns =
            base
            ++ (column "author" "From" 140 "text"
                ∷ column "title" "Subject" 200 "text"
                ∷ column "pii_detected" "PII" 60 "bool"
                ∷ column "language" "Language" 80 "badge"
                ∷ []);
        tags = "email" ∷ [];
        parent_id = none;
      })
      (more emails_eml (more emails_msg (no_more)))
