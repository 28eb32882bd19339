-- ===== src/Inventory/Taxonomy/Documents.antt =====
-- The categories of the group "Documents" in src/dgraphai/inventory/taxonomy.py.
use dgraphai.Inventory.Model.{Category, base, category, column, more, no_more}
use dgraphai.Prelude.{[], none, some, ◌++◌, ◌∷◌}

abbrev docs_pdf : Category
docs_pdf =
    category
      (record {
        id = "docs-pdf";
        name = "PDF";
        description = "Portable Document Format files (.pdf)";
        group = "Documents";
        icon = "📕";
        color = "#f59e0b";
        cypher = "MATCH (f:File) WHERE f.extension = '.pdf' AND f.tenant_id = $tid RETURN f";
        columns =
            base
            ++ (column "author" "Author" 130 "text"
                ∷ column "page_count" "Pages" 65 "num"
                ∷ column "word_count" "Words" 75 "num"
                ∷ column "is_encrypted" "Encrypted" 80 "bool"
                ∷ column "is_signed" "Signed" 70 "bool"
                ∷ []);
        tags = "documents" ∷ "pdf" ∷ [];
        parent_id = some "documents";
      })
      no_more

abbrev docs_word : Category
docs_word =
    category
      (record {
        id = "docs-word";
        name = "Word (.docx / .doc)";
        description = "Microsoft Word documents";
        group = "Documents";
        icon = "📝";
        color = "#2563eb";
        cypher =
            "MATCH (f:File) WHERE f.extension IN ['.docx','.doc','.odt','.rtf'] AND f.tenant_id = $tid RETURN f";
        columns =
            base
            ++ (column "author" "Author" 130 "text"
                ∷ column "word_count" "Words" 75 "num"
                ∷ column "has_macros" "Macros" 70 "bool"
                ∷ column "language" "Language" 80 "badge"
                ∷ []);
        tags = "documents" ∷ "word" ∷ "docx" ∷ [];
        parent_id = some "documents";
      })
      no_more

abbrev docs_excel : Category
docs_excel =
    category
      (record {
        id = "docs-excel";
        name = "Excel (.xlsx / .csv)";
        description = "Spreadsheets — Excel, CSV, ODS";
        group = "Documents";
        icon = "📊";
        color = "#16a34a";
        cypher =
            "MATCH (f:File) WHERE f.extension IN ['.xlsx','.xls','.csv','.ods','.tsv'] AND f.tenant_id = $tid RETURN f";
        columns =
            base
            ++ (column "author" "Author" 130 "text"
                ∷ column "has_macros" "Macros" 70 "bool"
                ∷ column "pii_detected" "PII" 60 "bool"
                ∷ []);
        tags = "documents" ∷ "excel" ∷ "spreadsheet" ∷ "csv" ∷ [];
        parent_id = some "documents";
      })
      no_more

abbrev docs_powerpoint : Category
docs_powerpoint =
    category
      (record {
        id = "docs-powerpoint";
        name = "PowerPoint (.pptx)";
        description = "Presentations — PowerPoint, Keynote, ODP";
        group = "Documents";
        icon = "📊";
        color = "#dc2626";
        cypher =
            "MATCH (f:File) WHERE f.extension IN ['.pptx','.ppt','.key','.odp'] AND f.tenant_id = $tid RETURN f";
        columns =
            base
            ++ (column "author" "Author" 130 "text" ∷ column "page_count" "Slides" 65 "num" ∷ []);
        tags = "documents" ∷ "powerpoint" ∷ "presentation" ∷ [];
        parent_id = some "documents";
      })
      no_more

abbrev docs_text : Category
docs_text =
    category
      (record {
        id = "docs-text";
        name = "Text / Markdown";
        description = "Plain text, Markdown, and rich text files";
        group = "Documents";
        icon = "📋";
        color = "#d97706";
        cypher =
            "MATCH (f:File) WHERE f.extension IN ['.txt','.md','.rst','.rtf','.log'] AND f.tenant_id = $tid RETURN f";
        columns =
            base
            ++ (column "word_count" "Words" 75 "num"
                ∷ column "language" "Language" 80 "badge"
                ∷ []);
        tags = "documents" ∷ "text" ∷ "markdown" ∷ [];
        parent_id = some "documents";
      })
      no_more

abbrev docs_data : Category
docs_data =
    category
      (record {
        id = "docs-data";
        name = "Data Files (.json / .xml / .yaml)";
        description = "Structured data files — JSON, XML, YAML, TOML";
        group = "Documents";
        icon = "🗂\u{fe0f}";
        color = "#b45309";
        cypher =
            "MATCH (f:File) WHERE f.extension IN ['.json','.xml','.yaml','.yml','.toml','.ini'] AND f.tenant_id = $tid RETURN f";
        columns =
            base
            ++ (column "contains_secrets" "Secrets" 80 "bool"
                ∷ column "pii_detected" "PII" 60 "bool"
                ∷ []);
        tags = "documents" ∷ "json" ∷ "xml" ∷ "yaml" ∷ "data" ∷ [];
        parent_id = some "documents";
      })
      no_more

abbrev pub documents : Category
documents =
    category
      (record {
        id = "documents";
        name = "Documents";
        description = "Office documents, PDFs, text files, and presentations";
        group = "Documents";
        icon = "📄";
        color = "#fbbf24";
        cypher =
            "MATCH (f:File) WHERE f.file_category = 'document' AND f.tenant_id = $tid RETURN f";
        columns =
            base
            ++ (column "mime_type" "Format" 110 "badge"
                ∷ column "author" "Author" 130 "text"
                ∷ column "page_count" "Pages" 65 "num"
                ∷ column "word_count" "Words" 75 "num"
                ∷ column "language" "Language" 80 "badge"
                ∷ []);
        tags = "documents" ∷ [];
        parent_id = none;
      })
      (more docs_pdf (
        more docs_word
          (more docs_excel (more docs_powerpoint (more docs_text (more docs_data (no_more)))))))
