-- ===== src/Inventory/Taxonomy/Archives.antt =====
-- The categories of the group "Archives" in src/dgraphai/inventory/taxonomy.py.
use dgraphai.Inventory.Model.{Category, base, category, column, more, no_more}
use dgraphai.Prelude.{[], none, some, ◌++◌, ◌∷◌}

abbrev archives_zip : Category
archives_zip =
    category
      (record {
        id = "archives-zip";
        name = "ZIP";
        description = "ZIP archives (.zip, .jar, .war, .apk)";
        group = "Archives";
        icon = "🗜\u{fe0f}";
        color = "#ea580c";
        cypher =
            "MATCH (f:File) WHERE f.extension IN ['.zip','.jar','.war','.ear','.apk','.ipa'] AND f.tenant_id = $tid RETURN f";
        columns =
            base
            ++ (column "file_count_in_archive" "Files" 70 "num"
                ∷ column "contains_executables" "Has .exe" 80 "bool"
                ∷ []);
        tags = "archives" ∷ "zip" ∷ [];
        parent_id = some "archives";
      })
      no_more

abbrev archives_7z : Category
archives_7z =
    category
      (record {
        id = "archives-7z";
        name = "7-Zip / RAR";
        description = "High-compression archives (.7z, .rar, .ace)";
        group = "Archives";
        icon = "🗜\u{fe0f}";
        color = "#f97316";
        cypher =
            "MATCH (f:File) WHERE f.extension IN ['.7z','.rar','.ace','.arj'] AND f.tenant_id = $tid RETURN f";
        columns =
            base
            ++ (column "file_count_in_archive" "Files" 70 "num"
                ∷ column "compression_ratio" "Ratio" 70 "num"
                ∷ []);
        tags = "archives" ∷ "7z" ∷ "rar" ∷ [];
        parent_id = some "archives";
      })
      no_more

abbrev archives_tar : Category
archives_tar =
    category
      (record {
        id = "archives-tar";
        name = "TAR / GZ / BZ2";
        description = "Unix archive formats (.tar, .tar.gz, .tgz, .bz2, .xz)";
        group = "Archives";
        icon = "🗜\u{fe0f}";
        color = "#fb923c";
        cypher =
            "MATCH (f:File) WHERE f.extension IN ['.tar','.gz','.tgz','.bz2','.xz','.zst','.lz4'] AND f.tenant_id = $tid RETURN f";
        columns =
            base
            ++ (column "file_count_in_archive" "Files" 70 "num"
                ∷ column "compression_ratio" "Ratio" 70 "num"
                ∷ []);
        tags = "archives" ∷ "tar" ∷ "unix" ∷ [];
        parent_id = some "archives";
      })
      no_more

abbrev archives_iso : Category
archives_iso =
    category
      (record {
        id = "archives-iso";
        name = "Disk Images (.iso / .img)";
        description = "Disk image files (.iso, .img, .dmg)";
        group = "Archives";
        icon = "💿";
        color = "#fbbf24";
        cypher =
            "MATCH (f:File) WHERE f.extension IN ['.iso','.img'] AND f.tenant_id = $tid RETURN f";
        columns = base ++ (column "file_count_in_archive" "Files" 70 "num" ∷ []);
        tags = "archives" ∷ "iso" ∷ "disk" ∷ [];
        parent_id = some "archives";
      })
      no_more

abbrev pub archives : Category
archives =
    category
      (record {
        id = "archives";
        name = "Archives";
        description = "Compressed and archive files";
        group = "Archives";
        icon = "📦";
        color = "#fb923c";
        cypher = "MATCH (f:File) WHERE f.file_category = 'archive' AND f.tenant_id = $tid RETURN f";
        columns =
            base
            ++ (column "compression_method" "Method" 100 "badge"
                ∷ column "file_count_in_archive" "Files" 70 "num"
                ∷ column "compression_ratio" "Ratio" 70 "num"
                ∷ column "contains_executables" "Has .exe" 80 "bool"
                ∷ []);
        tags = "archives" ∷ [];
        parent_id = none;
      })
      (more archives_zip (more archives_7z (more archives_tar (more archives_iso (no_more)))))
