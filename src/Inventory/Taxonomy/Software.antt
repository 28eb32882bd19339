-- ===== src/Inventory/Taxonomy/Software.antt =====
-- The categories of the group "Software" in src/dgraphai/inventory/taxonomy.py.
use dgraphai.Inventory.Model.{Category, base, category, column, more, no_more}
use dgraphai.Prelude.{[], none, some, ◌++◌, ◌∷◌}

abbrev exe_pe : Category
exe_pe =
    category
      (record {
        id = "exe-pe";
        name = "Windows PE (.exe / .dll)";
        description = "Windows Portable Executable files — programs and libraries";
        group = "Software";
        icon = "🪟";
        color = "#0078d4";
        cypher =
            "MATCH (f:File) WHERE f.file_category = 'executable' AND f.binary_format = 'PE' AND f.tenant_id = $tid RETURN f";
        columns =
            base
            ++ (column "company_name" "Vendor" 130 "text"
                ∷ column "file_version" "Version" 90 "text"
                ∷ column "signed" "Signed" 70 "bool"
                ∷ column "is_packed" "Packed" 70 "bool"
                ∷ []);
        tags = "software" ∷ "exe" ∷ "windows" ∷ [];
        parent_id = some "executables";
      })
      no_more

abbrev exe_elf : Category
exe_elf =
    category
      (record {
        id = "exe-elf";
        name = "Linux ELF";
        description = "Linux/Unix ELF binaries and shared objects";
        group = "Software";
        icon = "🐧";
        color = "#f97316";
        cypher =
            "MATCH (f:File) WHERE f.file_category = 'executable' AND f.binary_format = 'ELF' AND f.tenant_id = $tid RETURN f";
        columns =
            base
            ++ (column "architecture" "Arch" 70 "badge"
                ∷ column "signed" "Signed" 70 "bool"
                ∷ column "is_packed" "Packed" 70 "bool"
                ∷ []);
        tags = "software" ∷ "elf" ∷ "linux" ∷ [];
        parent_id = some "executables";
      })
      no_more

abbrev exe_macho : Category
exe_macho =
    category
      (record {
        id = "exe-macho";
        name = "macOS Mach-O";
        description = "macOS and iOS Mach-O binaries";
        group = "Software";
        icon = "🍎";
        color = "#6b7280";
        cypher =
            "MATCH (f:File) WHERE f.file_category = 'executable' AND f.binary_format = 'MACHO' AND f.tenant_id = $tid RETURN f";
        columns =
            base
            ++ (column "architectures" "Architectures" 160 "text"
                ∷ column "signed" "Signed" 70 "bool"
                ∷ column "is_universal" "Universal" 90 "bool"
                ∷ []);
        tags = "software" ∷ "macho" ∷ "macos" ∷ [];
        parent_id = some "executables";
      })
      no_more

abbrev exe_msi : Category
exe_msi =
    category
      (record {
        id = "exe-msi";
        name = "Installers (.msi / .pkg / .deb)";
        description = "Software installers — MSI, PKG, DEB, RPM";
        group = "Software";
        icon = "📦";
        color = "#7c3aed";
        cypher =
            "MATCH (f:File) WHERE f.extension IN ['.msi','.pkg','.deb','.rpm','.dmg'] AND f.tenant_id = $tid RETURN f";
        columns =
            base
            ++ (column "company_name" "Vendor" 130 "text"
                ∷ column "file_version" "Version" 90 "text"
                ∷ column "signed" "Signed" 70 "bool"
                ∷ []);
        tags = "software" ∷ "installer" ∷ "msi" ∷ [];
        parent_id = some "executables";
      })
      no_more

abbrev pub executables : Category
executables =
    category
      (record {
        id = "executables";
        name = "Executables & Libraries";
        description = "Binary executables, libraries, and installers";
        group = "Software";
        icon = "⚙\u{fe0f}";
        color = "#8b5cf6";
        cypher =
            "MATCH (f:File) WHERE f.file_category = 'executable' AND f.tenant_id = $tid RETURN f";
        columns =
            base
            ++ (column "binary_format" "Format" 70 "badge"
                ∷ column "company_name" "Vendor" 130 "text"
                ∷ column "file_version" "Version" 90 "text"
                ∷ column "signed" "Signed" 70 "bool"
                ∷ column "eol_status" "EOL" 80 "badge"
                ∷ []);
        tags = "software" ∷ "executables" ∷ [];
        parent_id = none;
      })
      (more exe_pe (more exe_elf (more exe_macho (more exe_msi (no_more)))))
