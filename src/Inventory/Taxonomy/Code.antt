-- ===== src/Inventory/Taxonomy/Code.antt =====
-- The categories of the group "Code" in src/dgraphai/inventory/taxonomy.py.
use dgraphai.Inventory.Model.{Category, base, category, column, more, no_more}
use dgraphai.Prelude.{[], none, some, ◌++◌, ◌∷◌}

abbrev code_python : Category
code_python =
    category
      (record {
        id = "code-python";
        name = "Python";
        description = "Python source files (.py, .pyw, .pyi)";
        group = "Code";
        icon = "🐍";
        color = "#3b82f6";
        cypher =
            "MATCH (f:File) WHERE f.extension IN ['.py','.pyw','.pyi'] AND f.tenant_id = $tid RETURN f";
        columns =
            base
            ++ (column "line_count" "Lines" 70 "num"
                ∷ column "function_count" "Functions" 80 "num"
                ∷ column "contains_secrets" "Secrets" 80 "bool"
                ∷ []);
        tags = "code" ∷ "python" ∷ [];
        parent_id = some "code";
      })
      no_more

abbrev code_javascript : Category
code_javascript =
    category
      (record {
        id = "code-javascript";
        name = "JavaScript / TypeScript";
        description = "JS and TS source files";
        group = "Code";
        icon = "🟨";
        color = "#eab308";
        cypher =
            "MATCH (f:File) WHERE f.extension IN ['.js','.mjs','.cjs','.ts','.tsx','.jsx'] AND f.tenant_id = $tid RETURN f";
        columns =
            base
            ++ (column "line_count" "Lines" 70 "num"
                ∷ column "framework" "Framework" 110 "badge"
                ∷ column "contains_secrets" "Secrets" 80 "bool"
                ∷ []);
        tags = "code" ∷ "javascript" ∷ "typescript" ∷ [];
        parent_id = some "code";
      })
      no_more

abbrev code_go : Category
code_go =
    category
      (record {
        id = "code-go";
        name = "Go";
        description = "Go source files (.go)";
        group = "Code";
        icon = "🔵";
        color = "#06b6d4";
        cypher = "MATCH (f:File) WHERE f.extension = '.go' AND f.tenant_id = $tid RETURN f";
        columns =
            base
            ++ (column "line_count" "Lines" 70 "num"
                ∷ column "function_count" "Functions" 80 "num"
                ∷ []);
        tags = "code" ∷ "go" ∷ "golang" ∷ [];
        parent_id = some "code";
      })
      no_more

abbrev code_rust : Category
code_rust =
    category
      (record {
        id = "code-rust";
        name = "Rust";
        description = "Rust source files (.rs)";
        group = "Code";
        icon = "🦀";
        color = "#f97316";
        cypher = "MATCH (f:File) WHERE f.extension = '.rs' AND f.tenant_id = $tid RETURN f";
        columns =
            base
            ++ (column "line_count" "Lines" 70 "num"
                ∷ column "function_count" "Functions" 80 "num"
                ∷ []);
        tags = "code" ∷ "rust" ∷ [];
        parent_id = some "code";
      })
      no_more

abbrev code_java : Category
code_java =
    category
      (record {
        id = "code-java";
        name = "Java / Kotlin / Scala";
        description = "JVM language source files";
        group = "Code";
        icon = "☕";
        color = "#dc2626";
        cypher =
            "MATCH (f:File) WHERE f.extension IN ['.java','.kt','.scala','.groovy'] AND f.tenant_id = $tid RETURN f";
        columns =
            base
            ++ (column "line_count" "Lines" 70 "num"
                ∷ column "framework" "Framework" 110 "badge"
                ∷ []);
        tags = "code" ∷ "java" ∷ "kotlin" ∷ [];
        parent_id = some "code";
      })
      no_more

abbrev code_csharp : Category
code_csharp =
    category
      (record {
        id = "code-csharp";
        name = "C# / C / C++";
        description = "C-family source files";
        group = "Code";
        icon = "🔷";
        color = "#7c3aed";
        cypher =
            "MATCH (f:File) WHERE f.extension IN ['.cs','.c','.cpp','.h','.hpp','.cc'] AND f.tenant_id = $tid RETURN f";
        columns =
            base
            ++ (column "line_count" "Lines" 70 "num"
                ∷ column "function_count" "Functions" 80 "num"
                ∷ []);
        tags = "code" ∷ "csharp" ∷ "c" ∷ "cpp" ∷ [];
        parent_id = some "code";
      })
      no_more

abbrev code_shell : Category
code_shell =
    category
      (record {
        id = "code-shell";
        name = "Shell / PowerShell";
        description = "Shell scripts (.sh, .bash, .zsh, .ps1, .bat, .cmd)";
        group = "Code";
        icon = "🖥\u{fe0f}";
        color = "#059669";
        cypher =
            "MATCH (f:File) WHERE f.extension IN ['.sh','.bash','.zsh','.fish','.ps1','.bat','.cmd'] AND f.tenant_id = $tid RETURN f";
        columns =
            base
            ++ (column "line_count" "Lines" 70 "num"
                ∷ column "contains_secrets" "Secrets" 80 "bool"
                ∷ []);
        tags = "code" ∷ "shell" ∷ "bash" ∷ "powershell" ∷ [];
        parent_id = some "code";
      })
      no_more

abbrev code_config : Category
code_config =
    category
      (record {
        id = "code-config";
        name = "Config Files";
        description = "Configuration files — .env, YAML, TOML, INI, properties";
        group = "Code";
        icon = "⚙\u{fe0f}";
        color = "#0891b2";
        cypher =
            "MATCH (f:File) WHERE f.extension IN ['.env','.properties','.conf','.cfg','.ini'] AND f.tenant_id = $tid RETURN f";
        columns =
            base
            ++ (column "contains_secrets" "Secrets" 80 "bool"
                ∷ column "line_count" "Lines" 70 "num"
                ∷ []);
        tags = "code" ∷ "config" ∷ "env" ∷ [];
        parent_id = some "code";
      })
      no_more

abbrev code_sql : Category
code_sql =
    category
      (record {
        id = "code-sql";
        name = "SQL / GraphQL";
        description = "Database query files (.sql, .graphql, .gql)";
        group = "Code";
        icon = "🗃\u{fe0f}";
        color = "#0369a1";
        cypher =
            "MATCH (f:File) WHERE f.extension IN ['.sql','.graphql','.gql'] AND f.tenant_id = $tid RETURN f";
        columns =
            base
            ++ (column "line_count" "Lines" 70 "num"
                ∷ column "contains_secrets" "Secrets" 80 "bool"
                ∷ []);
        tags = "code" ∷ "sql" ∷ "database" ∷ [];
        parent_id = some "code";
      })
      no_more

abbrev pub code : Category
code =
    category
      (record {
        id = "code";
        name = "Source Code";
        description = "Programming files, scripts, and config";
        group = "Code";
        icon = "💻";
        color = "#22d3ee";
        cypher = "MATCH (f:File) WHERE f.file_category = 'code' AND f.tenant_id = $tid RETURN f";
        columns =
            base
            ++ (column "code_language" "Language" 100 "badge"
                ∷ column "line_count" "Lines" 70 "num"
                ∷ column "contains_secrets" "Secrets" 80 "bool"
                ∷ []);
        tags = "code" ∷ [];
        parent_id = none;
      })
      (more code_python (
        more code_javascript (
          more code_go (
            more code_rust (
              more code_java (
                more code_csharp
                  (more code_shell (more code_config (more code_sql (no_more))))))))))
