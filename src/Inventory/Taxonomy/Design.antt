-- ===== src/Inventory/Taxonomy/Design.antt =====
-- The categories of the group "Design & Engineering" in src/dgraphai/inventory/taxonomy.py.
use dgraphai.Inventory.Model.{Category, base, category, column, more, no_more}
use dgraphai.Prelude.{[], none, some, ◌++◌, ◌∷◌}

abbrev 3d_stl : Category
3d_stl =
    category
      (record {
        id = "3d-stl";
        name = "STL / OBJ";
        description = "3D mesh formats — STL and OBJ";
        group = "Design & Engineering";
        icon = "🧊";
        color = "#22d3ee";
        cypher =
            "MATCH (f:File) WHERE f.extension IN ['.stl','.obj'] AND f.tenant_id = $tid RETURN f";
        columns = base ++ (column "extension" "Format" 80 "badge" ∷ []);
        tags = "3d" ∷ "stl" ∷ "obj" ∷ [];
        parent_id = some "3d-models";
      })
      no_more

abbrev 3d_cad : Category
3d_cad =
    category
      (record {
        id = "3d-cad";
        name = "CAD (.dwg / .dxf / .step)";
        description = "Engineering CAD formats — DWG, DXF, STEP, IGES";
        group = "Design & Engineering";
        icon = "📐";
        color = "#06b6d4";
        cypher =
            "MATCH (f:File) WHERE f.extension IN ['.dwg','.dxf','.step','.stp','.iges','.igs'] AND f.tenant_id = $tid RETURN f";
        columns = base ++ (column "extension" "Format" 80 "badge" ∷ []);
        tags = "3d" ∷ "cad" ∷ "engineering" ∷ [];
        parent_id = some "3d-models";
      })
      no_more

abbrev 3d_blend : Category
3d_blend =
    category
      (record {
        id = "3d-blend";
        name = "Blender / FBX";
        description = "3D scene formats — Blender, FBX, COLLADA";
        group = "Design & Engineering";
        icon = "🎨";
        color = "#0e7490";
        cypher =
            "MATCH (f:File) WHERE f.extension IN ['.blend','.fbx','.dae','.glb','.gltf'] AND f.tenant_id = $tid RETURN f";
        columns = base ++ (column "extension" "Format" 80 "badge" ∷ []);
        tags = "3d" ∷ "blender" ∷ "fbx" ∷ [];
        parent_id = some "3d-models";
      })
      no_more

abbrev pub models_3d : Category
models_3d =
    category
      (record {
        id = "3d-models";
        name = "3D Models & CAD";
        description = "3D models, CAD drawings, and engineering files";
        group = "Design & Engineering";
        icon = "🧊";
        color = "#67e8f9";
        cypher =
            "MATCH (f:File) WHERE f.file_category = '3d_model' AND f.tenant_id = $tid RETURN f";
        columns = base ++ (column "extension" "Format" 80 "badge" ∷ []);
        tags = "3d" ∷ "cad" ∷ "design" ∷ [];
        parent_id = none;
      })
      (more 3d_stl (more 3d_cad (more 3d_blend (no_more))))
