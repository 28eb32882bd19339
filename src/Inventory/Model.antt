-- ===== src/Inventory/Model.antt =====
-- The categories of src/dgraphai/inventory/taxonomy.py: `Column`, `Category`, and the columns that all
-- files have. A category's subcategories stand beside its other fields. `default_filters`, which
-- nothing sets, is left out.
use dgraphai.Prelude.{List, Option, String, [], ℕ, ◌∷◌}

pub record Column : Type 0 where
  pub key : String
  pub label : String
  pub width : ℕ
  pub kind : String

pub record Details : Type 0 where
  pub id : String
  pub name : String
  pub description : String
  pub group : String
  pub icon : String
  pub color : String
  pub cypher : String
  pub columns : List Column
  pub tags : List String
  pub parent_id : Option String

mutual
  pub data Category : Type 0 where
    category : Details → Categories → Category

  pub data Categories : Type 0 where
    no_more : Categories
    more : Category → Categories → Categories

abbrev pub details : Category → Details
details (category d cs) = d

abbrev pub column : String → String → ℕ → String → Column
column key label width kind = record { key = key; label = label; width = width; kind = kind }

abbrev pub base : List Column
base =
    column "name" "Name" 220 "text"
    ∷ column "path" "Path" 300 "path"
    ∷ column "size" "Size" 80 "size"
    ∷ column "modified_at" "Modified" 130 "date"
    ∷ column "source_connector" "Source" 120 "badge"
    ∷ []
