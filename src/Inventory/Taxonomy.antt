-- ===== src/Inventory/Taxonomy.antt =====
-- `INVENTORY`, the categories of src/dgraphai/inventory/taxonomy.py, one file for a group of them,
-- with the flat list and the index.
mod Video
mod Audio
mod Images
mod Documents
mod Email
mod Code
mod Software
mod Archives
mod Security
mod Design
mod Productivity
mod People
mod Applications
mod Storage
use dgraphai.Inventory.Taxonomy.Video.{video}
use dgraphai.Inventory.Taxonomy.Audio.{audio}
use dgraphai.Inventory.Taxonomy.Images.{images}
use dgraphai.Inventory.Taxonomy.Documents.{documents}
use dgraphai.Inventory.Taxonomy.Email.{emails}
use dgraphai.Inventory.Taxonomy.Code.{code}
use dgraphai.Inventory.Taxonomy.Software.{executables}
use dgraphai.Inventory.Taxonomy.Archives.{archives}
use dgraphai.Inventory.Taxonomy.Security.{certificates}
use dgraphai.Inventory.Taxonomy.Design.{models_3d}
use dgraphai.Inventory.Taxonomy.Productivity.{calendar_contacts}
use dgraphai.Inventory.Taxonomy.People.{people}
use dgraphai.Inventory.Taxonomy.Applications.{applications}
use dgraphai.Inventory.Taxonomy.Storage.{duplicates, directories}
use dgraphai.Inventory.Model.{Categories, Category, category, details, more, no_more}
use dgraphai.Prelude.{List, Option, String, [], ◌++◌, ◌∷◌}
use dgraphai.Prelude.Dict.{insert, lookup}

abbrev pub inventory : List Category
inventory =
    video ∷ audio ∷ images ∷ documents ∷ emails ∷ code ∷ executables ∷ archives ∷ certificates
    ∷ models_3d ∷ calendar_contacts ∷ people ∷ applications ∷ duplicates ∷ directories ∷ []

abbrev pub flatten_subcategories : Categories → List Category
flatten_subcategories no_more = []
flatten_subcategories (more (category d cs) rest) =
    category d cs ∷ (flatten_subcategories cs ++ flatten_subcategories rest)

-- `_flatten`
abbrev pub flatten : List Category → List Category
flatten [] = []
flatten (category d cs ∷ cats) = category d cs ∷ (flatten_subcategories cs ++ flatten cats)

abbrev pub all_categories : List Category
all_categories = flatten inventory

-- `{c.id: c for c in cats}`, which adds to the dictionary `d`
abbrev pub index : List Category → List (String × Category) → List (String × Category)
index [] d = d
index (c ∷ cats) d = index cats (insert (details c).id c d)

unfoldable pub category_index : List (String × Category)
category_index = index all_categories []

unfoldable pub get_category : String → Option Category
get_category cid = lookup cid category_index
