-- ===== src/Inventory/Tests.antt =====
-- Lookups in the taxonomy.
use dgraphai.Inventory.Groups.{get_by_group, get_by_group_lem, listed, of_group}
use dgraphai.Inventory.Taxonomy.{inventory}
use dgraphai.Inventory.Taxonomy.{all_categories, category_index, get_category}
use dgraphai.Prelude.{false, some}
use dgraphai.Inventory.Tenants.{is_scoped, Found, absent, get_category_lem}
use dgraphai.Prelude.{length, none, refl, true, ◌≡◌, ◌⊎◌}

get_category_lem_example :
    ((get_category "video-mkv" ≡ none) × (absent "video-mkv" all_categories ≡ true))
    ⊎ Found "video-mkv" (get_category "video-mkv")
get_category_lem_example = get_category_lem "video-mkv"

sixty_eight : length all_categories ≡ 68
sixty_eight = refl

no_category : get_category "video-avi2" ≡ none
unfolding get_category category_index
no_category = refl

-- the private keys of every tenant
unscoped_keys : (elim (get_category "certs-keys") [ none ↦ true | some c ↦ is_scoped c ]) ≡ false
unfolding get_category category_index
unscoped_keys = refl

get_by_group_lem_example : listed "Video" get_by_group ≡ of_group "Video" inventory
get_by_group_lem_example = get_by_group_lem "Video"
