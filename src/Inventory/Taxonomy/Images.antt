-- ===== src/Inventory/Taxonomy/Images.antt =====
-- The categories of the group "Images" in src/dgraphai/inventory/taxonomy.py.
use dgraphai.Inventory.Model.{Category, base, category, column, more, no_more}
use dgraphai.Prelude.{[], none, some, ◌++◌, ◌∷◌}

abbrev images_jpeg : Category
images_jpeg =
    category
      (record {
        id = "images-jpeg";
        name = "JPEG";
        description = "JPEG image files (.jpg, .jpeg) — most common photo format";
        group = "Images";
        icon = "📷";
        color = "#10b981";
        cypher =
            "MATCH (f:File) WHERE f.file_category = 'image' AND f.extension IN ['.jpg','.jpeg'] AND f.tenant_id = $tid RETURN f";
        columns =
            base
            ++ (column "width" "W" 55 "num"
                ∷ column "height" "H" 55 "num"
                ∷ column "camera_model" "Camera" 130 "text"
                ∷ column "datetime_original" "Taken" 130 "date"
                ∷ []);
        tags = "images" ∷ "jpeg" ∷ [];
        parent_id = some "images";
      })
      no_more

abbrev images_png : Category
images_png =
    category
      (record {
        id = "images-png";
        name = "PNG";
        description = "Portable Network Graphics (.png) — lossless, supports transparency";
        group = "Images";
        icon = "🖼\u{fe0f}";
        color = "#34d399";
        cypher =
            "MATCH (f:File) WHERE f.file_category = 'image' AND f.extension = '.png' AND f.tenant_id = $tid RETURN f";
        columns =
            base
            ++ (column "width" "W" 55 "num"
                ∷ column "height" "H" 55 "num"
                ∷ column "bit_depth" "Bit Depth" 80 "num"
                ∷ []);
        tags = "images" ∷ "png" ∷ [];
        parent_id = some "images";
      })
      no_more

abbrev images_raw : Category
images_raw =
    category
      (record {
        id = "images-raw";
        name = "RAW / HEIF";
        description = "Camera RAW files and HEIF — maximum quality, unprocessed sensor data";
        group = "Images";
        icon = "📸";
        color = "#059669";
        cypher =
            "MATCH (f:File) WHERE f.file_category = 'image' AND f.extension IN ['.cr2','.nef','.arw','.raf','.dng','.heic','.heif','.rw2'] AND f.tenant_id = $tid RETURN f";
        columns =
            base
            ++ (column "camera_make" "Make" 90 "text"
                ∷ column "camera_model" "Camera" 130 "text"
                ∷ column "focal_length" "Focal (mm)" 90 "num"
                ∷ column "iso" "ISO" 60 "num"
                ∷ column "aperture" "f/" 60 "num"
                ∷ []);
        tags = "images" ∷ "raw" ∷ "heic" ∷ "camera" ∷ [];
        parent_id = some "images";
      })
      no_more

abbrev images_tiff : Category
images_tiff =
    category
      (record {
        id = "images-tiff";
        name = "TIFF / BMP";
        description = "TIFF and BMP format — lossless, high bit depth";
        group = "Images";
        icon = "🖼\u{fe0f}";
        color = "#047857";
        cypher =
            "MATCH (f:File) WHERE f.file_category = 'image' AND f.extension IN ['.tiff','.tif','.bmp'] AND f.tenant_id = $tid RETURN f";
        columns =
            base
            ++ (column "width" "W" 55 "num"
                ∷ column "height" "H" 55 "num"
                ∷ column "bit_depth" "Bit Depth" 80 "num"
                ∷ column "color_profile" "Profile" 100 "badge"
                ∷ []);
        tags = "images" ∷ "tiff" ∷ "bmp" ∷ [];
        parent_id = some "images";
      })
      no_more

abbrev images_webp : Category
images_webp =
    category
      (record {
        id = "images-webp";
        name = "WebP / GIF";
        description = "Web image formats (.webp, .gif, .avif)";
        group = "Images";
        icon = "🌐";
        color = "#6ee7b7";
        cypher =
            "MATCH (f:File) WHERE f.file_category = 'image' AND f.extension IN ['.webp','.gif','.avif'] AND f.tenant_id = $tid RETURN f";
        columns = base ++ (column "width" "W" 55 "num" ∷ column "height" "H" 55 "num" ∷ []);
        tags = "images" ∷ "webp" ∷ "gif" ∷ "web" ∷ [];
        parent_id = some "images";
      })
      no_more

abbrev pub images : Category
images =
    category
      (record {
        id = "images";
        name = "Images";
        description = "All image and photo files";
        group = "Images";
        icon = "🖼\u{fe0f}";
        color = "#34d399";
        cypher = "MATCH (f:File) WHERE f.file_category = 'image' AND f.tenant_id = $tid RETURN f";
        columns =
            base
            ++ (column "width" "W" 55 "num"
                ∷ column "height" "H" 55 "num"
                ∷ column "camera_model" "Camera" 130 "text"
                ∷ column "datetime_original" "Taken" 130 "date"
                ∷ column "gps_latitude" "Lat" 70 "num"
                ∷ []);
        tags = "media" ∷ "images" ∷ [];
        parent_id = none;
      })
      (more images_jpeg
        (more images_png (more images_raw (more images_tiff (more images_webp (no_more))))))
