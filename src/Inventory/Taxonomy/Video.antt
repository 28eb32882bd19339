-- ===== src/Inventory/Taxonomy/Video.antt =====
-- The categories of the group "Video" in src/dgraphai/inventory/taxonomy.py.
use dgraphai.Inventory.Model.{Category, base, category, column, more, no_more}
use dgraphai.Prelude.{[], none, some, ◌++◌, ◌∷◌}

abbrev video_mkv : Category
video_mkv =
    category
      (record {
        id = "video-mkv";
        name = "MKV";
        description = "Matroska video files (.mkv) — common for high-quality encodes";
        group = "Video";
        icon = "🎞\u{fe0f}";
        color = "#4f8ef7";
        cypher =
            "MATCH (f:File) WHERE f.file_category = 'video' AND f.extension = '.mkv' AND f.tenant_id = $tid RETURN f";
        columns =
            base
            ++ (column "video_codec" "Codec" 80 "badge"
                ∷ column "height" "Res" 60 "num"
                ∷ column "hdr_format" "HDR" 80 "badge"
                ∷ column "duration_secs" "Duration" 90 "num"
                ∷ []);
        tags = "video" ∷ "mkv" ∷ [];
        parent_id = some "video";
      })
      no_more

abbrev video_mp4 : Category
video_mp4 =
    category
      (record {
        id = "video-mp4";
        name = "MP4";
        description = "MPEG-4 video files (.mp4, .m4v)";
        group = "Video";
        icon = "🎞\u{fe0f}";
        color = "#60a5fa";
        cypher =
            "MATCH (f:File) WHERE f.file_category = 'video' AND f.extension IN ['.mp4','.m4v'] AND f.tenant_id = $tid RETURN f";
        columns =
            base
            ++ (column "video_codec" "Codec" 80 "badge"
                ∷ column "height" "Res" 60 "num"
                ∷ column "duration_secs" "Duration" 90 "num"
                ∷ []);
        tags = "video" ∷ "mp4" ∷ [];
        parent_id = some "video";
      })
      no_more

abbrev video_ts : Category
video_ts =
    category
      (record {
        id = "video-ts";
        name = "Transport Stream";
        description = "Transport stream files (.ts, .m2ts) — typically broadcast or Blu-ray";
        group = "Video";
        icon = "📡";
        color = "#818cf8";
        cypher =
            "MATCH (f:File) WHERE f.file_category = 'video' AND f.extension IN ['.ts','.m2ts','.mts'] AND f.tenant_id = $tid RETURN f";
        columns =
            base
            ++ (column "video_codec" "Codec" 80 "badge"
                ∷ column "height" "Res" 60 "num"
                ∷ column "duration_secs" "Duration" 90 "num"
                ∷ []);
        tags = "video" ∷ "ts" ∷ "broadcast" ∷ [];
        parent_id = some "video";
      })
      no_more

abbrev video_mov : Category
video_mov =
    category
      (record {
        id = "video-mov";
        name = "MOV / QuickTime";
        description = "Apple QuickTime video files (.mov)";
        group = "Video";
        icon = "🎞\u{fe0f}";
        color = "#a78bfa";
        cypher =
            "MATCH (f:File) WHERE f.file_category = 'video' AND f.extension = '.mov' AND f.tenant_id = $tid RETURN f";
        columns =
            base
            ++ (column "video_codec" "Codec" 80 "badge"
                ∷ column "height" "Res" 60 "num"
                ∷ column "duration_secs" "Duration" 90 "num"
                ∷ []);
        tags = "video" ∷ "mov" ∷ "quicktime" ∷ [];
        parent_id = some "video";
      })
      no_more

abbrev video_avi : Category
video_avi =
    category
      (record {
        id = "video-avi";
        name = "AVI";
        description = "Audio Video Interleave files (.avi)";
        group = "Video";
        icon = "🎞\u{fe0f}";
        color = "#6366f1";
        cypher =
            "MATCH (f:File) WHERE f.file_category = 'video' AND f.extension = '.avi' AND f.tenant_id = $tid RETURN f";
        columns =
            base
            ++ (column "video_codec" "Codec" 80 "badge"
                ∷ column "height" "Res" 60 "num"
                ∷ column "duration_secs" "Duration" 90 "num"
                ∷ []);
        tags = "video" ∷ "avi" ∷ [];
        parent_id = some "video";
      })
      no_more

abbrev video_wmv : Category
video_wmv =
    category
      (record {
        id = "video-wmv";
        name = "WMV / ASF";
        description = "Windows Media Video files (.wmv, .asf)";
        group = "Video";
        icon = "🎞\u{fe0f}";
        color = "#7c3aed";
        cypher =
            "MATCH (f:File) WHERE f.file_category = 'video' AND f.extension IN ['.wmv','.asf'] AND f.tenant_id = $tid RETURN f";
        columns =
            base ++ (column "video_codec" "Codec" 80 "badge" ∷ column "height" "Res" 60 "num" ∷ []);
        tags = "video" ∷ "wmv" ∷ "windows" ∷ [];
        parent_id = some "video";
      })
      no_more

abbrev video_webm : Category
video_webm =
    category
      (record {
        id = "video-webm";
        name = "WebM / FLV";
        description = "Web video formats (.webm, .flv)";
        group = "Video";
        icon = "🌐";
        color = "#4f46e5";
        cypher =
            "MATCH (f:File) WHERE f.file_category = 'video' AND f.extension IN ['.webm','.flv'] AND f.tenant_id = $tid RETURN f";
        columns =
            base
            ++ (column "video_codec" "Codec" 80 "badge"
                ∷ column "height" "Res" 60 "num"
                ∷ column "duration_secs" "Duration" 90 "num"
                ∷ []);
        tags = "video" ∷ "webm" ∷ "web" ∷ [];
        parent_id = some "video";
      })
      no_more

abbrev pub video : Category
video =
    category
      (record {
        id = "video";
        name = "Video";
        description = "All video files across your connected sources";
        group = "Video";
        icon = "🎬";
        color = "#4f8ef7";
        cypher = "MATCH (f:File) WHERE f.file_category = 'video' AND f.tenant_id = $tid RETURN f";
        columns =
            base
            ++ (column "video_codec" "Codec" 80 "badge"
                ∷ column "height" "Resolution" 90 "num"
                ∷ column "hdr_format" "HDR" 80 "badge"
                ∷ column "duration_secs" "Duration" 90 "num"
                ∷ column "audio_codec" "Audio" 80 "badge"
                ∷ column "container_format" "Container" 110 "badge"
                ∷ []);
        tags = "media" ∷ "video" ∷ [];
        parent_id = none;
      })
      (more video_mkv (
        more video_mp4 (
          more video_ts
            (more video_mov (more video_avi (more video_wmv (more video_webm (no_more))))))))
