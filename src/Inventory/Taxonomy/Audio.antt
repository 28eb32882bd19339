-- ===== src/Inventory/Taxonomy/Audio.antt =====
-- The categories of the group "Audio" in src/dgraphai/inventory/taxonomy.py.
use dgraphai.Inventory.Model.{Category, base, category, column, more, no_more}
use dgraphai.Prelude.{[], none, some, ◌++◌, ◌∷◌}

abbrev audio_flac : Category
audio_flac =
    category
      (record {
        id = "audio-flac";
        name = "FLAC";
        description = "Free Lossless Audio Codec — lossless quality";
        group = "Audio";
        icon = "💎";
        color = "#8b5cf6";
        cypher =
            "MATCH (f:File) WHERE f.file_category = 'audio' AND f.extension = '.flac' AND f.tenant_id = $tid RETURN f";
        columns =
            base
            ++ (column "artist" "Artist" 130 "text"
                ∷ column "album" "Album" 130 "text"
                ∷ column "bit_depth" "Bit Depth" 80 "num"
                ∷ column "sample_rate" "Sample Rate" 90 "num"
                ∷ []);
        tags = "audio" ∷ "flac" ∷ "lossless" ∷ [];
        parent_id = some "audio";
      })
      no_more

abbrev audio_mp3 : Category
audio_mp3 =
    category
      (record {
        id = "audio-mp3";
        name = "MP3";
        description = "MPEG Layer III audio files (.mp3)";
        group = "Audio";
        icon = "🎵";
        color = "#c084fc";
        cypher =
            "MATCH (f:File) WHERE f.file_category = 'audio' AND f.extension = '.mp3' AND f.tenant_id = $tid RETURN f";
        columns =
            base
            ++ (column "artist" "Artist" 130 "text"
                ∷ column "album" "Album" 130 "text"
                ∷ column "overall_bitrate" "Bitrate" 80 "num"
                ∷ column "title" "Title" 160 "text"
                ∷ []);
        tags = "audio" ∷ "mp3" ∷ [];
        parent_id = some "audio";
      })
      no_more

abbrev audio_aac : Category
audio_aac =
    category
      (record {
        id = "audio-aac";
        name = "AAC / M4A";
        description = "Advanced Audio Coding files (.aac, .m4a)";
        group = "Audio";
        icon = "🎵";
        color = "#a78bfa";
        cypher =
            "MATCH (f:File) WHERE f.file_category = 'audio' AND f.extension IN ['.aac','.m4a'] AND f.tenant_id = $tid RETURN f";
        columns =
            base
            ++ (column "artist" "Artist" 130 "text"
                ∷ column "album" "Album" 130 "text"
                ∷ column "overall_bitrate" "Bitrate" 80 "num"
                ∷ []);
        tags = "audio" ∷ "aac" ∷ "m4a" ∷ [];
        parent_id = some "audio";
      })
      no_more

abbrev audio_wav : Category
audio_wav =
    category
      (record {
        id = "audio-wav";
        name = "WAV";
        description = "Uncompressed PCM audio (.wav) — lossless, large files";
        group = "Audio";
        icon = "🔊";
        color = "#7c3aed";
        cypher =
            "MATCH (f:File) WHERE f.file_category = 'audio' AND f.extension = '.wav' AND f.tenant_id = $tid RETURN f";
        columns =
            base
            ++ (column "bit_depth" "Bit Depth" 80 "num"
                ∷ column "sample_rate" "Sample Rate" 90 "num"
                ∷ column "duration_secs" "Duration" 90 "num"
                ∷ []);
        tags = "audio" ∷ "wav" ∷ "lossless" ∷ [];
        parent_id = some "audio";
      })
      no_more

abbrev audio_dsd : Category
audio_dsd =
    category
      (record {
        id = "audio-dsd";
        name = "DSD / SACD";
        description = "Direct Stream Digital high-resolution audio (.dsf, .dff)";
        group = "Audio";
        icon = "💿";
        color = "#6d28d9";
        cypher =
            "MATCH (f:File) WHERE f.file_category = 'audio' AND f.extension IN ['.dsf','.dff'] AND f.tenant_id = $tid RETURN f";
        columns =
            base
            ++ (column "sample_rate" "Sample Rate" 90 "num"
                ∷ column "artist" "Artist" 130 "text"
                ∷ column "album" "Album" 130 "text"
                ∷ []);
        tags = "audio" ∷ "dsd" ∷ "lossless" ∷ "hifi" ∷ [];
        parent_id = some "audio";
      })
      no_more

abbrev audio_opus : Category
audio_opus =
    category
      (record {
        id = "audio-opus";
        name = "Opus / OGG";
        description = "Open source audio formats (.opus, .ogg, .oga)";
        group = "Audio";
        icon = "🎵";
        color = "#9333ea";
        cypher =
            "MATCH (f:File) WHERE f.file_category = 'audio' AND f.extension IN ['.opus','.ogg','.oga'] AND f.tenant_id = $tid RETURN f";
        columns =
            base
            ++ (column "artist" "Artist" 130 "text"
                ∷ column "album" "Album" 130 "text"
                ∷ column "overall_bitrate" "Bitrate" 80 "num"
                ∷ []);
        tags = "audio" ∷ "opus" ∷ "ogg" ∷ [];
        parent_id = some "audio";
      })
      no_more

abbrev pub audio : Category
audio =
    category
      (record {
        id = "audio";
        name = "Audio";
        description = "All audio files — music, podcasts, recordings";
        group = "Audio";
        icon = "🎵";
        color = "#a78bfa";
        cypher = "MATCH (f:File) WHERE f.file_category = 'audio' AND f.tenant_id = $tid RETURN f";
        columns =
            base
            ++ (column "audio_codec" "Format" 80 "badge"
                ∷ column "artist" "Artist" 140 "text"
                ∷ column "album" "Album" 140 "text"
                ∷ column "duration_secs" "Duration" 90 "num"
                ∷ column "sample_rate" "Sample Rate" 90 "num"
                ∷ column "bit_depth" "Bit Depth" 80 "num"
                ∷ []);
        tags = "media" ∷ "audio" ∷ [];
        parent_id = none;
      })
      (more audio_flac (
        more audio_mp3
          (more audio_aac (more audio_wav (more audio_dsd (more audio_opus (no_more)))))))
