-- ===== src/Inventory/Taxonomy/Security.antt =====
-- The categories of the group "Security" in src/dgraphai/inventory/taxonomy.py.
use dgraphai.Inventory.Model.{Category, base, category, column, more, no_more}
use dgraphai.Prelude.{[], none, some, ◌++◌, ◌∷◌}

abbrev certs_pem : Category
certs_pem =
    category
      (record {
        id = "certs-pem";
        name = "PEM / CRT";
        description = "PEM-encoded certificates (.pem, .crt, .cer)";
        group = "Security";
        icon = "🏅";
        color = "#22c55e";
        cypher =
            "MATCH (f:File) WHERE f.extension IN ['.pem','.crt','.cer'] AND f.tenant_id = $tid RETURN f";
        columns =
            base
            ++ (column "cert_subject" "Subject" 200 "text"
                ∷ column "cert_valid_to" "Expires" 130 "date"
                ∷ column "cert_is_expired" "Expired" 80 "bool"
                ∷ column "is_ca" "Is CA" 70 "bool"
                ∷ []);
        tags = "certificates" ∷ "pem" ∷ [];
        parent_id = some "certificates";
      })
      no_more

abbrev certs_pkcs12 : Category
certs_pkcs12 =
    category
      (record {
        id = "certs-pkcs12";
        name = "PKCS#12 / PFX";
        description = "PKCS#12 bundles — certificate + private key (.p12, .pfx)";
        group = "Security";
        icon = "🔐";
        color = "#16a34a";
        cypher =
            "MATCH (f:File) WHERE f.extension IN ['.p12','.pfx'] AND f.tenant_id = $tid RETURN f";
        columns =
            base
            ++ (column "cert_subject" "Subject" 200 "text"
                ∷ column "cert_valid_to" "Expires" 130 "date"
                ∷ []);
        tags = "certificates" ∷ "pkcs12" ∷ "pfx" ∷ [];
        parent_id = some "certificates";
      })
      no_more

abbrev certs_keys : Category
certs_keys =
    category
      (record {
        id = "certs-keys";
        name = "Private Keys (.key)";
        description = "Standalone private key files (.key, .der)";
        group = "Security";
        icon = "🔑";
        color = "#15803d";
        cypher =
            "MATCH (f:File) WHERE f.extension IN ['.key','.der'] OR f.file_category = 'private_key' AND f.tenant_id = $tid RETURN f";
        columns =
            base
            ++ (column "key_type" "Key Type" 100 "badge"
                ∷ column "key_bits" "Key Size" 80 "num"
                ∷ column "passphrase_protected" "Protected" 90 "bool"
                ∷ []);
        tags = "certificates" ∷ "keys" ∷ "private-key" ∷ [];
        parent_id = some "certificates";
      })
      no_more

abbrev pub certificates : Category
certificates =
    category
      (record {
        id = "certificates";
        name = "Certificates & Keys";
        description = "TLS certificates, CA certificates, and private keys";
        group = "Security";
        icon = "🏅";
        color = "#4ade80";
        cypher =
            "MATCH (f:File) WHERE f.file_category IN ['certificate','private_key'] AND f.tenant_id = $tid RETURN f";
        columns =
            base
            ++ (column "cert_subject" "Subject" 200 "text"
                ∷ column "cert_issuer" "Issuer" 160 "text"
                ∷ column "cert_valid_to" "Expires" 130 "date"
                ∷ column "cert_is_expired" "Expired" 80 "bool"
                ∷ column "days_until_expiry" "Days Left" 80 "num"
                ∷ []);
        tags = "certificates" ∷ "security" ∷ [];
        parent_id = none;
      })
      (more certs_pem (more certs_pkcs12 (more certs_keys (no_more))))
