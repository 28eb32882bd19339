-- ===== src/Licensing/License/Verify.antt =====
-- `sign_license` and `verify_license`. Base64, JSON and Ed25519 are not the program's: their
-- functions are the fields of `Crypto`, and what the program relies on is `CryptoLaws`.
use dgraphai.Licensing.License.{License, is_expired, is_in_grace_period, is_valid}
use dgraphai.Licensing.License.Payload.{
  Iso, IsoLaws, Payload, license_to_payload, payload_to_license,
}
use dgraphai.Prelude.{
  Bool, List, Option, String, any, false, none, not, some, str_eq, true, ℕ, ◌&&◌, ◌≡◌,
}

pub record Crypto : Type 1 where
  pub iso : Iso
  -- texts, byte strings, and loaded keys
  pub Text : Type 0
  pub Bytes : Type 0
  pub PrivateKey : Type 0
  pub PublicKey : Type 0
  pub b64encode : Bytes → Text
  pub b64decode : Text → Option Bytes
  -- `json.dumps` and `json.loads`, of a payload and of the file's `payload` and `signature`
  pub dump_payload : Payload iso.D → Bytes
  pub load_payload : Bytes → Option (Payload iso.D)
  pub dump_file : Text → Text → Bytes
  pub load_file : Bytes → Option (Text × Text)
  pub load_private_key : Text → Option PrivateKey
  pub load_public_key : Text → Option PublicKey
  pub sign : PrivateKey → Bytes → Bytes
  pub verify : PublicKey → Bytes → Bytes → Bool

-- Encoders are undone by their decoders.
pub record CryptoLaws (c : Crypto) : Type 0 where
  pub iso_laws : IsoLaws c.iso
  pub decode-encode : (b : c.Bytes) → c.b64decode (c.b64encode b) ≡ some b
  pub load-dump_payload : (p : Payload c.iso.D) → c.load_payload (c.dump_payload p) ≡ some p
  pub load-dump_file : (s t : c.Text) → c.load_file (c.dump_file s t) ≡ some (s, t)

-- A PEM text holds the public key of another's private key: it accepts every signature made with
-- that.
pub record Matches (c : Crypto) (public_pem private_pem : c.Text) : Type 0 where
  pub private_key : c.PrivateKey
  pub public_key : c.PublicKey
  pub loads_private : c.load_private_key private_pem ≡ some private_key
  pub loads_public : c.load_public_key public_pem ≡ some public_key
  pub accepts : (b : c.Bytes) → c.verify public_key (c.sign private_key b) b ≡ true

-- `bad_format`, `bad_signature`, `other_machine` and `expired` are the `LicenseError`s;
-- `unreadable` is any other exception, from a signed payload that is no licence.
pub data LicenseError : Type 0 where
  bad_format bad_signature other_machine expired unreadable : LicenseError

pub data Result {ℓ} (A : Type ℓ) : Type ℓ where
  ok : A → Result A
  err : LicenseError → Result A

infixl 5 ◌>>=◌ ◌>>◌
abbrev pub ◌>>=◌ : {A B : Type 0} → Result A → (A → Result B) → Result B
ok a >>= f = f a
err e >>= f = err e

abbrev pub ◌>>◌ : {B : Type 0} → Result (Unit {0}) → Result B → Result B
m >> k = m >>= λ _. k

abbrev pub or_raise : {A : Type 0} → Option A → LicenseError → Result A
or_raise none e = err e
or_raise (some a) e = ok a

abbrev pub raise_if : Bool → LicenseError → Result (Unit {0})
raise_if true e = err e
raise_if false e = ok tt

module _ (c : Crypto) where
  -- the licence file, once the private key is loaded
  unfoldable pub signed_file : License → c.PrivateKey → c.Text
  signed_file l private_key =
      let payload_bytes = c.dump_payload (license_to_payload c.iso l) in
      c.b64encode
        (c.dump_file (c.b64encode payload_bytes) (c.b64encode (c.sign private_key payload_bytes)))

  unfoldable pub sign_license : License → c.Text → Option c.Text
  sign_license l private_key_pem = elim (c.load_private_key private_key_pem) [
    | none ↦ none
    | some private_key ↦ some (signed_file l private_key)
  ]

  -- the body of the loop over the trusted keys: an exception is a `continue`
  unfoldable pub key_accepts : c.Bytes → c.Bytes → c.Text → Bool
  key_accepts signature payload_bytes key_pem = elim (c.load_public_key key_pem) [
    | none ↦ false
    | some public_key ↦ c.verify public_key signature payload_bytes
  ]

  -- The bytes of the payload and of the signature.
  unfoldable pub open_file : c.Text → Option (c.Bytes × c.Bytes)
  open_file license_b64 = elim (c.b64decode license_b64) [
    | none ↦ none
    | some file ↦ elim (c.load_file file) [
      | none ↦ none
      | some (payload, signature) ↦ elim (c.b64decode payload) [
        | none ↦ none
        | some p ↦ elim (c.b64decode signature) [ none ↦ none | some s ↦ some (p, s) ]
      ]
    ]
  ]

  unfoldable pub read_license : c.Bytes → Option License
  read_license bytes = elim (c.load_payload bytes) [
    | none ↦ none
    | some p ↦ payload_to_license c.iso p
  ]

  -- `if license.hardware_fingerprint:`, for which an empty text is false
  unfoldable pub bound_elsewhere : String → License → Bool
  bound_elsewhere current_fp l = elim l.hardware_fingerprint [
    | none ↦ false
    | some fp ↦ not (str_eq fp "") && not (str_eq current_fp fp)
  ]

  -- `trusted` is `TRUSTED_PUBLIC_KEYS_PEM`, `current_fp` is `get_hardware_fingerprint()`.
  unfoldable pub verify_license : List c.Text → String → ℕ → c.Text → Result License
  verify_license trusted current_fp now license_b64 = do
    parts ← or_raise (open_file license_b64) bad_format
    raise_if (not (any (key_accepts parts.1 parts.0) trusted)) bad_signature
    l ← or_raise (read_license parts.0) unreadable
    raise_if (bound_elsewhere current_fp l) other_machine
    raise_if (not (is_valid now l) && is_expired now l && not (is_in_grace_period now l)) expired
    ok l
