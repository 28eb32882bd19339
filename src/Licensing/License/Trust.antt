-- ===== src/Licensing/License/Trust.antt =====
-- What a verified licence guarantees, and which licences verify.
use dgraphai.Licensing.License.Verify.{Result, signed_file}
use dgraphai.Licensing.License.Payload.{license_to_payload}
use dgraphai.Licensing.License.Payload.Roundtrip.{payload_to_license-license_to_payload}
use dgraphai.Licensing.License.Verify.{
  CryptoLaws, Matches, bound_elsewhere, err, expired, ok, open_file, other_machine, read_license,
  sign_license, verify_license,
}
use dgraphai.Prelude.{Bool-cases, Option-cases, String, false, if◌then◌else◌, inl, inr, ◌++◌}
use dgraphai.Licensing.License.{License, is_expired, is_in_grace_period, is_valid}
use dgraphai.Licensing.License.Verify.{Crypto, key_accepts}
use dgraphai.Prelude.{Bool, List, [], any, arith, not, some, true, ℕ, ◌&&◌, ◌∷◌, ◌≡◌, ◌⊎◌}

any-middle {ℓ} :
    {A : Type ℓ} (p : A → Bool) (xs ys : List A) (x : A) → p x ≡ true → any p (xs ++ x ∷ ys) ≡ true
any-middle p [] ys x h = ground arith
any-middle p (y ∷ xs) ys x h = ground (arith, any-middle p xs ys x h)

-- a key of the list that accepts
abbrev pub Accepted : (c : Crypto) → List c.Text → c.Bytes → c.Bytes → Type 0
Accepted c [] signature bytes = ⊥
Accepted c (k ∷ ks) signature bytes =
    ((key : c.PublicKey) × (c.load_public_key k ≡ some key) × (c.verify key signature bytes ≡ true))
    ⊎ Accepted c ks signature bytes

module _ (c : Crypto) where
  key_accepts-loads :
      (signature bytes : c.Bytes) (k : c.Text)
      → key_accepts c signature bytes k ≡ true
      → (key : c.PublicKey) × (c.load_public_key k ≡ some key)
        × (c.verify key signature bytes ≡ true)
  unfolding key_accepts
  key_accepts-loads s b k h = elim (Option-cases (c.load_public_key k)) [
    | inl e ↦ cc (rw (e, key_accepts) at h)
    | inr (key, e) ↦ (key, e, ground arith)
  ]

  any-Accepted :
      (trusted : List c.Text) (signature bytes : c.Bytes)
      → any (key_accepts c signature bytes) trusted ≡ true
      → Accepted c trusted signature bytes
  any-Accepted [] s b h = cc
  any-Accepted (k ∷ ks) s b h = elim (Bool-cases (key_accepts c s b k)) [
    | inl t ↦ inl (key_accepts-loads s b k t)
    | inr f ↦ inr (any-Accepted ks s b (ground arith))
  ]

  expiry_check :
      (now : ℕ) (l : License)
      → (not (is_valid now l) && is_expired now l && not (is_in_grace_period now l))
        ≡ not (is_valid now l)
  unfolding is_valid
  expiry_check now l = ground arith

-- What `verify_license` returns was signed: the file opens to a payload and a signature that a
-- trusted key accepts, the payload reads as the returned licence, the licence is not bound to
-- another machine, and it is valid at the time of the call.
pub verify_license_sound :
    (c : Crypto) (trusted : List c.Text) (current_fp : String) (now : ℕ) (file : c.Text)
    (l : License)
    → verify_license c trusted current_fp now file ≡ ok l
    → (payload signature : c.Bytes) × (open_file c file ≡ some (payload, signature))
      × Accepted c trusted signature payload
      × (read_license c payload ≡ some l)
      × (bound_elsewhere c current_fp l ≡ false)
      × (is_valid now l ≡ true)
unfolding verify_license
verify_license_sound c trusted current_fp now file l h = elim (Option-cases (open_file c file)) [
  | inl e ↦ ground arith
  | inr (parts, e) ↦
      let k : any (key_accepts c parts.1 parts.0) trusted ≡ true = ground arith in
      (
        parts.0,
        parts.1,
        e,
        any-Accepted c trusted parts.1 parts.0 k,
        ground arith,
        ground arith,
        ground (arith, expiry_check c now l),
      )
]

module _ (c : Crypto) (laws : CryptoLaws c) (l : License) (private_key : c.PrivateKey) where
  open_file-signed_file :
      open_file c (signed_file c l private_key)
      ≡ some (
        c.dump_payload (license_to_payload c.iso l),
        c.sign private_key (c.dump_payload (license_to_payload c.iso l)),
      )
  unfolding open_file signed_file
  open_file-signed_file =
      let b = c.dump_payload (license_to_payload c.iso l) in
      let s = c.sign private_key b in
      ground (
        arith,
        laws.decode-encode (c.dump_file (c.b64encode b) (c.b64encode s)),
        laws.load-dump_file (c.b64encode b) (c.b64encode s),
        laws.decode-encode b,
        laws.decode-encode s,
      )

  read_license-dump_payload : read_license c (c.dump_payload (license_to_payload c.iso l)) ≡ some l
  unfolding read_license
  read_license-dump_payload = ground (
    arith,
    laws.load-dump_payload (license_to_payload c.iso l),
    payload_to_license-license_to_payload c.iso laws.iso_laws l,
  )

key_accepts-sign :
    (c : Crypto) (public_pem private_pem : c.Text) (m : Matches c public_pem private_pem)
    (b : c.Bytes)
    → key_accepts c (c.sign m.private_key b) b public_pem ≡ true
unfolding key_accepts
key_accepts-sign c public_pem private_pem m b = rw (m.loads_public, key_accepts) (m.accepts b)

-- What a verification at `now` on the machine `current_fp` answers for a signed licence.
abbrev pub answer : (c : Crypto) → String → ℕ → License → Result License
answer c current_fp now l =
    if bound_elsewhere c current_fp l
    then err other_machine
    else if is_valid now l
    then ok l
    else err expired

-- A licence signed with the private key of any one of the trusted keys gives a file that verifies:
-- the result is that licence, unless it is bound to another machine or is no longer valid, which
-- are told apart in this order.
pub verify_license-sign_license :
    (c : Crypto) (laws : CryptoLaws c) (older newer : List c.Text) (public_pem private_pem : c.Text)
    → Matches c public_pem private_pem
    → (current_fp : String) (now : ℕ) (l : License)
    → (file : c.Text) × (sign_license c l private_pem ≡ some file)
      × (verify_license c (older ++ public_pem ∷ newer) current_fp now file
          ≡ answer c current_fp now l)
unfolding verify_license sign_license
verify_license-sign_license c laws older newer public_pem private_pem m current_fp now l =
    let b = c.dump_payload (license_to_payload c.iso l) in
    (
      signed_file c l m.private_key,
      ground (arith, m.loads_private),
      rw
          (
            open_file-signed_file c laws l m.private_key,
            any-middle (key_accepts c (c.sign m.private_key b) b) older newer public_pem
                (key_accepts-sign c public_pem private_pem m b),
            read_license-dump_payload c laws l m.private_key,
            expiry_check c now l,
          )
          (ground arith),
    )
