-- ===== src/Webauthn/Ceremony/Authenticator.antt =====
-- What an authenticator writes at a registration, and that it is accepted.
use quosh.Webauthn.Cbor.{cose_p256, Cbor, uint, nint, bytes, text, map, end, entry}
use quosh.Base.{
  ℕ, ◌+◌, ◌≤◌, ◌≡◌, refl, sym, ap, ◌∙◌, true, List, [], ◌∷◌, ◌++◌, arith, le→ltb, length, take,
  drop, slice, length-append, take-append, drop-append, drop-drop,
}
use quosh.Base.Int.{negsuc}
use quosh.Webauthn.{has_flag, ok}
use quosh.Webauthn.Cbor.RoundTrip.{write, IsWritable, read_cbor-write}
use quosh.Webauthn.Ceremony.{
  create_type, fmt_key, none_text, auth_data_key, flag_up, flag_uv, flag_at, parse_credential,
  verify_registration, Registered, Crypto,
}
use quosh.Proto.Utf8.{is_utf8}
use quosh.Bytes.{Fits, be_bytes, of_be, length-be_bytes, of_be-be_bytes}
use quosh.Webauthn.Ceremony.Accepts.{Made}
use quosh.Webauthn.Ceremony.Registration.{verify_registration_iff}

-- A new credential, with the extensions that follow it.
pub record Credential : Type 0 where
  pub rp_hash : List ℕ
  pub flags : ℕ
  pub sign_count : ℕ
  pub aaguid : List ℕ
  pub id : List ℕ
  pub x : List ℕ
  pub y : List ℕ
  pub extensions : List ℕ

-- The COSE key of a point: EC2, ES256, P-256 and its coordinates.
abbrev pub cose_key : List ℕ → List ℕ → Cbor
cose_key x y = map (
    entry (uint 1) (uint 2) (
      entry (uint 3) (nint (negsuc 6)) (
        entry (nint (negsuc 0)) (uint 1)
          (entry (nint (negsuc 1)) (bytes x) (entry (nint (negsuc 2)) (bytes y) end)))))

abbrev pub after_id : Credential → List ℕ
after_id c = c.id ++ (write (cose_key c.x c.y) ++ c.extensions)

abbrev pub attested_data : Credential → List ℕ
attested_data c = c.aaguid ++ (be_bytes 2 (length c.id) ++ after_id c)

abbrev pub auth_data_of : Credential → List ℕ
auth_data_of c = c.rp_hash ++ (c.flags ∷ (be_bytes 4 c.sign_count ++ attested_data c))

-- The empty `attStmt`.
abbrev pub stmt_key : List ℕ
stmt_key = b'a' ∷ b't' ∷ b't' ∷ b'S' ∷ b't' ∷ b'm' ∷ b't' ∷ []

abbrev pub attestation_of : Credential → Cbor
attestation_of c = map (
    entry (text fmt_key) (text none_text)
      (entry (text stmt_key) (map end) (entry (text auth_data_key) (bytes (auth_data_of c)) end)))

-- The widths of the fields.
pub record IsCredential (c : Credential) : Type 0 where
  pub rp_hash : length c.rp_hash ≡ 32
  pub sign_count : Fits 4 c.sign_count
  pub aaguid : length c.aaguid ≡ 16
  pub id : Fits 2 (length c.id)
  pub x : length c.x ≡ 32
  pub y : length c.y ≡ 32
  pub whole : Fits 8 (length (auth_data_of c))

abbrev pub registered : Credential → Registered
registered c = record {
  credential_id = c.id;
  public_key = (4 ∷ c.x) ++ c.y;
  sign_count = c.sign_count;
}

module _ (c : Credential) (is : IsCredential c) where
  cose_p256-cose_key : cose_p256 (cose_key c.x c.y) ≡ ok ((4 ∷ c.x) ++ c.y)
  unfolding cose_p256
  cose_p256-cose_key = rw is.x (rw is.y)

  cose_key-IsWritable : IsWritable (cose_key c.x c.y)
  cose_key-IsWritable = omega (arith, is.x, is.y)

  length-attested : 18 + length (after_id c) ≡ length (attested_data c)
  length-attested = omega (
    arith,
    length-append c.aaguid (be_bytes 2 (length c.id) ++ after_id c),
    length-append (be_bytes 2 (length c.id)) (after_id c),
    length-be_bytes 2 (length c.id),
    is.aaguid,
  )

  drop-aaguid : drop 16 (attested_data c) ≡ be_bytes 2 (length c.id) ++ after_id c
  drop-aaguid = drop-append c.aaguid _ 16 is.aaguid

  drop-length : drop 18 (attested_data c) ≡ after_id c
  drop-length =
      sym (drop-drop 2 16 (attested_data c))
      ∙ ap (drop 2) drop-aaguid
      ∙ drop-append (be_bytes 2 (length c.id)) (after_id c) 2 (length-be_bytes 2 (length c.id))

  cred_len : of_be (slice (attested_data c) 16 18) ≡ length c.id
  cred_len =
      ap (λ (b : List ℕ). of_be (take 2 b)) drop-aaguid
      ∙ ap of_be
          (take-append (be_bytes 2 (length c.id)) (after_id c) 2 (length-be_bytes 2 (length c.id)))
      ∙ of_be-be_bytes 2 (length c.id) is.id

  parse_credential_attested : parse_credential (attested_data c) ≡ ok (c.id, (4 ∷ c.x) ++ c.y)
  unfolding parse_credential
  parse_credential_attested =
      rw (le→ltb (length (attested_data c)) 18 (omega (arith, length-attested))) (
        rw cred_len (
          rw drop-length (
            rw
              (le→ltb (length (after_id c)) (length c.id)
                (omega (arith, length-append c.id (write (cose_key c.x c.y) ++ c.extensions))))
              (rw (drop-append c.id (write (cose_key c.x c.y) ++ c.extensions) (length c.id) refl) (
                rw (read_cbor-write (cose_key c.x c.y) c.extensions cose_key-IsWritable) (
                  rw cose_p256-cose_key (
                    rw (
                      take-append c.id (write (cose_key c.x c.y) ++ c.extensions) (length c.id)
                        refl))))))))

  drop-rp_hash : drop 32 (auth_data_of c) ≡ c.flags ∷ (be_bytes 4 c.sign_count ++ attested_data c)
  drop-rp_hash = drop-append c.rp_hash _ 32 is.rp_hash

  drop-flags : drop 33 (auth_data_of c) ≡ be_bytes 4 c.sign_count ++ attested_data c
  drop-flags = sym (drop-drop 1 32 (auth_data_of c)) ∙ ap (drop 1) drop-rp_hash

  drop-counter : drop 37 (auth_data_of c) ≡ attested_data c
  drop-counter =
      sym (drop-drop 4 33 (auth_data_of c))
      ∙ ap (drop 4) drop-flags
      ∙ drop-append (be_bytes 4 c.sign_count) (attested_data c) 4 (length-be_bytes 4 c.sign_count)

  flags_read : of_be (slice (auth_data_of c) 32 33) ≡ c.flags
  flags_read = ap (λ (b : List ℕ). of_be (take 1 b)) drop-rp_hash ∙ omega arith

  sign_count_read : of_be (slice (auth_data_of c) 33 37) ≡ c.sign_count
  sign_count_read =
      ap (λ (b : List ℕ). of_be (take 4 b)) drop-flags
      ∙ ap of_be (
          take-append (be_bytes 4 c.sign_count) (attested_data c) 4
            (length-be_bytes 4 c.sign_count))
      ∙ of_be-be_bytes 4 c.sign_count is.sign_count

  length-auth_data : 37 ≤ length (auth_data_of c)
  length-auth_data = omega (
    arith,
    length-append c.rp_hash (c.flags ∷ (be_bytes 4 c.sign_count ++ attested_data c)),
    length-append (be_bytes 4 c.sign_count) (attested_data c),
    length-be_bytes 4 c.sign_count,
    is.rp_hash,
  )

  attestation_of-IsWritable : IsWritable (attestation_of c)
  unfolding is_utf8
  attestation_of-IsWritable = (
    omega arith,
    (
      (omega arith, refl),
      (omega arith, refl),
      ((omega arith, refl), (omega arith, tt), ((omega arith, refl), is.whole, tt)),
    ),
  )

  -- A new credential of the right widths, of this relying party, whose flags say that the user was
  -- present and verified and that a credential follows, is registered with its id, its point and
  -- its counter, whatever its extensions are and whatever follows the object, if the client data
  -- was made for this ceremony.
  pub verify_registration-attestation_of :
      (crypto : Crypto) (rp_id origin challenge client_json rest : List ℕ)
      → Made crypto client_json create_type origin challenge
      → c.rp_hash ≡ crypto.sha256 rp_id
      → has_flag c.flags flag_up ≡ true
      → has_flag c.flags flag_uv ≡ true
      → has_flag c.flags flag_at ≡ true
      → verify_registration crypto rp_id origin challenge client_json
          (write (attestation_of c) ++ rest)
        ≡ ok (registered c)
  verify_registration-attestation_of crypto rp_id origin challenge client_json rest made party up uv
        at =
      (verify_registration_iff crypto rp_id origin challenge client_json _ _).1 (record {
        made = made;
        entries = entry (text fmt_key) (text none_text) (
            entry (text stmt_key) (map end)
              (entry (text auth_data_key) (bytes (auth_data_of c)) end));
        rest = rest;
        decoded = read_cbor-write (attestation_of c) rest attestation_of-IsWritable;
        unattested = refl;
        raw = auth_data_of c;
        auth_data = refl;
        says = record {
          long = length-auth_data;
          party = take-append c.rp_hash _ 32 is.rp_hash ∙ party;
          present = ap (λ f. has_flag f flag_up) flags_read ∙ up;
          verified = ap (λ f. has_flag f flag_uv) flags_read ∙ uv;
        };
        attested = ap (λ f. has_flag f flag_at) flags_read ∙ at;
        credential = ap parse_credential drop-counter ∙ parse_credential_attested;
        point = (omega (arith, length-append c.x c.y, is.x, is.y), omega arith);
        counter = sign_count_read;
      })
