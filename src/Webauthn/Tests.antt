-- ===== src/Webauthn/Tests.antt =====
-- An authenticator whose hash, signature and client data are as short as they can be.
use quosh.Webauthn.Cbor.{
  number, read_len, nint_of, read_items, read_item, read_body, read_cbor, uint, nint, array, map,
  nil, cons, end, entry,
}
use quosh.Base.{ℕ, ◌≡◌, refl, ◌↔◌, false, some, List, [], ◌∷◌, ◌++◌, arith, take, replicate}
use quosh.Base.Int.{pos, negsuc}
use quosh.Webauthn.{get_to, cbor_text, user_verification, err, ok}
use quosh.Webauthn.Cbor.RoundTrip.{write, read_cbor-write}
use quosh.Webauthn.Cbor.Fuel.{read_cbor-Ends, Ends}
use quosh.Webauthn.Ceremony.{
  create_type, get_type, check_client_data, parse_auth_data, check_auth_data_flags,
  verify_registration, verify_assertion, Crypto,
}
use quosh.Webauthn.Ceremony.Assertion.{verify_assertion_iff, Asserts}
use quosh.Webauthn.Ceremony.Registration.{verify_registration_iff, Registers}
use quosh.Webauthn.Ceremony.Authenticator.{
  attestation_of, registered, verify_registration-attestation_of, Credential, IsCredential,
}
use quosh.Devices.Search.{same}

-- The client data is its type, at the origin 1, for the challenge.
abbrev toy : Crypto
toy = record {
  from_json =
      λ typ. some (record { typ = typ; challenge = 9 ∷ []; origin = 1 ∷ []; cross_origin = false });
  base64 = λ b. b;
  sha256 = λ b. take 32 (b ++ replicate 32 0);
  verify = λ key signed sig. same key sig;
}

abbrev zeros : ℕ → List ℕ
zeros n = replicate n 0

abbrev toy_credential : Credential
toy_credential = record {
  rp_hash = 5 ∷ zeros 31;
  flags = 0x45;
  sign_count = 7;
  aaguid = zeros 16;
  id = 11 ∷ 12 ∷ [];
  x = zeros 32;
  y = zeros 32;
  extensions = 0xA0 ∷ [];
}

-- The data of an assertion with the counter 7.
abbrev asserted : List ℕ
asserted = (5 ∷ zeros 31) ++ (0x05 ∷ 0 ∷ 0 ∷ 0 ∷ 7 ∷ [])

test_assertion :
    verify_assertion toy (5 ∷ []) (1 ∷ []) (9 ∷ []) get_type asserted (3 ∷ []) (3 ∷ []) ≡ ok 7
unfolding verify_assertion check_client_data parse_auth_data check_auth_data_flags
test_assertion = refl

-- The user was not verified.
test_unverified :
    verify_assertion toy
      (5 ∷ [])
      (1 ∷ [])
      (9 ∷ [])
      get_type
      ((5 ∷ zeros 31) ++ (0x01 ∷ 0 ∷ 0 ∷ 0 ∷ 7 ∷ []))
      (3 ∷ [])
      (3 ∷ [])
    ≡ err user_verification
unfolding verify_assertion check_client_data parse_auth_data check_auth_data_flags
test_unverified = refl

-- A nested array, a text that is cut short, and the wrap-around of a large negative number, which
-- reads as 1.
test_cbor :
    (read_cbor (0x82 ∷ 0x01 ∷ 0x81 ∷ 0x20 ∷ 0x05 ∷ [])
      ≡ ok (array (cons (uint 1) (cons (array (cons (nint (negsuc 0)) nil)) nil)), 0x05 ∷ []))
    × (read_cbor (0x63 ∷ 97 ∷ []) ≡ err cbor_text)
    × (read_cbor (0x3B ∷ 255 ∷ 255 ∷ 255 ∷ 255 ∷ 255 ∷ 255 ∷ 255 ∷ 254 ∷ [])
        ≡ ok (nint (pos 1), []))
unfolding read_cbor read_body read_len number get_to read_item read_items nint_of
test_cbor = (refl, refl, refl)

read_cbor-Ends_example :
    (read_cbor (0x9B ∷ 1 ∷ []) ≡ read_body read_cbor (0x9B ∷ 1 ∷ []))
    × Ends (read_cbor (0x9B ∷ 1 ∷ [])) 2
read_cbor-Ends_example = read_cbor-Ends (0x9B ∷ 1 ∷ [])

read_cbor-write_example :
    read_cbor (write (map (entry (uint 300) (array (cons (nint (negsuc 4)) nil)) end)) ++ (7 ∷ []))
    ≡ ok (map (entry (uint 300) (array (cons (nint (negsuc 4)) nil)) end), 7 ∷ [])
read_cbor-write_example =
    read_cbor-write (map (entry (uint 300) (array (cons (nint (negsuc 4)) nil)) end)) (7 ∷ [])
      (omega arith)

verify_assertion_iff_example :
    (verify_assertion toy (5 ∷ []) (1 ∷ []) (9 ∷ []) get_type asserted (3 ∷ []) (3 ∷ []) ≡ ok 7)
    ↔ Asserts toy (5 ∷ []) (1 ∷ []) (9 ∷ []) get_type asserted (3 ∷ []) (3 ∷ []) 7
verify_assertion_iff_example =
    verify_assertion_iff toy (5 ∷ []) (1 ∷ []) (9 ∷ []) get_type asserted (3 ∷ []) (3 ∷ []) 7

verify_registration_iff_example :
    (verify_registration toy
        (5 ∷ [])
        (1 ∷ [])
        (9 ∷ [])
        create_type
        (write (attestation_of toy_credential))
      ≡ ok (registered toy_credential))
    ↔ Registers toy
        (5 ∷ [])
        (1 ∷ [])
        (9 ∷ [])
        create_type
        (write (attestation_of toy_credential))
        (registered toy_credential)
verify_registration_iff_example =
    verify_registration_iff toy (5 ∷ []) (1 ∷ []) (9 ∷ []) create_type
      (write (attestation_of toy_credential)) (registered toy_credential)

toy_credential-IsCredential : IsCredential toy_credential
toy_credential-IsCredential = omega arith

verify_registration-attestation_of_example :
    verify_registration toy
      (5 ∷ [])
      (1 ∷ [])
      (9 ∷ [])
      create_type
      (write (attestation_of toy_credential) ++ (1 ∷ []))
    ≡ ok (registered toy_credential)
verify_registration-attestation_of_example =
    verify_registration-attestation_of toy_credential toy_credential-IsCredential toy (5 ∷ [])
      (1 ∷ []) (9 ∷ []) create_type (1 ∷ [])
      (record {
        client = record {
          typ = create_type;
          challenge = 9 ∷ [];
          origin = 1 ∷ [];
          cross_origin = false;
        };
        parsed = refl;
        for_type = refl;
        at_origin = refl;
        same_origin = refl;
        answers = refl;
      })
      refl refl refl refl
