-- ===== src/Devices/Tests.antt =====
-- A store with two devices of one user and one of another.
use quosh.Base.{ℕ, ◌≡◌, refl, true, none, some, List, [], ◌∷◌, length}
use quosh.Devices.{
  persist, validate_token, rotate_token, revoke_credential, revoke_all, registrations_of,
  Registration, Persisted, Codec, DeviceStore,
}
use quosh.Devices.Tokens.{validate_token-rotate_token}
use quosh.Devices.Revoke.{revoke_all-SignsOut, SignsOut, Unregisters}

-- One that writes the number of tokens only, and reads an empty store: the laws of a store but
-- that of its file hold for any.
abbrev nothing : Persisted
nothing = record { registrations = []; tokens = [] }

abbrev plain : Codec
plain = record { to_json = λ g. length g.tokens ∷ []; from_json = λ b. some nothing; hex = λ b. b }

abbrev device : ℕ → List ℕ → Registration
device uid id = record {
  uid = uid;
  credential_id = id;
  public_key = [];
  rp_id = [];
  origin = [];
  user_name = [];
  sign_count = 3;
  created = 100;
  last_used = none;
}

abbrev two_users : DeviceStore
two_users = record {
  file = none;
  inner = record {
    registrations = device 1 (97 ∷ []) ∷ device 2 (98 ∷ []) ∷ [];
    tokens =
        record { token = 7 ∷ []; uid = 1; credential_id = some (97 ∷ []); last_seen = 1000 }
        ∷ record { token = 8 ∷ []; uid = 2; credential_id = none; last_seen = 1000 }
        ∷ [];
  };
}

test_expiry :
    (validate_token plain two_users (7 ∷ []) 4600 ≡ some 1)
    × (validate_token plain two_users (7 ∷ []) 4601 ≡ none)
unfolding validate_token
test_expiry = (refl, refl)

test_revoke : (revoke_credential plain two_users 1 (97 ∷ []) true).1 ≡ some true
unfolding revoke_credential persist
test_revoke = refl

validate_token-rotate_token_example :
    validate_token plain
      (rotate_token plain two_users (some (7 ∷ [])) (9 ∷ []) 1 none 2000 true true).0
      (9 ∷ [])
      5600
    ≡ some 1
validate_token-rotate_token_example =
    validate_token-rotate_token plain two_users (7 ∷ []) (9 ∷ []) 1 none 2000 true (9 ∷ []) 5600
      refl

revoke_all-SignsOut_example :
    SignsOut plain 1 two_users (revoke_all plain two_users 1 true).0
    × Unregisters 1 two_users (revoke_all plain two_users 1 true).0
    × ((revoke_all plain two_users 1 true).1 ≡ some 1)
unfolding registrations_of
revoke_all-SignsOut_example = revoke_all-SignsOut plain two_users 1 true
