-- ===== src/Webauthn/Ceremony/Accepts.antt =====
-- Which ceremonies pass: the conditions of an assertion and of a registration.
use quosh.Base.{ℕ, ◌≡◌, refl, Bool, true, false, not, Option, none, some, List}
use quosh.Webauthn.{and_then, bail_if, Failure, Result, err, ok}
use quosh.Webauthn.Ceremony.{check_parsed, check_client_data, ClientData, Crypto}
use quosh.Devices.Search.{same, same_iff}

pub and_then-eq-ok :
    {T U : Type 0} (r : Result T) (f : T → Result U) {u : U}
    → and_then r f ≡ ok u
    → (t : T) × (r ≡ ok t) × (f t ≡ ok u)
and_then-eq-ok (ok t) f h = (t, refl, h)
and_then-eq-ok (err e) f h = cc

pub bail_if-eq-ok :
    {U : Type 0} (c : Bool) (e : Failure) (rest : Result U) {u : U}
    → bail_if c e rest ≡ ok u
    → (c ≡ false) × (rest ≡ ok u)
bail_if-eq-ok true e rest h = cc
bail_if-eq-ok false e rest h = (refl, h)

pub not-eq-false : (b : Bool) → not b ≡ false → b ≡ true
not-eq-false true h = refl
not-eq-false false h = cc

pub not_same : (xs ys : List ℕ) → not (same xs ys) ≡ false → xs ≡ ys
not_same xs ys h = (same_iff xs ys).0 (not-eq-false _ h)

module _ (crypto : Crypto) where
  -- What the browser signed was made for this ceremony, page and challenge.
  pub record Made (client_json expected_type origin challenge : List ℕ) : Type 0 where
    pub client : ClientData
    pub parsed : crypto.from_json client_json ≡ some client
    pub for_type : client.typ ≡ expected_type
    pub at_origin : client.origin ≡ origin
    pub same_origin : client.cross_origin ≡ false
    pub answers : client.challenge ≡ crypto.base64 challenge

  check_parsed-Made :
      (raw expected_type origin challenge : List ℕ) (c : Option ClientData)
      → crypto.from_json raw ≡ c
      → check_parsed crypto c expected_type origin challenge ≡ ok tt
      → Made raw expected_type origin challenge
  unfolding check_parsed
  check_parsed-Made raw expected_type origin challenge none e h = cc
  check_parsed-Made raw expected_type origin challenge (some d) e h =
      let (t, h1) = bail_if-eq-ok _ _ _ h in
      let (o, h2) = bail_if-eq-ok _ _ _ h1 in
      let (x, h3) = bail_if-eq-ok _ _ _ h2 in
      let (c, h4) = bail_if-eq-ok _ _ _ h3 in
      record {
        client = d;
        parsed = e;
        for_type = not_same _ _ t;
        at_origin = not_same _ _ o;
        same_origin = x;
        answers = not_same _ _ c;
      }

  pub check_client_data-Made :
      (raw expected_type origin challenge : List ℕ)
      → check_client_data crypto raw expected_type origin challenge ≡ ok tt
      → Made raw expected_type origin challenge
  unfolding check_client_data
  check_client_data-Made raw expected_type origin challenge h =
      check_parsed-Made raw expected_type origin challenge (crypto.from_json raw) refl h

  pub Made-check_client_data :
      (raw expected_type origin challenge : List ℕ)
      → Made raw expected_type origin challenge
      → check_client_data crypto raw expected_type origin challenge ≡ ok tt
  unfolding check_client_data check_parsed
  Made-check_client_data raw expected_type origin challenge m = rw m.parsed (
      rw ((same_iff _ _).1 m.for_type)
        (rw ((same_iff _ _).1 m.at_origin) (rw m.same_origin (rw ((same_iff _ _).1 m.answers)))))
