-- ===== src/Providers/Keys/Secrets.antt =====
-- providers/secret.go: what a key of the secret scheme resolves to.
use text.Mathlib.Text.{starts_with}
use openharness.Prelude.{
  String, true, ◌≡◌, ◌≢◌, ap, ◌∙◌, Option, some, ◌==◌, eq_iff, Bool-cases, Option-cases, ◌⊎◌, inl,
  inr,
}
use openharness.Prelude.GoMap
use openharness.Prelude.GoMap.{GoMap}
use openharness.Prelude.Result.{Result, Result-cases, ok}
use openharness.Providers.Keys.{
  secret_scheme, after_prefix, given_field, field_of, resolve_secret, resolve_api_key_with_store,
}

given_field-some :
    (creds : GoMap String) (field v : String)
    → given_field creds field ≡ some v
    → (GoMap.get creds field ≡ some v) × (v ≢ "")
unfolding given_field
given_field-some creds field v e = elim (Option-cases (GoMap.get creds field)) [
  | inl absent ↦ absurd (cc (rw (absent, given_field) at e))
  | inr (w, found) ↦ elim (Bool-cases (w == "")) [
    | inl empty ↦ absurd (cc (rw (empty) at rw (found, given_field) at e))
    | inr full ↦
        let is : w ≡ v = cc (rw (full) at rw (found, given_field) at e) in
        (
          found ∙ ap (λ (x : String). some x) is,
          λ v_empty. cc (full, (eq_iff w "").1 (is ∙ v_empty)),
        )
  ]
]

module _ {E : Type 0} where
  -- A key from a secret: a field of the credentials that the store gave for the name.
  pub record FromSecret (store : Option (String → Result E (GoMap String))) (name v : String)
      : Type 0 where
    pub lookup : String → Result E (GoMap String)
    pub there : store ≡ some lookup
    pub creds : GoMap String
    pub given : lookup name ≡ ok creds
    pub field : (GoMap.get creds "api_key" ≡ some v) ⊎ (GoMap.get creds name ≡ some v)
    pub full : v ≢ ""

  field_of_ok :
      (creds : GoMap String) (name v : String)
      → field_of {E = E} (ok creds) name ≡ ok v
      → ((GoMap.get creds "api_key" ≡ some v) ⊎ (GoMap.get creds name ≡ some v)) × (v ≢ "")
  unfolding field_of
  field_of_ok creds name v e = elim (Option-cases (given_field creds "api_key")) [
    | inr (w, found) ↦
        let is : w ≡ v = cc (rw (found, field_of) at e) in
        let (at, full) = given_field-some creds "api_key" w found in
        (inl (at ∙ ap (λ (x : String). some x) is), λ z. full (is ∙ z))
    | inl absent ↦ elim (Option-cases (given_field creds name)) [
      | inl none_there ↦ absurd (cc (rw none_there at rw (absent, field_of) at e))
      | inr (w, found) ↦
          let is : w ≡ v = cc (rw found at rw (absent, field_of) at e) in
          let (at, full) = given_field-some creds name w found in
          (inr (at ∙ ap (λ (x : String). some x) is), λ z. full (is ∙ z))
    ]
  ]

  from_store :
      (store : Option (String → Result E (GoMap String)))
      (get_credentials : String → Result E (GoMap String)) (name v : String)
      → store ≡ some get_credentials
      → field_of (get_credentials name) name ≡ ok v
      → FromSecret store name v
  unfolding field_of
  from_store store get_credentials name v there e = elim (Result-cases (get_credentials name)) [
    | inr (x, failed) ↦ absurd (cc (rw (failed, field_of) at e))
    | inl (creds, given) ↦
        let e' : field_of {E = E} (ok creds) name ≡ ok v = rw given at e in
        let (field, full) = field_of_ok creds name v e' in
        record {
          lookup = get_credentials;
          there = there;
          creds = creds;
          given = given;
          field = field;
          full = full;
        }
  ]

  resolve_secret_ok :
      (store : Option (String → Result E (GoMap String))) (name v : String)
      → resolve_secret store name ≡ ok v
      → FromSecret store name v
  unfolding resolve_secret
  resolve_secret_ok store name v e = elim (Bool-cases (name == "")) [
    | inl empty ↦ absurd (cc (rw (empty, resolve_secret) at e))
    | inr named ↦ elim (Option-cases store) [
      | inl absent ↦ absurd (cc (rw absent at rw (named, resolve_secret) at e))
      | inr (get_credentials, there) ↦
          from_store store get_credentials name v there
            (rw there at rw (named, resolve_secret) at e)
    ]
  ]

  -- A key of the secret scheme resolves only to a value that is not empty and that a store gave, as the
  -- field `api_key` or as the field with the secret's name of the credentials of that name, and never
  -- without a store; the fallback variable plays no part.
  pub secret-FromSecret :
      (getenv : String → String) (store : Option (String → Result E (GoMap String)))
      (key fallback_env v : String)
      → starts_with key secret_scheme ≡ true
      → resolve_api_key_with_store getenv store key fallback_env ≡ ok v
      → FromSecret store (after_prefix secret_scheme key) v
  unfolding resolve_api_key_with_store
  secret-FromSecret getenv store key fallback_env v scheme e =
      resolve_secret_ok store (after_prefix secret_scheme key) v
        (rw (scheme, resolve_api_key_with_store) at e)
