-- ===== src/Registry/Shapes.antt =====
-- What every stored client satisfies, whatever calls the two services have served.
pub mod Kept
use identity_platform_go.Base.{
  ℕ, ◌≡◌, refl, arith, ap, sym, subst, true, false, Bool, ◌⊎◌, inl, inr, some, none, Option,
  Option-cases, Bool-cases, String, List, [], ◌∷◌, ok, err, Result, Result-cases, ◌>>=◌, ◌>>◌,
  Subset, contains, is_empty, ◌==◌, eq_iff, if◌then◌else◌, not, pure,
}
use identity_platform_go.Base.Dict.{
  Dict, lookup, insert, erase, Entries, Entries-insert, Entries-erase, Entries-lookup,
}
use identity_platform_go.Base.Words.{fields}
use identity_platform_go.Base.Keeps.{
  Keeps, keeps_rules, Keeps-pure, Keeps-bind, Keeps-bind_with, Keeps-lift, Keeps-still,
}
use identity_platform_go.Registry.{
  OAuthClient, kind_confidential, kind_public, Failure, Setup, RegistryEvent, RegistryState, R,
  read_clock, generate_hex, hash_password, emit_registry, save_stored, update_stored, delete_stored,
  generate_secret_for,
}
use identity_platform_go.Registry.Clients.{
  CreateRequest, created, normalize_kind, create_client, emit_registered, delete_client,
}
use identity_platform_go.Registry.Registration.{
  RegistrationRequest, known_grants, each_known, validate_shape, validate_redirects,
  validate_content, validate_scopes, valid_redirects, kind_of, auth_none, default_grants,
  generate_token, registered, register,
}
use identity_platform_go.Registry.Management.{
  authorize_management, rotate_secret, updated, update_registration, delete_registration,
}

-- The metadata that a registration was validated for
pub record IsValidated (env : Setup) (c : OAuthClient) : Type 0 where
  pub grants : Subset c.grant_types known_grants
  pub redirects : valid_redirects env c.redirect_uris ≡ true
  pub scopes : (env.allowed_scopes ≡ []) ⊎ Subset c.scopes env.allowed_scopes
  pub method : c.kind ≡ kind_of c.auth_method

-- A client that holds a secret, or a public one that holds none
abbrev pub HoldsSecret : String → String → Type 0
HoldsSecret kind secret = (kind ≡ kind_confidential) ⊎ ((kind ≡ kind_public) × (secret ≡ ""))

-- A stored client under its key
abbrev pub IsSound : Setup → String → OAuthClient → Type 0
IsSound env k c =
    (c.id ≡ k) × HoldsSecret c.kind c.secret × ((c.token_hash ≡ "") ⊎ IsValidated env c)

abbrev pub AllSound : Setup → RegistryState → Type 0
AllSound env s = Entries (IsSound env) s.clients

pub each_known-Subset : (known xs : List String) → each_known known xs ≡ ok tt → Subset xs known
unfolding each_known
each_known-Subset known [] e = tt
each_known-Subset known (x ∷ xs) e = (ground arith, each_known-Subset known xs (ground arith))

pub validate_shape-Subset :
    (req : RegistrationRequest) (grants : List String) (method : String)
    → validate_shape req ≡ ok (grants, method)
    → Subset grants known_grants
unfolding validate_shape
validate_shape-Subset req grants method e =
    let known : each_known known_grants (default_grants req.grant_types) ≡ ok tt = ground arith in
    let same : default_grants req.grant_types ≡ grants = ground arith in
    subst (λ g. Subset g known_grants) same (each_known-Subset known_grants _ known)

pub validate_redirects-valid :
    (env : Setup) (uris grants : List String)
    → validate_redirects env uris grants ≡ ok tt
    → valid_redirects env uris ≡ true
unfolding validate_redirects
validate_redirects-valid env uris grants e = ground arith

pub validate_scopes-Subset :
    (env : Setup) (xs : List String) (allowed : List String)
    → env.allowed_scopes ≡ allowed
    → validate_scopes env xs ≡ ok tt
    → (allowed ≡ []) ⊎ Subset xs allowed
unfolding validate_scopes
validate_scopes-Subset env xs [] same e = inl refl
validate_scopes-Subset env xs (a ∷ as_of) same e =
    inr (each_known-Subset (a ∷ as_of) xs (rw same at e))

pub validate_content-scopes :
    (env : Setup) (req : RegistrationRequest)
    → validate_content env req ≡ ok tt
    → validate_scopes env (fields req.scope) ≡ ok tt
unfolding validate_content
validate_content-scopes env req e = ground arith

pub kind_of-cases : (m : String) → (kind_of m ≡ kind_confidential) ⊎ (kind_of m ≡ kind_public)
unfolding kind_of
kind_of-cases m = elim (Bool-cases (m == auth_none)) [
  | inl q ↦ inr (ground arith)
  | inr q ↦ inl (ground arith)
]

pub normalize_kind-cases :
    (m : String) → (normalize_kind m ≡ kind_confidential) ⊎ (normalize_kind m ≡ kind_public)
unfolding normalize_kind
normalize_kind-cases m = elim (Bool-cases (m == kind_public)) [
  | inl q ↦ inr (ground arith)
  | inr q ↦ inl (ground arith)
]

pub generate_secret_for-HoldsSecret :
    (env : Setup) (kind : String) (s : RegistryState) (v : String × String)
    → (kind ≡ kind_confidential) ⊎ (kind ≡ kind_public)
    → (generate_secret_for env kind s).0 ≡ ok v
    → HoldsSecret kind v.1
unfolding generate_secret_for
generate_secret_for-HoldsSecret env kind s v (inl q) e = inl q
generate_secret_for-HoldsSecret env kind s v (inr q) e =
    let run : ◌≡◌ {A = Result Failure (String × String)} (ok ("", "")) (ok v) =
      subst (λ k. (generate_secret_for env k s).0 ≡ ok v) q e in
    inr (q, ground arith)

pub rotate_secret-HoldsSecret :
    (env : Setup) (kind : String) (c : OAuthClient) (s : RegistryState) (v : String × String)
    → (kind ≡ kind_confidential) ⊎ (kind ≡ kind_public)
    → (rotate_secret env kind c s).0 ≡ ok v
    → HoldsSecret kind v.1
unfolding rotate_secret
rotate_secret-HoldsSecret env kind c s v (inl q) e = inl q
rotate_secret-HoldsSecret env kind c s v (inr q) e =
    inr (q, ground (arith, eq_iff kind kind_public))
