-- ===== src/Registry/Shapes/Kept.antt =====
-- Every call of the two services keeps the stored clients sound.
use identity_platform_go.Base.{
  ◌≡◌, refl, arith, sym, subst, true, ◌⊎◌, inl, inr, some, none, Option-cases, Bool-cases, String,
  List, [], ◌∷◌, Subset,
}
use identity_platform_go.Base.Dict.{lookup, insert, erase, Entries, Entries-insert, Entries-erase}
use identity_platform_go.Base.Words.{fields}
use identity_platform_go.Base.Keeps.{
  Keeps, keeps_rules, Keeps-pure, Keeps-bind, Keeps-bind_with, Keeps-lift, Keeps-still,
}
use identity_platform_go.Registry.{
  OAuthClient, Setup, RegistryEvent, RegistryState, read_clock, generate_hex, hash_password,
  emit_registry, save_stored, update_stored, delete_stored, generate_secret_for,
}
use identity_platform_go.Registry.Clients.{
  CreateRequest, created, normalize_kind, create_client, emit_registered, delete_client,
}
use identity_platform_go.Registry.Registration.{
  RegistrationRequest, known_grants, valid_redirects, kind_of, generate_token, registered, register,
}
use identity_platform_go.Registry.Management.{
  authorize_management, rotate_secret, updated, update_registration, delete_registration,
}
use identity_platform_go.Registry.Shapes.{
  HoldsSecret, IsSound, AllSound, validate_shape-Subset, validate_redirects-valid,
  validate_scopes-Subset, validate_content-scopes, kind_of-cases, normalize_kind-cases,
  generate_secret_for-HoldsSecret, rotate_secret-HoldsSecret,
}

module _ {env : Setup} where
  clock-AllSound : Keeps (AllSound env) (read_clock env)
  unfolding read_clock
  clock-AllSound = record { at = λ s h. h }

  hex-AllSound : Keeps (AllSound env) (generate_hex env)
  unfolding generate_hex
  hex-AllSound = record {
    at = λ s h. elim (Option-cases (env.random s.draws)) [ inl q ↦ rw q h | inr (r, q) ↦ rw q h ];
  }

  hash-AllSound : (plain : String) → Keeps (AllSound env) (hash_password env plain)
  unfolding hash_password
  hash-AllSound plain = record {
    at = λ s h. elim (Option-cases (env.hash s.hashes plain)) [
      | inl q ↦ rw q h
      | inr (r, q) ↦ rw q h
    ];
  }

  emit-AllSound : (e : RegistryEvent) → Keeps (AllSound env) (emit_registry env e)
  unfolding emit_registry
  emit-AllSound e = record {
    at = λ s h. elim (Bool-cases (env.sink s.emissions)) [ inl q ↦ rw q h | inr q ↦ rw q h ];
  }

  save-AllSound : (c : OAuthClient) → IsSound env c.id c → Keeps (AllSound env) (save_stored c)
  unfolding save_stored
  save-AllSound c sound = record {
    at = λ s h. elim (Option-cases (lookup c.id s.clients)) [
      | inl q ↦
          subst (Entries (IsSound env)) (sym (saves s q))
            (Entries-insert (IsSound env) c.id c s.clients h sound)
      | inr (d, q) ↦ subst (Entries (IsSound env)) (sym (refuses s d q)) h
    ];
  }
    where
      saves :
          (s : RegistryState)
          → lookup c.id s.clients ≡ none
          → (save_stored c s).1.clients ≡ insert c.id c s.clients
      saves s q = ground arith

      refuses :
          (s : RegistryState) (d : OAuthClient)
          → lookup c.id s.clients ≡ some d
          → (save_stored c s).1.clients ≡ s.clients
      refuses s d q = ground arith

  update-AllSound : (c : OAuthClient) → IsSound env c.id c → Keeps (AllSound env) (update_stored c)
  unfolding update_stored
  update-AllSound c sound = record {
    at = λ s h. elim (Option-cases (lookup c.id s.clients)) [
      | inl q ↦ subst (Entries (IsSound env)) (sym (refuses s q)) h
      | inr (d, q) ↦
          subst (Entries (IsSound env)) (sym (writes s d q))
            (Entries-insert (IsSound env) c.id c s.clients h sound)
    ];
  }
    where
      refuses :
          (s : RegistryState)
          → lookup c.id s.clients ≡ none
          → (update_stored c s).1.clients ≡ s.clients
      refuses s q = ground arith

      writes :
          (s : RegistryState) (d : OAuthClient)
          → lookup c.id s.clients ≡ some d
          → (update_stored c s).1.clients ≡ insert c.id c s.clients
      writes s d q = ground arith

  delete-AllSound : (id : String) → Keeps (AllSound env) (delete_stored id)
  unfolding delete_stored
  delete-AllSound id = record {
    at = λ s h. elim (Option-cases (lookup id s.clients)) [
      | inl q ↦ subst (Entries (IsSound env)) (sym (refuses s q)) h
      | inr (d, q) ↦
          subst (Entries (IsSound env)) (sym (erases s d q))
            (Entries-erase (IsSound env) id s.clients h)
    ];
  }
    where
      refuses :
          (s : RegistryState)
          → lookup id s.clients ≡ none
          → (delete_stored id s).1.clients ≡ s.clients
      refuses s q = ground arith

      erases :
          (s : RegistryState) (d : OAuthClient)
          → lookup id s.clients ≡ some d
          → (delete_stored id s).1.clients ≡ erase id s.clients
      erases s d q = ground arith

  authorize-AllSound :
      (id token : String) → Keeps (AllSound env) (authorize_management env id token)
  unfolding authorize_management
  authorize-AllSound id token = Keeps-still _ still
    where
      still : (s : RegistryState) → (authorize_management env id token s).1 ≡ s
      still s = ground arith

  ruleset sound_rules = (
    keeps_rules, clock-AllSound, hex-AllSound, hash-AllSound, emit-AllSound, save-AllSound,
    delete-AllSound, authorize-AllSound,
  )

  secret-AllSound : (kind : String) → Keeps (AllSound env) (generate_secret_for env kind)
  unfolding generate_secret_for
  secret-AllSound kind = search sound_rules

  token-AllSound : Keeps (AllSound env) (generate_token env)
  unfolding generate_token
  token-AllSound = search sound_rules

  rotate-AllSound :
      (kind : String) (c : OAuthClient) → Keeps (AllSound env) (rotate_secret env kind c)
  unfolding rotate_secret
  rotate-AllSound kind c = search (keeps_rules, secret-AllSound)

  registered_emit-AllSound : (c : OAuthClient) → Keeps (AllSound env) (emit_registered env c)
  unfolding emit_registered
  registered_emit-AllSound c = emit-AllSound _

  pub create_client-AllSound : (req : CreateRequest) → Keeps (AllSound env) (create_client env req)
  unfolding create_client
  create_client-AllSound req = Keeps-bind _ _ (Keeps-lift _) λ _. Keeps-bind _ _ hex-AllSound λ id.
      Keeps-bind_with _ _ {Q = λ v. HoldsSecret (normalize_kind req.client_type) v.1}
        (secret-AllSound _)
        (λ s v h e.
          generate_secret_for-HoldsSecret env _ s v (normalize_kind-cases req.client_type) e)
        λ v holds. Keeps-bind _ _ clock-AllSound λ at.
          Keeps-bind _ _ (save-AllSound (created req id v.1 at) (refl, holds, inl refl))
            λ _. Keeps-bind _ _ (registered_emit-AllSound (created req id v.1 at)) λ _. Keeps-pure _

  pub delete_client-AllSound : (id : String) → Keeps (AllSound env) (delete_client env id)
  unfolding delete_client
  delete_client-AllSound id = search sound_rules

  pub deregister-AllSound :
      (id token : String) → Keeps (AllSound env) (delete_registration env id token)
  unfolding delete_registration
  deregister-AllSound id token = search sound_rules

  register-AllSound : (req : RegistrationRequest) → Keeps (AllSound env) (register env req)
  unfolding register
  register-AllSound req =
      Keeps-bind_with _ _ {Q = λ v. Subset v.0 known_grants} (Keeps-lift _)
        (λ s v h e. validate_shape-Subset req v.0 v.1 e)
        λ v grants.
          Keeps-bind_with _ _ {Q = λ _. valid_redirects env req.redirect_uris ≡ true} (Keeps-lift _)
            (λ s u h e. validate_redirects-valid env req.redirect_uris v.0 e)
            λ _ redirects.
              Keeps-bind_with _ _
                {Q = λ _. (env.allowed_scopes ≡ []) ⊎ Subset (fields req.scope) env.allowed_scopes}
                (Keeps-lift _)
                (λ s u h e.
                  validate_scopes-Subset env (fields req.scope) env.allowed_scopes refl
                    (validate_content-scopes env req e))
                λ _ scopes. Keeps-bind _ _ hex-AllSound λ id.
                  Keeps-bind_with _ _ {Q = λ x. HoldsSecret (kind_of v.1) x.1} (secret-AllSound _)
                    (λ s x h e. generate_secret_for-HoldsSecret env _ s x (kind_of-cases v.1) e)
                    λ x holds. Keeps-bind _ _ token-AllSound λ t.
                      Keeps-bind _ _ clock-AllSound λ at.
                        Keeps-bind _ _
                          (save-AllSound (registered req v.0 v.1 id x.1 t.1 at) (
                            refl,
                            holds,
                            inr (record {
                              grants = grants;
                              redirects = redirects;
                              scopes = scopes;
                              method = refl;
                            }),
                          ))
                          λ _. Keeps-bind _ _ (emit-AllSound _) λ _. Keeps-pure _

  update_registration-AllSound :
      (id token : String) (req : RegistrationRequest)
      → Keeps (AllSound env) (update_registration env id token req)
  unfolding update_registration
  update_registration-AllSound id token req = Keeps-bind _ _ (authorize-AllSound id token) λ c.
      Keeps-bind_with _ _ {Q = λ v. Subset v.0 known_grants} (Keeps-lift _)
        (λ s v h e. validate_shape-Subset req v.0 v.1 e)
        λ v grants.
          Keeps-bind_with _ _ {Q = λ _. valid_redirects env req.redirect_uris ≡ true} (Keeps-lift _)
            (λ s u h e. validate_redirects-valid env req.redirect_uris v.0 e)
            λ _ redirects.
              Keeps-bind_with _ _
                {Q = λ _. (env.allowed_scopes ≡ []) ⊎ Subset (fields req.scope) env.allowed_scopes}
                (Keeps-lift _)
                (λ s u h e.
                  validate_scopes-Subset env (fields req.scope) env.allowed_scopes refl
                    (validate_content-scopes env req e))
                λ _ scopes. Keeps-bind _ _ clock-AllSound λ at.
                  Keeps-bind_with _ _ {Q = λ x. HoldsSecret (kind_of v.1) x.1}
                    (rotate-AllSound (kind_of v.1) c)
                    (λ s x h e. rotate_secret-HoldsSecret env _ c s x (kind_of-cases v.1) e)
                    λ x holds.
                      Keeps-bind _ _
                        (update-AllSound (updated c req v.0 v.1 x.1 at) (
                          refl,
                          holds,
                          inr (record {
                            grants = grants;
                            redirects = redirects;
                            scopes = scopes;
                            method = refl;
                          }),
                        ))
                        λ _. Keeps-pure _

-- A call of either service that changes the clients
pub data RegistryCall : Type 0 where
  creates : CreateRequest → RegistryCall
  deletes : String → RegistryCall
  registers : RegistrationRequest → RegistryCall
  updates : String → String → RegistrationRequest → RegistryCall
  deregisters : String → String → RegistryCall

unfoldable pub serve_call : Setup → RegistryCall → RegistryState → RegistryState
serve_call env (creates req) s = (create_client env req s).1
serve_call env (deletes id) s = (delete_client env id s).1
serve_call env (registers req) s = (register env req s).1
serve_call env (updates id token req) s = (update_registration env id token req s).1
serve_call env (deregisters id token) s = (delete_registration env id token s).1

unfoldable pub serve_calls : Setup → List RegistryCall → RegistryState → RegistryState
unfolding serve_call
serve_calls env [] s = s
serve_calls env (c ∷ cs) s = serve_calls env cs (serve_call env c s)

serve_call-AllSound :
    (env : Setup) (c : RegistryCall) (s : RegistryState)
    → AllSound env s
    → AllSound env (serve_call env c s)
unfolding serve_call
serve_call-AllSound env (creates req) s h = (create_client-AllSound req).at s h
serve_call-AllSound env (deletes id) s h = (delete_client-AllSound id).at s h
serve_call-AllSound env (registers req) s h = (register-AllSound req).at s h
serve_call-AllSound env (updates id token req) s h =
    (update_registration-AllSound id token req).at s h
serve_call-AllSound env (deregisters id token) s h = (deregister-AllSound id token).at s h

-- After any calls of the two services, failed ones included, each stored client stands under its
-- own ID and, unless it is confidential, holds no secret. One that was registered dynamically has
-- only supported grants, valid redirect URIs, allowed scopes and the type that its authentication
-- method asks for, provided that the clients that were there before are like that.
pub serve_calls-AllSound :
    (env : Setup) (cs : List RegistryCall) (s : RegistryState)
    → AllSound env s
    → AllSound env (serve_calls env cs s)
unfolding serve_calls
serve_calls-AllSound env [] s h = h
serve_calls-AllSound env (c ∷ cs) s h =
    serve_calls-AllSound env cs (serve_call env c s) (serve_call-AllSound env c s h)
