-- ===== src/Auth/Tokens/Issue.antt =====
-- What it does to the state to issue an access token and a refresh token.
use identity_platform_go.Base.{
  ◌>>=◌, ℕ, ◌+◌, ◌≡◌, inl, inr, some, String, List, ok, arith, suc, Option-cases,
}
use identity_platform_go.Base.Dict.{lookup, lookup-insert_self}
use identity_platform_go.Auth.Domain.{Token, RefreshToken}
use identity_platform_go.Auth.Store.{save_token, save_refresh}
use identity_platform_go.Auth.World.{Env, World}
use identity_platform_go.Auth.Tokens.{generate, generate_id, issue_access, issue_refresh}

-- An access token is generated, stored under its raw value, and nothing else happens.
pub issue_access-ok :
    (env : Env) (t : Token) (w w' : World) (raw : String)
    → issue_access env t w ≡ (ok raw, w')
    → (generate env t ≡ some raw)
      × (w' ≡ record w { tokens = save_token (record t { raw = raw }) w.tokens })
      × (lookup raw w'.tokens ≡ some (record t { raw = raw }))
unfolding issue_access ◌>>=◌
issue_access-ok env t w w' raw e = elim (Option-cases (generate env t)) [
  | inl q ↦ absurd (ground arith)
  | inr (r, q) ↦ ground (arith, lookup-insert_self r (record t { raw = r }) w.tokens)
]

abbrev pub refresh_record : Env → String → String → List String → ℕ → String → String → RefreshToken
refresh_record env client_id subject scopes at raw id = record {
  id = id;
  raw = raw;
  client_id = client_id;
  subject = subject;
  scopes = scopes;
  issued_at = at;
  expires_at = at + env.refresh_ttl;
}

-- A refresh token is two draws: its raw value, under which it is stored, and its ID.
pub issue_refresh-ok :
    (env : Env) (client_id subject : String) (scopes : List String) (at : ℕ) (w w' : World)
    (raw : String)
    → issue_refresh env client_id subject scopes at w ≡ (ok raw, w')
    → (id : String) × (env.random w.draws ≡ some raw)
      × (w' ≡ record w {
        draws = suc (suc w.draws);
        refresh_tokens =
            save_refresh (refresh_record env client_id subject scopes at raw id) w.refresh_tokens;
      })
      × (lookup raw w'.refresh_tokens
          ≡ some (refresh_record env client_id subject scopes at raw id))
unfolding issue_refresh generate_id ◌>>=◌
issue_refresh-ok env client_id subject scopes at w w' raw e =
    elim (Option-cases (env.random w.draws)) [
      | inl q ↦ absurd (ground arith)
      | inr (r, q) ↦ elim (Option-cases (env.random (suc w.draws))) [
        | inl p ↦ absurd (ground arith)
        | inr (i, p) ↦
            let law =
              lookup-insert_self r (refresh_record env client_id subject scopes at r i)
                w.refresh_tokens in
            (i, ground arith, ground arith, ground (arith, law))
      ]
    ]
