-- ===== src/Auth/Tokens/Steps.antt =====
-- What the clock and the random source do to the state.
use identity_platform_go.Base.{ℕ, suc, ◌≡◌, ok, arith}
use identity_platform_go.Auth.World.{Env, World, now}
use identity_platform_go.Auth.Tokens.{generate_id}

-- A draw changes no more than the count of draws.
pub generate_id-world :
    (env : Env) (w : World) → (generate_id env w).1 ≡ record w { draws = suc w.draws }
unfolding generate_id
generate_id-world env w = ground arith

pub now-ok :
    (env : Env) (w w' : World) (t : ℕ)
    → now env w ≡ (ok t, w')
    → (t ≡ env.clock w.readings) × (w' ≡ record w { readings = suc w.readings })
unfolding now
now-ok env w w' t e = (ground arith, ground arith)
