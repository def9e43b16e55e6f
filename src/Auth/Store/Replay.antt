-- ===== src/Auth/Store/Replay.antt =====
-- The replay caches of memory/dpop_proof_repo.go and memory/client_assertion_replay_repo.go over a
-- sequence of calls.
use identity_platform_go.Base.{
  ℕ, ◌<◌, ◌≡◌, ap, false, inl, inr, some, String, ok, err, arith, List, [], ◌∷◌, All, ltb, eq_iff,
  Bool-cases, ◌==◌,
}
use identity_platform_go.Base.Dict.{Dict, lookup, lookup-insert, lookup-insert_self}
use identity_platform_go.Auth.Domain.{replayed}
use identity_platform_go.Auth.Store.{mark_assertion, sweep, mark_proof}

-- A recorded identifier outlives a sweep up to its time.
lookup-sweep :
    (now : ℕ) (k : String) (d : Dict ℕ) (exp : ℕ)
    → lookup k d ≡ some exp
    → ltb exp now ≡ false
    → lookup k (sweep now d) ≡ some exp
unfolding lookup sweep
lookup-sweep now k [] exp e h = cc
lookup-sweep now k ((j, x) ∷ d) exp e h = ground (arith, lookup-sweep now k d exp)

-- One call of `MarkUsed` leaves a live record of another call as it is.
mark_assertion-keeps :
    (now : ℕ) (j : String) (e : ℕ) (k : String) (exp : ℕ) (d : Dict ℕ)
    → lookup k d ≡ some exp
    → now < exp
    → lookup k (mark_assertion now j e d).1 ≡ some exp
unfolding mark_assertion
mark_assertion-keeps now j e k exp d h lt = elim (Bool-cases (j == k)) [
  | inl same ↦ ground (arith, eq_iff j k, lookup-insert j k e d)
  | inr other ↦ ground (arith, lookup-insert j k e d)
]

mark_assertion-refuses :
    (now : ℕ) (k : String) (e exp : ℕ) (d : Dict ℕ)
    → lookup k d ≡ some exp
    → now < exp
    → mark_assertion now k e d ≡ (err replayed, d)
unfolding mark_assertion
mark_assertion-refuses now k e exp d h lt = ground arith

mark_assertion-records :
    (now : ℕ) (k : String) (e : ℕ) (d : Dict ℕ)
    → (mark_assertion now k e d).0 ≡ ok tt
    → lookup k (mark_assertion now k e d).1 ≡ some e
unfolding mark_assertion
mark_assertion-records now k e d h = ground (arith, lookup-insert_self k e d)

-- Calls of `MarkUsed`, each with its time, identifier and expiry.
pub assertions : List (ℕ × String × ℕ) → Dict ℕ → Dict ℕ
assertions [] d = d
assertions ((t, j, e) ∷ cs) d = assertions cs (mark_assertion t j e d).1

pub proofs : List (ℕ × String × ℕ) → Dict ℕ → Dict ℕ
proofs [] d = d
proofs ((t, j, e) ∷ cs) d = proofs cs (mark_proof t j e d).1

assertions-keep :
    (cs : List (ℕ × String × ℕ)) (k : String) (exp : ℕ) (d : Dict ℕ)
    → All (λ c. c.0 < exp) cs
    → lookup k d ≡ some exp
    → lookup k (assertions cs d) ≡ some exp
unfolding assertions
assertions-keep [] k exp d before h = h
assertions-keep ((t, j, e) ∷ cs) k exp d before h =
    assertions-keep cs k exp (mark_assertion t j e d).1 before.1
      (mark_assertion-keeps t j e k exp d h before.0)

proofs-keep :
    (cs : List (ℕ × String × ℕ)) (k : String) (exp : ℕ) (d : Dict ℕ)
    → All (λ c. c.0 < exp) cs
    → lookup k d ≡ some exp
    → lookup k (proofs cs d) ≡ some exp
unfolding proofs mark_proof
proofs-keep [] k exp d before h = h
proofs-keep ((t, j, e) ∷ cs) k exp d before h =
    proofs-keep cs k exp (mark_proof t j e d).1 before.1 (
      mark_assertion-keeps t j e k exp (sweep t d)
        (lookup-sweep t k d exp h (ground (arith, before.0))) before.0)

-- After a client assertion's jti was accepted with an expiry, each later call with that jti and
-- before that expiry is refused as a replay, whatever calls came in between before that expiry.
assertion_replay_refused :
    (t now : ℕ) (jti : String) (exp exp' : ℕ) (cs : List (ℕ × String × ℕ)) (d : Dict ℕ)
    → (mark_assertion t jti exp d).0 ≡ ok tt
    → All (λ c. c.0 < exp) cs
    → now < exp
    → (mark_assertion now jti exp' (assertions cs (mark_assertion t jti exp d).1)).0 ≡ err replayed
assertion_replay_refused t now jti exp exp' cs d accepted before lt =
    ap (λ r. r.0)
      (mark_assertion-refuses now jti exp' exp _
        (assertions-keep cs jti exp _ before (mark_assertion-records t jti exp d accepted)) lt)

-- After a DPoP proof's jti was accepted with an expiry, each later call with that jti and before
-- that expiry is refused as a replay, whatever calls before that expiry came in between, each with
-- its sweep of expired entries.
proof_replay_refused :
    (t now : ℕ) (jti : String) (exp exp' : ℕ) (cs : List (ℕ × String × ℕ)) (d : Dict ℕ)
    → (mark_proof t jti exp d).0 ≡ ok tt
    → All (λ c. c.0 < exp) cs
    → now < exp
    → (mark_proof now jti exp' (proofs cs (mark_proof t jti exp d).1)).0 ≡ err replayed
unfolding mark_proof
proof_replay_refused t now jti exp exp' cs d accepted before lt =
    ap (λ r. r.0)
      (mark_assertion-refuses now jti exp' exp _
        (lookup-sweep now jti _ exp
          (proofs-keep cs jti exp _ before (mark_assertion-records t jti exp (sweep t d) accepted))
          (ground arith))
        lt)

-- After a client assertion's or a DPoP proof's jti was accepted with an expiry, each later call of
-- the same kind with that jti and before that expiry is refused as a replay, whatever calls before
-- that expiry came in between; each call for a proof first sweeps the expired entries.
pub replays_refused :
    (t now : ℕ) (jti : String) (exp exp' : ℕ) (cs : List (ℕ × String × ℕ)) (a p : Dict ℕ)
    → (mark_assertion t jti exp a).0 ≡ ok tt
    → (mark_proof t jti exp p).0 ≡ ok tt
    → All (λ c. c.0 < exp) cs
    → now < exp
    → ((mark_assertion now jti exp' (assertions cs (mark_assertion t jti exp a).1)).0
        ≡ err replayed)
      × ((mark_proof now jti exp' (proofs cs (mark_proof t jti exp p).1)).0 ≡ err replayed)
replays_refused t now jti exp exp' cs a p h h' before lt = (
  assertion_replay_refused t now jti exp exp' cs a h before lt,
  proof_replay_refused t now jti exp exp' cs p h' before lt,
)
