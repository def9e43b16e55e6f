-- ===== src/Policy.antt =====
-- services/authorization-policy-service: application/policy_service.go, application/specification.go
-- and the in-memory repositories, which return copies of what they store.
pub mod Evaluation
pub mod Permissions
mod Tests
use Prim.Native.String
use identity_platform_go.Base.{
  ℕ, suc, Bool, true, false, Option, none, some, String, List, [], ◌∷◌, Result, ok, err, not, ◌&&◌,
  ◌==◌, if◌then◌else◌, contains, is_empty, ◌++◌,
}
use identity_platform_go.Base.Dict.{Dict, lookup, insert}

pub record Permission : Type 0 where
  pub resource : String
  pub action : String

pub record Role : Type 0 where
  pub name : String
  pub permissions : List Permission

pub record Policy : Type 0 where
  pub subject_id : String
  pub roles : List String

pub record SubjectPermissions : Type 0 where
  pub subject_id : String
  pub roles : List String
  pub permissions : List String

pub record Request : Type 0 where
  pub subject_id : String
  pub resource : String
  pub action : String

pub record Response : Type 0 where
  pub allowed : Bool
  pub reason : String

-- The event policy_evaluated, as far as it depends on the evaluation.
pub record Evaluated : Type 0 where
  pub subject_id : String
  pub allowed : Bool
  pub reason : String
  pub requested_resource : String
  pub requested_action : String
  pub matched_role : String

pub record State : Type 0 where
  pub policies : Dict Policy
  pub roles : Dict Role
  pub events : List Evaluated

-- `PolicyRepository.Save` and `RoleRepository.Save`
unfoldable pub save_policy : Policy → State → State
save_policy p s = record s { policies = insert p.subject_id p s.policies }

unfoldable pub save_role : Role → State → State
save_role r s = record s { roles = insert r.name r s.roles }

-- `perm.Resource + ":" + perm.Action`
unfoldable pub key : Permission → String
key p = Prim.Native.String.◌++◌ p.resource (Prim.Native.String.◌++◌ ":" p.action)

-- The inner loop of `collectPermissions`. The keys of the map `seen` are those of the list
-- `permissions`, so one list is kept.
unfoldable pub add_keys : List Permission → List String → List String
unfolding key
add_keys [] seen = seen
add_keys (p ∷ ps) seen = add_keys ps (if contains seen (key p) then seen else seen ++ (key p ∷ []))

-- `collectPermissions`: a role that is not defined is skipped.
unfoldable pub collect : Dict Role → List String → List String → List String
collect roles [] seen = seen
collect roles (r ∷ rs) seen = elim (lookup r roles) [
  | none ↦ collect roles rs seen
  | some role ↦ collect roles rs (add_keys role.permissions seen)
]

-- `GetSubjectPermissions`
unfoldable pub subject_permissions : String → State → SubjectPermissions
subject_permissions subject s = elim (lookup subject s.policies) [
  | none ↦ record { subject_id = subject; roles = []; permissions = [] }
  | some p ↦ record {
    subject_id = subject;
    roles = p.roles;
    permissions = collect s.roles p.roles [];
  }
]

-- The inner loop of `IsSatisfiedBy`
unfoldable pub grants : List Permission → String → String → Bool
grants [] resource action = false
grants (p ∷ ps) resource action =
    let rest = grants ps resource action in
    if p.resource == resource && p.action == action then true else rest

-- `IsSatisfiedBy`: the first role that grants, or an empty text
unfoldable pub satisfied_by : Dict Role → String → String → List String → String
satisfied_by roles resource action [] = ""
satisfied_by roles resource action (r ∷ rs) =
    let rest = satisfied_by roles resource action rs in
    elim (lookup r roles) [
      | none ↦ rest
      | some role ↦ if grants role.permissions resource action then r else rest
    ]

-- The response of `Evaluate`, and the role that matched
unfoldable pub decide : Request → State → Response × String
decide req s = elim (lookup req.subject_id s.policies) [
  | none ↦ (record { allowed = false; reason = "no policy found for subject" }, "")
  | some p ↦
      let matched = satisfied_by s.roles req.resource req.action p.roles in
      if not (is_empty matched)
      then (record { allowed = true; reason = "" }, matched)
      else (record { allowed = false; reason = "insufficient permissions" }, "")
]

-- `emit`: `stored` says whether the sink takes the event.
unfoldable pub emit : Bool → Request → Response → String → State → Option State
emit stored req resp role s =
    if stored
    then some (record s {
      events =
          record {
            subject_id = req.subject_id;
            allowed = resp.allowed;
            reason = resp.reason;
            requested_resource = req.resource;
            requested_action = req.action;
            matched_role = role;
          }
          ∷ s.events;
    })
    else none

-- `Evaluate`; `none` is the error of an event that was not stored.
unfoldable pub evaluate : Bool → Request → State → Option Response × State
evaluate stored req s =
    let (resp, role) = decide req s in
    elim (emit stored req resp role s) [ none ↦ (none, s) | some s' ↦ (some resp, s') ]
