-- ===== src/Policy/Tests.antt =====
-- The seeded policies of the in-memory repositories, evaluated.
use identity_platform_go.Base.{◌≡◌, refl, true, some, [], ◌∷◌, contains, ◌↔◌, ne_of_test}
use identity_platform_go.Base.Dict.{lookup}
use identity_platform_go.Policy.{
  Role, Policy, Request, Response, State, Evaluated, grants, satisfied_by, decide, emit, evaluate,
  key, subject_permissions,
}
use identity_platform_go.Policy.Evaluation.{
  Some, Permitted, decide-Permitted, Permitted-decide, evaluate-recorded,
}
use identity_platform_go.Policy.Permissions.{
  Distinct, Lists, subject_permissions_lem, allowed-listed,
}

abbrev viewer : Role
viewer = record {
  name = "viewer";
  permissions = record { resource = "resource"; action = "read" } ∷ [];
}

abbrev user_2 : Policy
user_2 = record { subject_id = "user-2"; roles = "viewer" ∷ [] }

abbrev state : State
state = record { policies = ("user-2", user_2) ∷ []; roles = ("viewer", viewer) ∷ []; events = [] }

abbrev reading : Request
reading = record { subject_id = "user-2"; resource = "resource"; action = "read" }

abbrev yes_response : Response
yes_response = record { allowed = true; reason = "" }

allows : (decide reading state).0.allowed ≡ true
unfolding decide lookup satisfied_by grants
allows = refl

user_2_found : lookup "user-2" state.policies ≡ some user_2
unfolding lookup
user_2_found = refl

decide-Permitted_example : Permitted reading state
decide-Permitted_example = decide-Permitted reading state allows

permitted : Permitted reading state
unfolding lookup
permitted = record {
  policy = user_2;
  found = refl;
  granted = Some.here (record {
    role = viewer;
    named = ne_of_test refl;
    defined = refl;
    covers = Some.here (refl, refl);
  });
}

Permitted-decide_example : (decide reading state).0.allowed ≡ true
unfolding permitted
Permitted-decide_example = Permitted-decide reading state permitted (ne_of_test refl, tt)

evaluate-recorded_example :
    (yes_response ≡ (decide reading state).0)
    × ((event : Evaluated) × ((evaluate true reading state).1.events ≡ event ∷ state.events)
        × (event.subject_id ≡ reading.subject_id)
        × (event.allowed ≡ true)
        × (event.matched_role ≡ (decide reading state).1))
    × ((evaluate true reading state).1.policies ≡ state.policies)
    × ((evaluate true reading state).1.roles ≡ state.roles)
unfolding evaluate decide lookup satisfied_by grants emit
evaluate-recorded_example = evaluate-recorded true reading state yes_response refl

subject_permissions_lem_example :
    Distinct (subject_permissions "user-2" state).permissions
    × ((contains (subject_permissions "user-2" state).permissions "resource:read" ≡ true)
        ↔ Some (Lists state.roles "resource:read") user_2.roles)
subject_permissions_lem_example =
    subject_permissions_lem "user-2" state user_2 "resource:read" user_2_found

allowed-listed_example :
    contains
      (subject_permissions "user-2" state).permissions
      (key (record { resource = "resource"; action = "read" }))
    ≡ true
allowed-listed_example = allowed-listed reading state allows
