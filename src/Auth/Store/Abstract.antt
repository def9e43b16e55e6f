-- ===== src/Auth/Store/Abstract.antt =====
-- The code repository as a map: what a caller of AuthorizationCodeRepository may rely on.
use identity_platform_go.Base.{
  ℕ, ◌≡◌, refl, arith, inl, inr, some, none, Option, Option-cases, String, List, [], ◌∷◌, ok, err,
  Result, if◌then◌else◌, ◌==◌, eq_iff,
}
use identity_platform_go.Base.Dict.{Dict, lookup, lookup-insert, lookup-erase}
use identity_platform_go.Auth.Domain.{AuthorizationCode, Error, code_expired, code_not_found}
use identity_platform_go.Auth.Store.{save_code, consume_code}

-- A map from raw codes to codes, without an order or a representation
abbrev pub Codes : Type 0
Codes = String → Option AuthorizationCode

abbrev pub put : AuthorizationCode → Codes → Codes
put c f k = if c.code == k then some c else f k

abbrev pub drop : String → Codes → Codes
drop k f j = if k == j then none else f j

abbrev live : ℕ → Option AuthorizationCode → Result Error AuthorizationCode
live t none = err code_not_found
live t (some c) = if code_expired c t then err code_not_found else ok c

pub data Operation : Type 0 where
  saves : AuthorizationCode → Operation
  consumes : ℕ → String → Operation

-- The answers that the operations get, from a map and from the repository
pub abstract_answers : List Operation → Codes → List (Result Error AuthorizationCode)
abstract_answers [] f = []
abstract_answers (saves c ∷ ops) f = abstract_answers ops (put c f)
abstract_answers (consumes t k ∷ ops) f = live t (f k) ∷ abstract_answers ops (drop k f)

pub answers : List Operation → Dict AuthorizationCode → List (Result Error AuthorizationCode)
answers [] d = []
answers (saves c ∷ ops) d = answers ops (save_code c d)
answers (consumes t k ∷ ops) d = let (r, d') = consume_code t k d in r ∷ answers ops d'

abbrev pub Represents : Dict AuthorizationCode → Codes → Type 0
Represents d f = (k : String) → lookup k d ≡ f k

save_code-Represents :
    (c : AuthorizationCode) (d : Dict AuthorizationCode) (f : Codes)
    → Represents d f
    → Represents (save_code c d) (put c f)
unfolding save_code
save_code-Represents c d f h k = ground (arith, lookup-insert c.code k c d, h k)

consume_code-live :
    (t : ℕ) (k : String) (d : Dict AuthorizationCode) (o : Option AuthorizationCode)
    → lookup k d ≡ o
    → (consume_code t k d).0 ≡ live t o
unfolding consume_code
consume_code-live t k d none e = ground arith
consume_code-live t k d (some c) e = ground arith

consume_code-Represents :
    (t : ℕ) (k : String) (d : Dict AuthorizationCode) (f : Codes)
    → Represents d f
    → Represents (consume_code t k d).1 (drop k f)
unfolding consume_code
consume_code-Represents t k d f h j = elim (Option-cases (lookup k d)) [
  | inl q ↦ ground (arith, h j, h k, eq_iff k j)
  | inr (c, q) ↦ ground (arith, lookup-erase k j d, h j)
]

-- Whatever is saved and consumed and in whatever order, the repository gives the answers of a plain
-- map from raw codes to codes, in which a save puts the code and a consumption takes it out.
pub answers_refine :
    (ops : List Operation) (d : Dict AuthorizationCode) (f : Codes)
    → Represents d f
    → answers ops d ≡ abstract_answers ops f
unfolding answers abstract_answers
answers_refine [] d f h = refl
answers_refine (saves c ∷ ops) d f h =
    answers_refine ops (save_code c d) (put c f) (save_code-Represents c d f h)
answers_refine (consumes t k ∷ ops) d f h =
    let here = consume_code-live t k d (f k) (h k) in
    let later =
      answers_refine ops (consume_code t k d).1 (drop k f) (consume_code-Represents t k d f h) in
    cc
