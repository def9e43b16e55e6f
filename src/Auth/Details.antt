-- ===== src/Auth/Details.antt =====
-- services/auth-server/internal/domain/authorization_details.go: the registry of detail types and
-- their schemas. encoding/json is a parameter: what each json.Unmarshal gives for an element.
use identity_platform_go.Base.{
  ℕ, Bool, true, false, Option, none, some, String, List, [], ◌∷◌, not, ◌&&◌, ◌==◌, if◌then◌else◌,
  is_empty, ltb, ◌≡◌, arith, All, inl, inr, Option-cases, Bool-cases, eq_iff, subst, ap, ◌∙◌,
}
use identity_platform_go.Auth.Domain.{AuthorizationDetail}

-- A Go int that was decoded.
pub data ℤ : Type 0 where
  pos negsuc : ℕ → ℤ

-- The struct that validateMCPTool decodes
pub record McpTool : Type 0 where
  pub tool : String
  pub actions : List String
  pub expires_in : Option ℤ

-- The struct that validateResource decodes
pub record ResourceDetail : Type 0 where
  pub locations : List String
  pub actions : List String
  pub datatypes : List String

pub record Decoders : Type 0 where
  pub elements : String → Option (List String)
  pub head : String → Option String
  pub mcp_tool : String → Option McpTool
  pub resource : String → Option ResourceDetail

abbrev pub type_mcp_tool : String
type_mcp_tool = "mcp_tool"

abbrev pub type_resource : String
type_resource = "resource"

-- `validateMCPToolActions`
unfoldable pub valid_actions : List String → Bool
valid_actions [] = true
valid_actions (a ∷ rest_of) =
    let rest = valid_actions rest_of in
    if not (a == "read") && not (a == "invoke") then false else rest

-- `validateMCPToolExpiry`
unfoldable pub valid_expiry : Option ℤ → Bool
valid_expiry none = true
valid_expiry (some (pos n)) = ltb 0 n
valid_expiry (some (negsuc _)) = false

-- `validateMCPTool`
unfoldable pub valid_mcp_tool : Decoders → String → Bool
valid_mcp_tool j raw = elim (j.mcp_tool raw) [
  | none ↦ false
  | some v ↦ not (is_empty v.tool) && valid_actions v.actions && valid_expiry v.expires_in
]

abbrev pub none_of : List String → Bool
none_of [] = true
none_of (_ ∷ _) = false

-- `validateResource`
unfoldable pub valid_resource : Decoders → String → Bool
valid_resource j raw = elim (j.resource raw) [
  | none ↦ false
  | some v ↦ not (none_of v.locations && none_of v.actions && none_of v.datatypes)
]

-- `parseDetail`, with the table `perTypeValidators`
unfoldable pub parse_detail : Decoders → String → Option AuthorizationDetail
unfolding valid_mcp_tool valid_resource
parse_detail j elem = elim (j.head elem) [
  | none ↦ none
  | some kind ↦
      if is_empty kind
      then none
      else if kind == type_mcp_tool
      then (if valid_mcp_tool j elem then some (record { kind = kind; raw = elem }) else none)
      else if kind == type_resource
      then (if valid_resource j elem then some (record { kind = kind; raw = elem }) else none)
      else none
]

-- The loop of `ParseAuthorizationDetails`
unfoldable pub parse_elements : Decoders → List String → Option (List AuthorizationDetail)
unfolding parse_detail
parse_elements j [] = some []
parse_elements j (e ∷ es) =
    let rest = parse_elements j es in
    elim (parse_detail j e) [
      | none ↦ none
      | some d ↦ elim rest [ none ↦ none | some ds ↦ some (d ∷ ds) ]
    ]

-- `ParseAuthorizationDetails`
unfoldable pub parse_details : Decoders → String → Option (List AuthorizationDetail)
parse_details j raw =
    if is_empty raw
    then some []
    else elim (j.elements raw) [ none ↦ none | some es ↦ parse_elements j es ]

-- What a detail that was accepted is: of a registered type, and of that type's shape.
pub data IsDetail (j : Decoders) (d : AuthorizationDetail) : Type 0 where
  mcp_tool_detail : d.kind ≡ type_mcp_tool → valid_mcp_tool j d.raw ≡ true → IsDetail j d
  resource_detail : d.kind ≡ type_resource → valid_resource j d.raw ≡ true → IsDetail j d

parse_detail-IsDetail :
    (j : Decoders) (elem : String) (d : AuthorizationDetail)
    → parse_detail j elem ≡ some d
    → IsDetail j d × (d.raw ≡ elem) × (j.head elem ≡ some d.kind)
unfolding parse_detail
parse_detail-IsDetail j elem d h = elim (Option-cases (j.head elem)) [
  | inl q ↦ absurd (ground arith)
  | inr (kind, q) ↦ elim (Bool-cases (kind == type_mcp_tool)) [
    | inl m ↦ (
      mcp_tool_detail (ground (arith, eq_iff kind type_mcp_tool)) (ground arith),
      ground arith,
      ground arith,
    )
    | inr m ↦ elim (Bool-cases (kind == type_resource)) [
      | inl r ↦ (
        resource_detail (ground (arith, eq_iff kind type_resource)) (ground arith),
        ground arith,
        ground arith,
      )
      | inr r ↦ absurd (ground arith)
    ]
  ]
]

parse_elements-IsDetail :
    (j : Decoders) (es : List String) (ds : List AuthorizationDetail)
    → parse_elements j es ≡ some ds
    → All (λ d. IsDetail j d × (j.head d.raw ≡ some d.kind)) ds
unfolding parse_elements
parse_elements-IsDetail j [] ds h =
    let e : [] ≡ ds = ground arith in
    subst (All (λ d. IsDetail j d × (j.head d.raw ≡ some d.kind))) e tt
parse_elements-IsDetail j (x ∷ es) ds h = elim (Option-cases (parse_detail j x)) [
  | inl q ↦ absurd (ground arith)
  | inr (d, q) ↦ elim (Option-cases (parse_elements j es)) [
    | inl p ↦ absurd (ground arith)
    | inr (rest, p) ↦
        let e : (d ∷ rest) ≡ ds = ground arith in
        let (good, raw, kind) = parse_detail-IsDetail j x d q in
        subst (All (λ d. IsDetail j d × (j.head d.raw ≡ some d.kind))) e
          ((good, ap j.head raw ∙ kind), parse_elements-IsDetail j es rest p)
  ]
]

-- Whatever text is parsed, each detail that is accepted is of a registered type, which is the type
-- member of its own raw JSON, and its raw JSON has the shape that the type asks for.
pub parse_details-IsDetail :
    (j : Decoders) (raw : String) (ds : List AuthorizationDetail)
    → parse_details j raw ≡ some ds
    → All (λ d. IsDetail j d × (j.head d.raw ≡ some d.kind)) ds
unfolding parse_details
parse_details-IsDetail j raw ds h = elim (Bool-cases (is_empty raw)) [
  | inl q ↦
      let e : [] ≡ ds = ground arith in
      subst (All (λ d. IsDetail j d × (j.head d.raw ≡ some d.kind))) e tt
  | inr q ↦ elim (Option-cases (j.elements raw)) [
    | inl p ↦ absurd (ground arith)
    | inr (es, p) ↦ parse_elements-IsDetail j es ds (ground arith)
  ]
]
