-- ===== src/Base/Words.antt =====
-- `strings.Join` and `strings.Fields`, by which a scope list travels as one text.
use Prim.Native.Nat.{ℕ}
use Prim.Native.Char.{code}
use Prim.Native.String.{String, ◌++◌}
use mathlib.Core.Path.{◌≡◌, refl, ◌∙◌, ap, sym}
use mathlib.Core.Bool.{Bool, true, false, ◌||◌, ◌&&◌}
use mathlib.Core.List.{List, [], ◌∷◌}
use mathlib.Core.Logic.{◌≢◌}
use text.Mathlib.TextLemmas.{append-nil, append_assoc, nil-append, cons-append}
use identity_platform_go.Base.Tests.{leb, All}

-- Go's `unicode.IsSpace`, which `strings.Fields` splits at.
unfoldable pub is_space : ℕ → Bool
is_space c =
    (leb 9 c && leb c 13)
    || c_is 32
    || c_is 0x85
    || c_is 0xa0
    || c_is 0x1680
    || (leb 0x2000 c && leb c 0x200a)
    || c_is 0x2028
    || c_is 0x2029
    || c_is 0x202f
    || c_is 0x205f
    || c_is 0x3000
  where
    c_is : ℕ → Bool
    c_is d = leb c d && leb d c

-- `strings.Join(xs, " ")`
unfoldable pub join : List String → String
join [] = ""
join (x ∷ []) = x
join (x ∷ y ∷ xs) = x ++ (" " ++ join (y ∷ xs))

emit : String → List String → List String
emit String.[] ws = ws
emit (String.◌∷◌ c s) ws = String.◌∷◌ c s ∷ ws

-- The fields of a text behind the part `cur` of a field that was read already.
fields_from : String → String → List String
fields_from cur String.[] = emit cur []
fields_from cur (String.◌∷◌ c s) = elim (is_space (code c)) [
  | true ↦ emit cur (fields_from "" s)
  | false ↦ fields_from (cur ++ String.◌∷◌ c String.[]) s
]

-- `strings.Fields(s)`
unfoldable pub fields : String → List String
unfolding fields_from emit is_space
fields s = fields_from "" s

-- What one field of a text looks like: not empty, and without a space.
abbrev pub Spaceless : String → Type 0
Spaceless String.[] = Unit
Spaceless (String.◌∷◌ c s) = (is_space (code c) ≡ false) × Spaceless s

abbrev pub IsField : String → Type 0
IsField w = (w ≢ "") × Spaceless w

fields_from-append :
    (cur w rest : String) → Spaceless w → fields_from cur (w ++ rest) ≡ fields_from (cur ++ w) rest
unfolding fields_from
fields_from-append cur String.[] rest h = rw (nil-append rest, append-nil cur)
fields_from-append cur (String.◌∷◌ c s) rest h =
    rw (cons-append c s rest, h.0, fields_from)
      (fields_from-append (cur ++ String.◌∷◌ c String.[]) s rest h.1
        ∙ rw (append_assoc cur (String.◌∷◌ c String.[]) s, cons-append c "" s, nil-append s))

emit_field : (w : String) (ws : List String) → w ≢ "" → emit w ws ≡ w ∷ ws
unfolding emit
emit_field String.[] ws h = absurd (h refl)
emit_field (String.◌∷◌ c s) ws h = refl

-- A space ends the field that was begun.
fields_from-space :
    (cur rest : String) → fields_from cur (" " ++ rest) ≡ emit cur (fields_from "" rest)
unfolding fields_from is_space
fields_from-space cur rest =
    rw (cons-append " " "" rest) (ap (λ r. emit cur (fields_from "" r)) (nil-append rest))

fields_from-field :
    (x rest : String) → Spaceless x → fields_from "" (x ++ rest) ≡ fields_from x rest
fields_from-field x rest h =
    fields_from-append "" x rest h ∙ ap (λ c. fields_from c rest) (nil-append x)

-- A list of fields that is joined and split again is the list.
pub fields-join : (xs : List String) → All IsField xs → fields (join xs) ≡ xs
unfolding fields join
fields-join [] h = refl
fields-join (x ∷ []) h =
    ap (fields_from "") (sym (append-nil x)) ∙ fields_from-field x "" h.0.1 ∙ emit_field x [] h.0.0
fields-join (x ∷ y ∷ xs) h =
    fields_from-field x (" " ++ join (y ∷ xs)) h.0.1
    ∙ fields_from-space x (join (y ∷ xs))
    ∙ emit_field x (fields (join (y ∷ xs))) h.0.0
    ∙ ap (◌∷◌ x) (fields-join (y ∷ xs) h.1)
