-- ===== src/Examples/Documents.antt =====
-- An OpenAPI document for internal/cmd/checkspec/main.go.
use tgju_api_go.Common.{List, [], ◌∷◌, Text, codes, ◌≡◌, ◌↔◌, refl}
use tgju_api_go.Errors.{ok, err, leaf, other}
use tgju_api_go.CheckSpec.{check, main_code}
use tgju_api_go.CheckSpec.Consistent.{IsConsistent, check-IsConsistent}

abbrev small_document : List Text
small_document =
    codes "openapi: 3.0.3"
    ∷ codes "paths:"
    ∷ codes "  /v1/items:"
    ∷ codes "      $ref: \"#/components/schemas/Item\""
    ∷ codes "components:"
    ∷ codes "  schemas:"
    ∷ codes "    Item:"
    ∷ []

abbrev renamed_document : List Text
renamed_document =
    codes "openapi: 3.0.3"
    ∷ codes "paths:"
    ∷ codes "  /v1/items:"
    ∷ codes "      $ref: \"#/components/schemas/Item\""
    ∷ []

-- the renamed component is reported, and the document without a mistake is not
renamed_problem :
    check (λ t. t) (ok renamed_document)
    ≡ ok (codes "line 4: $ref to #/components/schemas/Item, which is not defined" ∷ [])
unfolding check
renamed_problem = refl

small_code : main_code (λ t. t) (λ path. ok small_document) (codes "openapi.yaml" ∷ []) ≡ 0
unfolding main_code
small_code = refl

unread_code : main_code (λ t. t) (λ path. err (leaf other)) (codes "openapi.yaml" ∷ []) ≡ 1
unfolding main_code
unread_code = refl

check-IsConsistent_example :
    (check (λ t. t) (ok small_document) ≡ ok []) ↔ IsConsistent small_document
check-IsConsistent_example = check-IsConsistent (λ t. t) small_document
