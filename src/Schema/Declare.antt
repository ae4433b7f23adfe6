-- ===== src/Schema/Declare.antt =====
-- AddPrompt, AddResource and the projection of an annotation, of internal/schema/declarations.go,
-- for one kind of declaration: `addDeclaration` and `decodeValid`. The JSON encoding is a codec with
-- the law that valid declarations are read back as they were written.
pub mod Laws
use ax_go.Common.{
  ℕ, Text, codes, text_eq, Bool, true, false, Option, none, some, List, [], ◌∷◌, ◌++◌, exists?,
  keep, length, ◌==◌, if◌then◌else◌, All, ◌≡◌,
}
use ax_go.Schema.{
  Reason, nil_command, duplicate, corrupt_annotation, Violation, Prompt, Resource, Command,
}
use ax_go.Schema.Validate.{violation, validate_prompt, validate_resource}

abbrev pub Annotations : Type 0
Annotations = List (Text × Text)

unfoldable pub annotation : Text → Annotations → Option Text
annotation key [] = none
annotation key ((k, v) ∷ annotations) = if text_eq k key then some v else annotation key annotations

unfoldable pub set_annotation : Text → Text → Annotations → Annotations
set_annotation key value [] = (key, value) ∷ []
set_annotation key value ((k, v) ∷ annotations) =
    if text_eq k key
    then (k, value) ∷ annotations
    else (k, v) ∷ set_annotation key value annotations

abbrev pub is_none {ℓ} : {A : Type ℓ} → Option A → Bool
is_none none = true
is_none (some a) = false

-- json.Unmarshal and json.Marshal on a list of declarations.
pub record Json {T : Type 0} (validate : T → Option Violation) : Type 0 where
  pub decode : Text → Option (List T)
  pub encode : List T → Text
  pub decode-encode : (ds : List T) → All (λ d. validate d ≡ none) ds → decode (encode ds) ≡ some ds

-- One kind of declaration.
pub record Declaring (T : Type 0) : Type 0 where
  pub annotation_key : Text
  pub key_field : Text
  pub validate : T → Option Violation
  pub key : T → Text
  pub json : Json validate

abbrev pub prompt_declaring : Json validate_prompt → Declaring Prompt
prompt_declaring json = record {
  annotation_key = codes "github.com/rshade/ax-go/schema/prompts";
  key_field = codes "name";
  validate = validate_prompt;
  key = λ p. p.name;
  json = json;
}

abbrev pub resource_declaring :
    (parse_scheme : Text → Option Text) → Json (validate_resource parse_scheme) → Declaring Resource
resource_declaring parse_scheme json = record {
  annotation_key = codes "github.com/rshade/ax-go/schema/resources";
  key_field = codes "uri";
  validate = validate_resource parse_scheme;
  key = λ r. r.uri;
  json = json;
}

module _ {T : Type 0} (k : Declaring T) where
  abbrev pub is_valid : T → Bool
  is_valid d = is_none (k.validate d)

  abbrev pub project_decoded : Option (List T) → List T × Bool
  project_decoded none = ([], false)
  project_decoded (some decoded) =
      let valid = keep is_valid decoded in (valid, length valid == length decoded)

  abbrev pub project : Option Text → List T × Bool
  project none = ([], true)
  project (some raw) = project_decoded (k.json.decode raw)

  unfoldable pub decode_valid : Annotations → List T × Bool
  decode_valid annotations = project (annotation k.annotation_key annotations)

  -- `Prompts` and `Resources`
  unfoldable pub projected : Annotations → List T
  projected annotations = (decode_valid annotations).0

  unfoldable pub is_declared : Text → List T → Bool
  is_declared name declared = exists? (λ d. text_eq (k.key d) name) declared

  abbrev pub with_existing : Command → T → List T × Bool → Option Violation × Command
  with_existing cmd d (existing, clean) =
      if clean
      then if is_declared (k.key d) existing
        then (some (violation k.key_field duplicate), cmd)
        else (
          none,
          record cmd {
            annotations =
                set_annotation k.annotation_key (k.json.encode (existing ++ d ∷ []))
                  cmd.annotations;
          },
        )
      else (some (violation (codes "annotation") corrupt_annotation), cmd)

  abbrev pub with_valid : Command → T → Option Violation → Option Violation × Command
  with_valid cmd d (some v) = (some v, cmd)
  with_valid cmd d none = with_existing cmd d (decode_valid cmd.annotations)

  -- The violation, and the command as it is left.
  unfoldable pub add_declaration : Command → T → Option Violation × Command
  add_declaration cmd d = with_valid cmd d (k.validate d)

  -- `addDeclaration`: the pointer to the command may be nil.
  unfoldable pub add_declaration_to : Option Command → T → Option Violation × Option Command
  add_declaration_to none d = (some (violation (codes "cmd") nil_command), none)
  add_declaration_to (some cmd) d = let (v, cmd') = add_declaration cmd d in (v, some cmd')

unfoldable pub add_prompt :
    Json validate_prompt → Option Command → Prompt → Option Violation × Option Command
unfolding add_declaration_to
add_prompt json cmd prompt = add_declaration_to (prompt_declaring json) cmd prompt

unfoldable pub add_resource :
    (parse_scheme : Text → Option Text)
    → Json (validate_resource parse_scheme)
    → Option Command
    → Resource
    → Option Violation × Option Command
unfolding add_declaration_to
add_resource parse_scheme json cmd resource =
    add_declaration_to (resource_declaring parse_scheme json) cmd resource
