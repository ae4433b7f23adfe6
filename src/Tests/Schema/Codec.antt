-- ===== src/Tests/Schema/Codec.antt =====
-- A codec for lists of declarations that keeps the law of the JSON encoding: each text is written
-- behind its length and each list behind its number of items.
use ax_go.Common.{
  ℕ, zero, suc, Text, Bool, true, false, Option, none, some, List, [], ◌∷◌, ◌++◌, length, take,
  drop, ◌≡◌, refl, ap, arith,
}
use mathlib.Core.Option
use ax_go.Schema.{PromptArgument, Prompt, Resource, Violation}
use ax_go.Schema.Declare.{Json}
use ax_go.Schema.Locators.{StringsJson}

-- `put` writes in front of the rest, and `get` reads that off again.
pub record Code (A : Type 0) : Type 0 where
  pub put : A → Text → Text
  pub get : Text → Option (A × Text)
  pub get-put : (a : A) (rest : Text) → get (put a rest) ≡ some (a, rest)

take-length : (s rest : Text) → take (length s) (s ++ rest) ≡ s
take-length [] rest = refl
take-length (c ∷ s) rest = ap (λ (l : Text). c ∷ l) (take-length s rest)

drop-length : (s rest : Text) → drop (length s) (s ++ rest) ≡ rest
drop-length [] rest = refl
drop-length (c ∷ s) rest = drop-length s rest

abbrev get_text : Text → Option (Text × Text)
get_text [] = none
get_text (n ∷ s) = some (take n s, drop n s)

pub get_text-put : (s rest : Text) → get_text (length s ∷ (s ++ rest)) ≡ some (s, rest)
get_text-put s rest = ground (arith, take-length s rest, drop-length s rest)

abbrev text_code : Code Text
text_code = record {
  put = λ s rest. length s ∷ (s ++ rest);
  get = get_text;
  get-put = get_text-put;
}

abbrev put_bool : Bool → Text → Text
put_bool true rest = 1 ∷ rest
put_bool false rest = 0 ∷ rest

abbrev get_bool : Text → Option (Bool × Text)
get_bool [] = none
get_bool (zero ∷ rest) = some (false, rest)
get_bool (suc n ∷ rest) = some (true, rest)

pub get_bool-put : (b : Bool) (rest : Text) → get_bool (put_bool b rest) ≡ some (b, rest)
get_bool-put true rest = refl
get_bool-put false rest = refl

module _ {A B : Type 0} where
  abbrev get_pair : Code A → Code B → Text → Option ((A × B) × Text)
  get_pair a b s = elim (a.get s) [
    | none ↦ none
    | some (x, rest) ↦ Option.map (λ p. ((x, p.0), p.1)) (b.get rest)
  ]

  pub get_pair-put :
      (a : Code A) (b : Code B) (p : A × B) (rest : Text)
      → get_pair a b (a.put p.0 (b.put p.1 rest)) ≡ some (p, rest)
  get_pair-put a b p rest = ground (arith, a.get-put p.0 (b.put p.1 rest), b.get-put p.1 rest)

  infixr 60 ◌⊗◌
  abbrev ◌⊗◌ : Code A → Code B → Code (A × B)
  a ⊗ b = record {
    put = λ p rest. a.put p.0 (b.put p.1 rest);
    get = get_pair a b;
    get-put = get_pair-put a b;
  }

  abbrev get_as : (A → B) → Option (A × Text) → Option (B × Text)
  get_as to none = none
  get_as to (some (x, rest)) = some (to x, rest)

  pub get_as-put :
      (a : Code A) (to : A → B) (from : B → A)
      → ((b : B) → to (from b) ≡ b)
      → (b : B) (rest : Text) → get_as to (a.get (a.put (from b) rest)) ≡ some (b, rest)
  get_as-put a to from h b rest = ground (arith, a.get-put (from b) rest, h b)

  -- The code of another type with the same content.
  abbrev code_as : Code A → (to : A → B) (from : B → A) → ((b : B) → to (from b) ≡ b) → Code B
  code_as a to from h = record {
    put = λ b rest. a.put (from b) rest;
    get = λ s. get_as to (a.get s);
    get-put = get_as-put a to from h;
  }

module _ {A : Type 0} (a : Code A) where
  abbrev put_all : List A → Text → Text
  put_all [] rest = rest
  put_all (x ∷ xs) rest = a.put x (put_all xs rest)

  abbrev and_then : Option (A × Text) → (Text → Option (List A × Text)) → Option (List A × Text)
  and_then none more = none
  and_then (some (x, rest)) more = Option.map (λ p. (x ∷ p.0, p.1)) (more rest)

  abbrev get_all : ℕ → Text → Option (List A × Text)
  get_all zero s = some ([], s)
  get_all (suc n) s = and_then (a.get s) (λ rest. get_all n rest)

  abbrev get_list : Text → Option (List A × Text)
  get_list [] = none
  get_list (n ∷ s) = get_all n s

  pub get_all-put :
      (xs : List A) (rest : Text) → get_all (length xs) (put_all xs rest) ≡ some (xs, rest)
  get_all-put [] rest = refl
  get_all-put (x ∷ xs) rest = ground (arith, a.get-put x (put_all xs rest), get_all-put xs rest)

  abbrev list_code : Code (List A)
  list_code = record {
    put = λ xs rest. length xs ∷ put_all xs rest;
    get = get_list;
    get-put = get_all-put;
  }

  pub read_all-put :
      (validate : A → Option Violation) (xs : List A)
      → Option.map (λ p. p.0) (get_list (length xs ∷ put_all xs [])) ≡ some xs
  read_all-put validate xs = ground (arith, get_all-put xs [])

  abbrev pub json_of : (validate : A → Option Violation) → Json validate
  json_of validate = record {
    decode = λ s. Option.map (λ p. p.0) (get_list s);
    encode = λ xs. length xs ∷ put_all xs [];
    decode-encode = λ xs h. read_all-put validate xs;
  }

abbrev bool_code : Code Bool
bool_code = record { put = put_bool; get = get_bool; get-put = get_bool-put }

abbrev argument_code : Code PromptArgument
argument_code =
    code_as (text_code ⊗ (text_code ⊗ (text_code ⊗ bool_code)))
      (λ p. record { name = p.0; title = p.1.0; description = p.1.1.0; required = p.1.1.1 })
      (λ a. (a.name, (a.title, (a.description, a.required)))) (λ a. refl)

abbrev pub prompt_code : Code Prompt
prompt_code =
    code_as (text_code ⊗ (text_code ⊗ (text_code ⊗ (list_code argument_code ⊗ text_code))))
      (λ p. record {
        name = p.0;
        title = p.1.0;
        description = p.1.1.0;
        arguments = p.1.1.1.0;
        template = p.1.1.1.1;
      })
      (λ p. (p.name, (p.title, (p.description, (p.arguments, p.template))))) (λ p. refl)

abbrev pub resource_code : Code Resource
resource_code =
    code_as (text_code ⊗ (text_code ⊗ (text_code ⊗ (text_code ⊗ (text_code ⊗ text_code)))))
      (λ p. record {
        uri = p.0;
        name = p.1.0;
        title = p.1.1.0;
        description = p.1.1.1.0;
        mime_type = p.1.1.1.1.0;
        content = p.1.1.1.1.1;
      })
      (λ r. (r.uri, (r.name, (r.title, (r.description, (r.mime_type, r.content)))))) (λ r. refl)

abbrev pub strings_of : StringsJson
strings_of = record {
  decode = λ s. Option.map (λ p. p.0) (get_list text_code s);
  encode = λ texts. length texts ∷ put_all text_code texts [];
  decode-encode = λ texts valid. read_all-put text_code (λ text. none) texts;
}
