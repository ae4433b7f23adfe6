-- ===== src/McpServer/Prompts/Served.antt =====
-- What a served prompt is.
use ax_go.Common.{
  ℕ, zero, suc, ◌+◌, ◌*◌, ◌^◌, ◌≤◌, ◌<◌, Text, has_prefix, true, false, none, List, [], ◌∷◌, length,
  length-append, if◌then◌else◌, ok, All, ◌≡◌, ◌↔◌, ◌⊎◌, refl, ap, arith, Option-cases, inl, inr,
}
use ax_go.Schema.{PromptArgument, Prompt}
use ax_go.Schema.Validate.{max_template_bytes}
use ax_go.Schema.Template.{open_delim, Values, value_of, render_template, rendered_len}
use ax_go.Schema.Template.Grammar.{placeholder_at}
use ax_go.Schema.Template.Render.{spec_render, render_template_lem}
use ax_go.Schema.Template.Size.{rendered_len-render_template}
use ax_go.McpServer.Prompts.{
  max_prompt_argument_bytes, max_rendered_prompt_bytes, PromptResult, is_argument, check_values,
  has_value, check_required, prompt_handler,
}

-- A value is for a declared argument and has at most 64 KiB.
abbrev pub IsValue : Prompt → Text × Text → Type 0
IsValue prompt v = (is_argument prompt v.0 ≡ true) × (length v.1 ≤ max_prompt_argument_bytes)

-- A required argument has a value.
abbrev pub IsGiven : Values → PromptArgument → Type 0
IsGiven values a = (a.required ≡ false) ⊎ (has_value values a.name ≡ true)

check_values_iff :
    (prompt : Prompt) (values : Values)
    → (check_values prompt values ≡ none) ↔ All (IsValue prompt) values
unfolding check_values
check_values_iff prompt [] = ((λ h. tt), (λ h. refl))
check_values_iff prompt ((name, value) ∷ values) = ground (arith, check_values_iff prompt values)

check_required_iff :
    (values : Values) (arguments : List PromptArgument)
    → (check_required values arguments ≡ none) ↔ All (IsGiven values) arguments
unfolding check_required
check_required_iff values [] = ((λ h. tt), (λ h. refl))
check_required_iff values (a ∷ arguments) = ground (arith, check_required_iff values arguments)

value_of-bound :
    (prompt : Prompt) (name : Text) (values : Values)
    → All (IsValue prompt) values
    → length (value_of name values) ≤ max_prompt_argument_bytes
unfolding value_of
value_of-bound prompt name [] h = omega arith
value_of-bound prompt name ((n, v) ∷ values) h = ground (arith, value_of-bound prompt name values)

-- Each character of the template gives itself or one value.
spec_render-bound :
    (prompt : Prompt) (values : Values) (skip copy : ℕ) (s : Text)
    → All (IsValue prompt) values
    → length (spec_render values skip copy s) ≤ length s * (max_prompt_argument_bytes + 1)
unfolding spec_render
spec_render-bound prompt values skip copy [] h = omega arith
spec_render-bound prompt values (suc skip) copy (c ∷ s) h =
    omega (arith, spec_render-bound prompt values skip copy s h)
spec_render-bound prompt values zero (suc copy) (c ∷ s) h =
    omega (arith, spec_render-bound prompt values 0 copy s h)
spec_render-bound prompt values zero zero (c ∷ s) h = elim (Option-cases (placeholder_at (c ∷ s))) [
  | inl text ↦
      rw (text, spec_render)
        (omega (
          arith,
          spec_render-bound prompt values 0 (if has_prefix open_delim (c ∷ s) then 1 else 0) s h,
        ))
  | inr (name, found) ↦
      rw (found, spec_render)
        (omega (
          arith,
          value_of-bound prompt name values h,
          length-append (value_of name values) (spec_render values (length name + 3) 0 s),
          spec_render-bound prompt values (length name + 3) 0 s h,
        ))
]

render-bound :
    (prompt : Prompt) (values : Values)
    → All (IsValue prompt) values
    → length prompt.template ≤ max_template_bytes
    → length (render_template prompt.template values) < 2 ^ 63
render-bound prompt values h t = omega (
  arith,
  ap length (render_template_lem prompt.template values),
  spec_render-bound prompt values 0 0 prompt.template h,
)

-- What is served: the rendering, at most 1 MiB of it, to a call whose values are for declared
-- arguments, at most 64 KiB each, and give every required one.
pub record IsServed (prompt : Prompt) (values : Values) (result : PromptResult) : Type 0 where
  pub rendered : result.text ≡ spec_render values 0 0 prompt.template
  pub described : result.description ≡ prompt.description
  pub bounded : length result.text ≤ max_rendered_prompt_bytes
  pub declared : All (IsValue prompt) values
  pub complete : All (IsGiven values) prompt.arguments
  pub foretold : rendered_len prompt.template values ≡ length result.text

-- A call of prompts/get that succeeds on a prompt with a template of at most 64 KiB answers with the
-- rendering of the template, which has at most 1 MiB: its values are for declared arguments and have
-- at most 64 KiB each, and every required argument is given. The size that is computed in 64 bits
-- before anything is rendered is its length exactly.
pub prompt_handler-IsServed :
    (prompt : Prompt) (values : Values) (result : PromptResult)
    → length prompt.template ≤ max_template_bytes
    → prompt_handler prompt values ≡ ok result
    → IsServed prompt values result
unfolding prompt_handler
prompt_handler-IsServed prompt values result t h = ground (
  arith,
  check_values_iff prompt values,
  check_required_iff values prompt.arguments,
  rendered_len-render_template prompt.template values,
  render_template_lem prompt.template values,
  render-bound prompt values,
)
