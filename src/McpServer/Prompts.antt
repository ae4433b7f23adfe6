-- ===== src/McpServer/Prompts.antt =====
-- The handler of prompts/get, of internal/mcpserver/prompts.go. The values of a call are the entries
-- of its map in the order in which it is walked; an error is data here, without its message.
pub mod Served
use ax_go.Common.{
  ℕ, ◌+◌, ◌*◌, ◌^◌, Text, text_eq, Bool, true, false, not, ◌&&◌, Option, none, some, List, [], ◌∷◌,
  exists?, length, ltb, if◌then◌else◌, Result, ok, err,
}
use ax_go.Common.Words.{less64}
use ax_go.Schema.{PromptArgument, Prompt}
use ax_go.Schema.Template.{Values, render_template, rendered_len}

abbrev pub max_prompt_argument_bytes : ℕ
max_prompt_argument_bytes = 64 * 2 ^ 10

abbrev pub max_rendered_prompt_bytes : ℕ
max_rendered_prompt_bytes = 2 ^ 20

pub data PromptError : Type 0 where
  unknown_argument : Text → PromptError
  argument_too_long : Text → PromptError
  missing_argument : Text → PromptError
  rendering_too_long : ℕ → PromptError

abbrev pub is_argument : Prompt → Text → Bool
is_argument prompt name = exists? (λ (a : PromptArgument). text_eq a.name name) prompt.arguments

-- The loop over the values.
unfoldable pub check_values : Prompt → Values → Option PromptError
check_values prompt [] = none
check_values prompt ((name, value) ∷ values) =
    let rest = check_values prompt values in
    if not (is_argument prompt name)
    then some (unknown_argument name)
    else if ltb max_prompt_argument_bytes (length value)
    then some (argument_too_long name)
    else rest

abbrev pub has_value : Values → Text → Bool
has_value values name = exists? (λ (v : Text × Text). text_eq v.0 name) values

-- The loop over the arguments.
unfoldable pub check_required : Values → List PromptArgument → Option PromptError
check_required values [] = none
check_required values (a ∷ arguments) =
    let rest = check_required values arguments in
    if a.required && not (has_value values a.name) then some (missing_argument a.name) else rest

-- What prompts/get answers: the description and the text of the one message.
pub record PromptResult : Type 0 where
  pub description : Text
  pub text : Text

abbrev pub render_bounded : Prompt → Values → ℕ → Result PromptError PromptResult
render_bounded prompt values size =
    if less64 max_rendered_prompt_bytes size
    then err (rendering_too_long size)
    else ok
        (record { description = prompt.description; text = render_template prompt.template values })

abbrev pub if_checked :
    Option PromptError → Result PromptError PromptResult → Result PromptError PromptResult
if_checked none rest = rest
if_checked (some e) rest = err e

unfoldable pub prompt_handler : Prompt → Values → Result PromptError PromptResult
prompt_handler prompt values = if_checked (check_values prompt values) (
    if_checked (check_required values prompt.arguments)
      (render_bounded prompt values (rendered_len prompt.template values)))
