-- ===== src/McpServer/Errors.antt =====
-- `toAxError` and `validationError`: the envelope that a failed call returns.
use ax_go.Common.{Text, Option, none, some, [], ◌∷◌, is_empty, ◌≡◌, refl, arith, if◌then◌else◌}
use ax_go.Contract.Codes.{internal_error, validation_error}
use ax_go.Contract.Context.{Context, trace_id_from_context}
use ax_go.Contract.Errors.{
  GoError, AxError, as_ax, to_error, error_text, error_exit_code, ax_exit_code, exit_validation,
  new_error, with_error_tool, with_error_version, with_error_exit_code, apply_options,
}

-- `dispatcher`'s name and version.
pub record Server : Type 0 where
  pub name : Text
  pub version : Text

abbrev filled : Text → Text → Text
filled value default = if is_empty value then default else value

abbrev fill : Server → Option Context → AxError → AxError
fill server ctx e = record e {
  envelope = record e.envelope {
    tool = filled e.tool server.name;
    version = filled e.version server.version;
    trace_id = filled e.trace_id (trace_id_from_context ctx);
  };
}

unfoldable pub to_ax_error : Server → Option Context → GoError → AxError
to_ax_error server ctx err = elim (as_ax err) [
  | some e ↦ fill server ctx e
  | none ↦ new_error ctx internal_error (error_text err) (
      with_error_tool server.name
      ∷ with_error_version server.version
      ∷ with_error_exit_code (error_exit_code (some err))
      ∷ [])
]

unfoldable pub validation : Server → Option Context → Text → AxError
validation server ctx message = new_error ctx validation_error message (
    with_error_tool server.name
    ∷ with_error_version server.version
    ∷ with_error_exit_code exit_validation
    ∷ [])

-- The envelope of a failed call carries the exit code that the error itself maps to.
pub to_ax_error_exit :
    (server : Server) (ctx : Option Context) (err : GoError)
    → ax_exit_code (some (to_ax_error server ctx err)) ≡ error_exit_code (some err)
unfolding to_ax_error ax_exit_code error_exit_code new_error apply_options with_error_tool
    with_error_version with_error_exit_code
to_ax_error_exit server ctx err = ground arith

pub validation_exit :
    (server : Server) (ctx : Option Context) (message : Text)
    → error_exit_code (some (to_error (validation server ctx message))) ≡ exit_validation
unfolding validation error_exit_code to_error as_ax ax_exit_code new_error apply_options
    with_error_tool with_error_version with_error_exit_code
validation_exit server ctx message = refl
