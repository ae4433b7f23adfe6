-- ===== src/Contract/Errors/Wire.antt =====
-- The JSON of an error envelope, and `WriteError` of contract/error.go.
use ax_go.Common.{
  Text, codes, Bool, Option, none, some, List, [], ◌∷◌, ◌++◌, is_zero, is_empty, text_lt, ◌≡◌, ◌≢◌,
  ◌⊎◌, if◌then◌else◌,
}
use ax_go.Common.Sorts.{sort}
use ax_go.Contract.Context.{background}
use ax_go.Contract.Codes.{internal_error}
use ax_go.Contract.Errors.{
  Envelope, GoError, plain, wrap, AxError, Assoc, as_ax, error_text, new_error,
}
use ax_go.Contract.Json.{
  Json, boolean, integer, string, array, object, Items, nil, cons, Fields, done, field, write_json,
}
use ax_go.Contract.Json.OneLine.{IsUnbroken}

unfoldable pub string_items : List Text → Items
string_items [] = nil
string_items (s ∷ ss) = cons (string s) (string_items ss)

unfoldable pub assoc_fields : Assoc → Fields
assoc_fields [] = done
assoc_fields ((k, v) ∷ m) = field k v (assoc_fields m)

-- encoding/json writes a map by sorted keys.
unfoldable pub map_json : Assoc → Json
unfolding assoc_fields sort
map_json m = object (assoc_fields (sort (λ a b. text_lt a.0 b.0) m))

-- A field with the tag omitempty.
abbrev field_unless : Bool → Text → Json → Fields → Fields
field_unless omitted k v rest = if omitted then rest else field k v rest

abbrev retryable_field : Option Bool → Fields → Fields
retryable_field none rest = rest
retryable_field (some b) rest = field (codes "retryable") (boolean b) rest

unfoldable pub envelope_json : Envelope → Json
unfolding map_json string_items
envelope_json e =
    let backoff =
      field_unless (is_zero e.retry_after_seconds) (codes "retry_after_seconds")
        (integer e.retry_after_seconds) done in
    let retry = retryable_field e.retryable backoff in
    let suggested =
      field_unless (is_empty e.suggestions) (codes "suggestions")
        (array (string_items e.suggestions)) retry in
    let detailed =
      field_unless (is_empty e.context) (codes "context") (map_json e.context) suggested in
    let fixed =
      field_unless (is_empty e.actionable_fix) (codes "actionable_fix") (string e.actionable_fix)
        detailed in
    object (
      field (codes "error_code") (string e.error_code) (
        field (codes "message") (string e.message) (
          field (codes "trace_id") (string e.trace_id) (
            field (codes "tool") (string e.tool) (
              field (codes "version") (string e.version)
                (field (codes "schema_version") (string e.schema_version) fixed))))))

abbrev envelope_or : Option AxError → GoError → AxError
envelope_or none err = new_error (some background) internal_error (error_text err) []
envelope_or (some e) err = e

-- The line of an error.
unfoldable pub error_line : GoError → Text
unfolding envelope_json as_ax error_text new_error write_json
error_line err = write_json (envelope_json (envelope_or (as_ax err) err).envelope)

-- `WriteError`, for a writer that accepts what it gets: what is written, and the error returned.
-- json.Marshal fails with `refused` if the context holds a value that has no JSON.
unfoldable pub write_error : Option Text → Option GoError → Text × Option GoError
unfolding error_line
write_error refused none = ([], none)
write_error none (some err) = (error_line err, none)
write_error (some m) (some err) =
    ([], some (wrap (codes "marshal error envelope: " ++ m) (plain m)))

-- One line and its line feed.
abbrev pub IsLine : Text → Type 0
IsLine text = (line : Text) × IsUnbroken line × (text ≡ line ++ 10 ∷ [])

abbrev pub IsWritten : Option GoError → Text × Option GoError → Type 0
IsWritten err result =
    (((err ≡ none) ⊎ (result.1 ≢ none)) × (result.0 ≡ []))
    ⊎ ((err ≢ none) × (result.1 ≡ none) × IsLine result.0)
