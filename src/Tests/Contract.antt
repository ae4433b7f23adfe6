-- ===== src/Tests/Contract.antt =====
-- Errors, modes, metadata and JSON at concrete inputs.
use ax_go.Common.{
  Text, codes, true, none, List, [], ◌∷◌, ok, err, ◌≡◌, refl, trim_space, to_lower, text_eq,
}
use ax_go.Contract.Mode.{
  json, unknown_agent_mode, parse_mode, parse_agent_mode, resolve_mode, normalized,
}
use ax_go.Contract.Context.{metadata_from_context}
use ax_go.Contract.Json.{Json, string, array, cons, nil}
use ax_go.Contract.Errors.{GoError, plain, wrap, deadline_exceeded, joined}
use ax_go.Contract.Warnings.{Warning, Success}

abbrev late : GoError
late = joined (plain (codes "stop")) (wrap (codes "get: deadline") deadline_exceeded)

abbrev two_lines : Json
two_lines = array (cons (string (codes "a\nb")) nil)

agent_word : parse_mode (codes " Machine ") ≡ ok json
unfolding parse_mode text_eq normalized trim_space to_lower
agent_word = refl

bad_agent : resolve_mode [] (codes "maybe") true ≡ err (unknown_agent_mode (codes "maybe"))
unfolding resolve_mode parse_agent_mode trim_space text_eq normalized to_lower
bad_agent = refl

abbrev payload : Success Text
payload = record { payload = codes "x"; meta = metadata_from_context none; warnings = [] }

abbrev blank_and_stated : List Warning
blank_and_stated =
    record { code = codes " "; message = codes "m" }
    ∷ record { code = codes "slow"; message = codes "took long" }
    ∷ []
