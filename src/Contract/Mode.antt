-- ===== src/Contract/Mode.antt =====
-- Output modes, of contract/mode.go. An error stands for its message with the value that it quotes.
pub mod Precedence
use ax_go.Common.{
  Text, codes, text_eq, trim_space, to_lower, Bool, true, false, ◌||◌, List, [], ◌∷◌, map, is_empty,
  not, exists?, Result, ok, err, if◌then◌else◌,
}

pub data Mode : Type 0 where
  json human : Mode

pub data ModeError : Type 0 where
  unknown_output_mode : Text → ModeError
  unknown_agent_mode : Text → ModeError

-- `Mode.String`
unfoldable pub mode_string : Mode → Text
mode_string json = codes "json"
mode_string human = codes "human"

abbrev pub mode_detection_rule : Text
mode_detection_rule = codes "--format flag > AGENT_MODE env > TTY detection"

-- strings.ToLower(strings.TrimSpace(value))
unfoldable pub normalized : Text → Text
normalized value = map to_lower (trim_space value)

-- A `case` that lists several words.
unfoldable pub one_of : List Text → Text → Bool
one_of words value = exists? (text_eq value) words

abbrev json_words : List Text
json_words = codes "json" ∷ codes "agent" ∷ codes "machine" ∷ []

abbrev human_words : List Text
human_words = codes "human" ∷ codes "text" ∷ []

abbrev agent_on : List Text
agent_on =
    codes "1"
    ∷ codes "true"
    ∷ codes "yes"
    ∷ codes "on"
    ∷ codes "json"
    ∷ codes "agent"
    ∷ codes "machine"
    ∷ []

abbrev agent_off : List Text
agent_off = codes "0" ∷ codes "false" ∷ codes "no" ∷ codes "off" ∷ codes "human" ∷ codes "text" ∷ []

unfoldable pub parse_mode : Text → Result ModeError Mode
unfolding one_of
parse_mode value =
    if one_of json_words (normalized value)
    then ok json
    else if one_of human_words (normalized value)
    then ok human
    else err (unknown_output_mode value)

unfoldable pub parse_agent_mode : Text → Result ModeError Mode
unfolding one_of
parse_agent_mode value =
    if one_of agent_on (normalized value)
    then ok json
    else if one_of agent_off (normalized value)
    then ok human
    else err (unknown_agent_mode value)

unfoldable pub resolve_mode : Text → Text → Bool → Result ModeError Mode
resolve_mode explicit_format agent_mode stdout_is_tty =
    if not (is_empty (trim_space explicit_format))
    then parse_mode explicit_format
    else if not (is_empty (trim_space agent_mode))
    then parse_agent_mode agent_mode
    else if stdout_is_tty
    then ok human
    else ok json
