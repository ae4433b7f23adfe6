-- ===== src/Contract/Mode/Precedence.antt =====
-- Which input decides the mode, and what the two vocabularies share.
use ax_go.Common.{
  Text, text_eq, text_eq→≡, trim_space, to_lower, Bool, true, false, List, [], ◌∷◌, is_empty, ok,
  err, ◌≡◌, refl, ◌⊎◌, inl, inr, arith, Bool-cases, All,
}
use ax_go.Contract.Mode.{
  Mode, json, human, ModeError, unknown_output_mode, unknown_agent_mode, mode_string, normalized,
  one_of, human_words, agent_on, parse_mode, parse_agent_mode, resolve_mode,
}

one_of-All {ℓ} :
    (P : Text → Type ℓ) (words : List Text) (v : Text) → All P words → one_of words v ≡ true → P v
unfolding one_of
one_of-All P [] v h e = cc
one_of-All P (w ∷ words) v h e = elim (Bool-cases (text_eq v w)) [
  | inl q ↦ rw (text_eq→≡ v w q) h.0
  | inr q ↦ one_of-All P words v h.1 (rw q at e)
]

-- No word of the human side is one of the machine side.
human_word-not-on : (v : Text) → one_of human_words v ≡ true → one_of agent_on v ≡ false
unfolding one_of text_eq
human_word-not-on v = one_of-All (λ w. one_of agent_on w ≡ false) human_words v (refl, (refl, tt))

-- A value that the explicit format accepts means the same mode in AGENT_MODE.
pub parse_agent_mode_extends :
    (value : Text) (m : Mode) → parse_mode value ≡ ok m → parse_agent_mode value ≡ ok m
unfolding parse_mode parse_agent_mode one_of
parse_agent_mode_extends value m h = ground (arith, human_word-not-on (normalized value))

-- The wire value of a mode is read back as that mode, by both parsers.
pub parse-mode_string :
    (m : Mode) → (parse_mode (mode_string m) ≡ ok m) × (parse_agent_mode (mode_string m) ≡ ok m)
unfolding parse_mode parse_agent_mode normalized mode_string trim_space to_lower text_eq
parse-mode_string json = (refl, refl)
parse-mode_string human = (refl, refl)

-- Text behind an explicit format is never read, and with neither value given detection cannot fail.
pub resolve_mode_total :
    (explicit agent : Text) (tty : Bool) (e : ModeError)
    → resolve_mode explicit agent tty ≡ err e
    → (e ≡ unknown_output_mode explicit)
      ⊎ ((e ≡ unknown_agent_mode agent) × (is_empty (trim_space explicit) ≡ true))
unfolding resolve_mode parse_mode parse_agent_mode
resolve_mode_total explicit agent tty e h = ground arith
