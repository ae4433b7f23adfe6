-- ===== src/Telemetry.antt =====
-- Diagnostics of internal/telemetry/telemetry.go: sanitized text, and the exporter that reports an
-- outage once and never fails a command.
pub mod Once
use ax_go.Common.{
  ℕ, Text, codes, Bool, true, false, ◌||◌, Option, none, some, List, [], ◌∷◌, ◌++◌, map, All, ltb,
  ◌==◌, ◌≤◌, ◌≡◌, ◌≢◌, refl, arith, length, if◌then◌else◌,
}

unfoldable pub sanitize_rune : ℕ → ℕ
sanitize_rune r = if ltb r 32 || r == 0x7f then b' ' else r

-- `SanitizeDiagnostic`
unfoldable pub sanitize_diagnostic : Text → Text
unfolding sanitize_rune
sanitize_diagnostic value = map sanitize_rune value

-- `writeDiagnostic`, with the text of the error.
unfoldable pub write_diagnostic : Text → Option Text → Text
unfolding sanitize_diagnostic
write_diagnostic message none = codes "ax: " ++ (message ++ 10 ∷ [])
write_diagnostic message (some err) =
    codes "ax: " ++ (message ++ (codes ": " ++ (sanitize_diagnostic err ++ 10 ∷ [])))

-- Neither an ASCII control character nor DEL.
abbrev pub IsClean : Text → Type 0
IsClean s = All (λ c. (32 ≤ c) × (c ≢ 0x7f)) s

-- A sanitized text has no control character, keeps its length, and is left alone by sanitizing
-- again.
pub sanitize_diagnostic-IsClean :
    (value : Text)
    → IsClean (sanitize_diagnostic value)
      × (length (sanitize_diagnostic value) ≡ length value)
      × (sanitize_diagnostic (sanitize_diagnostic value) ≡ sanitize_diagnostic value)
unfolding sanitize_diagnostic
sanitize_diagnostic-IsClean [] = (tt, refl, refl)
sanitize_diagnostic-IsClean (c ∷ value) =
    let (clean, same, idem) = sanitize_diagnostic-IsClean value in
    (((ground arith, λ e. ground arith), clean), ground arith, ground arith)

-- A text without control characters is reported as it is.
pub sanitize_diagnostic-of_clean :
    (value : Text) → IsClean value → sanitize_diagnostic value ≡ value
unfolding sanitize_diagnostic
sanitize_diagnostic-of_clean [] h = refl
sanitize_diagnostic-of_clean (c ∷ value) h = ground (arith, sanitize_diagnostic-of_clean value h.1)
