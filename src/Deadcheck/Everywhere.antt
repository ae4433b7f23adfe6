-- ===== src/Deadcheck/Everywhere.antt =====
-- What the gate on unreachable functions refuses.
use ax_go.Common.{
  ℕ, Text, text_eq, text_eq→≡, Bool, true, false, ◌&&◌, ◌||◌, Option, none, some, List, [], ◌∷◌,
  exists?, Result, ok, err, ◌≡◌, refl, sym, arith, Bool-cases, inl, inr, ◌≢◌,
}
use ax_go.Deadcheck.{
  DeadFunction, DeadPackage, Finding, Findings, has_key, record_finding, key_of, Decoded, in_scope,
  ReportError, read_functions, then_read, read_dead_packages, read_decoded, parse_report,
  build_tags, Tools, GateOutcome, analysis_failure, invalid_report, unreachable, passed,
  common_with, with_report, with_analysis, verdict_on, other_builds, check_builds, check_dead,
}

has_key-record_finding :
    (key key' : Text) (entry : Finding) (found : Findings)
    → has_key key (record_finding key' entry found) ≡ (text_eq key' key || has_key key found)
unfolding record_finding
has_key-record_finding key key' entry [] = refl
has_key-record_finding key key' entry ((k, prior) ∷ found) = elim (Bool-cases (text_eq k key')) [
  | inl same ↦ rw same (ground (arith, text_eq→≡ k key' same))
  | inr other ↦ rw other (ground (arith, has_key-record_finding key key' entry found))
]

-- One of the functions is in scope and has this key.
abbrev pub is_reported : (ℕ → Bool) → Text → Text → List DeadFunction → Bool
is_reported is_upper key path fns =
    exists? (λ fn. in_scope is_upper path fn.name && text_eq (key_of path fn) key) fns

-- One of the packages has such a function.
abbrev pub is_listed : (ℕ → Bool) → Text → List DeadPackage → Bool
is_listed is_upper key pkgs = exists? (λ p. is_reported is_upper key p.path p.funcs) pkgs

module _ (is_upper : ℕ → Bool) (key : Text) where
  -- The keys of the result are those of `found` and one more where `more` holds.
  abbrev Adds : Bool → Findings → Result ReportError Findings → Type 0
  Adds more found r =
      (found' : Findings) → r ≡ ok found' → has_key key found' ≡ (has_key key found || more)

  read_functions-Adds :
      (path : Text) (fns : List DeadFunction) (found : Findings)
      → Adds (is_reported is_upper key path fns) found (read_functions is_upper path fns found)
  unfolding read_functions
  read_functions-Adds path [] found found' q = ground arith
  read_functions-Adds path (fn ∷ fns) found found' q =
      let entry : Finding = record { symbol = key_of path fn; position = fn.position } in
      ground (
        arith,
        has_key-record_finding key (key_of path fn) entry found,
        read_functions-Adds path fns (record_finding (key_of path fn) entry found) found',
        read_functions-Adds path fns found found',
      )

  then_read-Adds :
      (r : Result ReportError Findings) (more more' : Bool) (found : Findings)
      (rest : Findings → Result ReportError Findings)
      → Adds more found r
      → ((found' : Findings) → Adds more' found' (rest found'))
      → Adds (more || more') found (then_read is_upper r rest)
  then_read-Adds (err e) more more' found rest a b found' q = cc
  then_read-Adds (ok mid) more more' found rest a b found' q =
      ground (arith, a mid refl, b mid found' q)

  read_dead_packages-Adds :
      (pkgs : List DeadPackage) (found : Findings)
      → Adds (is_listed is_upper key pkgs) found (read_dead_packages is_upper pkgs found)
  unfolding read_dead_packages
  read_dead_packages-Adds [] found found' q = ground arith
  read_dead_packages-Adds (p ∷ pkgs) found found' q = ground (
    arith,
    then_read-Adds (read_functions is_upper p.path p.funcs found)
        (is_reported is_upper key p.path p.funcs) (is_listed is_upper key pkgs) found
        (λ mid. read_dead_packages is_upper pkgs mid) (read_functions-Adds p.path p.funcs found)
        (λ mid. read_dead_packages-Adds pkgs mid) found',
  )

abbrev decoded_packages : Option Decoded → List DeadPackage
decoded_packages none = []
decoded_packages (some d) = d.packages

read_decoded_lem :
    (is_upper : ℕ → Bool) (key : Text) (o : Option Decoded) (found : Findings)
    → read_decoded is_upper o ≡ ok found
    → has_key key found ≡ is_listed is_upper key (decoded_packages o)
read_decoded_lem is_upper key none found q = cc
read_decoded_lem is_upper key (some d) found q =
    ground (arith, read_dead_packages-Adds is_upper key d.packages [] found)

has_key-common_with :
    (key : Text) (common report : Findings)
    → has_key key (common_with common report) ≡ (has_key key common && has_key key report)
has_key-common_with key [] report = refl
has_key-common_with key ((k, f) ∷ common) report = elim (Bool-cases (text_eq k key)) [
  | inl same ↦ ground (arith, text_eq→≡ k key same, has_key-common_with key common report)
  | inr other ↦ ground (arith, has_key-common_with key common report)
]

abbrev pub all? {ℓ} : {A : Type ℓ} → (A → Bool) → List A → Bool
all? p [] = true
all? p (x ∷ xs) = p x && all? p xs

module _ {E : Type 0} (t : Tools E) where
  abbrev packages_in : Result E Text → List DeadPackage
  packages_in (err e) = []
  packages_in (ok report) = decoded_packages (t.decode report)

  -- The report of one build lists an in-scope function with this key.
  abbrev pub is_dead_in : Text → Text → Bool
  is_dead_in key tags = is_listed t.is_upper key (packages_in (t.analyze tags))

  -- What a verdict says, `everywhere` being the keys that every build reports.
  abbrev pub IsSound : (Text → Bool) → GateOutcome E → Type 0
  IsSound everywhere (analysis_failure tags e) = t.analyze tags ≡ err e
  IsSound everywhere (invalid_report tags e) =
      (report : Text) × (t.analyze tags ≡ ok report)
      × (parse_report t.is_upper t.decode report ≡ err e)
  IsSound everywhere (unreachable found) =
      (found ≢ []) × ((key : Text) → has_key key found ≡ everywhere key)
  IsSound everywhere passed = (key : Text) → everywhere key ≡ false

  with_report-IsSound :
      (everywhere : Text → Bool) (tags report : Text) (r : Result ReportError Findings)
      (next : Findings → GateOutcome E)
      → t.analyze tags ≡ ok report
      → parse_report t.is_upper t.decode report ≡ r
      → ((found : Findings)
          → ((key : Text) → has_key key found ≡ is_dead_in key tags)
          → IsSound everywhere (next found))
      → IsSound everywhere (with_report t tags r next)
  unfolding parse_report
  with_report-IsSound everywhere tags report (err e) next was q k = (report, was, q)
  with_report-IsSound everywhere tags report (ok found) next was q k =
      k found (λ key. ground (arith, read_decoded_lem t.is_upper key (t.decode report) found))

  with_analysis-IsSound :
      (everywhere : Text → Bool) (tags : Text) (a : Result E Text) (next : Findings → GateOutcome E)
      → t.analyze tags ≡ a
      → ((found : Findings)
          → ((key : Text) → has_key key found ≡ is_dead_in key tags)
          → IsSound everywhere (next found))
      → IsSound everywhere (with_analysis t tags a next)
  with_analysis-IsSound everywhere tags (err e) next was k = was
  with_analysis-IsSound everywhere tags (ok report) next was k =
      with_report-IsSound everywhere tags report _ next was refl k

  verdict_on-IsSound :
      (everywhere : Text → Bool) (common : Findings)
      → ((key : Text) → has_key key common ≡ everywhere key)
      → IsSound everywhere (verdict_on t common)
  verdict_on-IsSound everywhere [] h = λ key. sym (h key)
  verdict_on-IsSound everywhere (f ∷ common) h = (ground arith, h)

  other_builds-IsSound :
      (rest : List Text) (everywhere : Text → Bool) (common : Findings) (so_far : Text → Bool)
      → ((key : Text) → has_key key common ≡ so_far key)
      → ((key : Text) → everywhere key ≡ (so_far key && all? (is_dead_in key) rest))
      → IsSound everywhere (other_builds t rest common)
  unfolding other_builds
  other_builds-IsSound [] everywhere common so_far h same =
      verdict_on-IsSound everywhere common (λ key. ground (arith, h key, same key))
  other_builds-IsSound (tags ∷ rest) everywhere common so_far h same =
      with_analysis-IsSound everywhere tags (t.analyze tags) _ refl (λ report listed.
        other_builds-IsSound rest everywhere (common_with common report)
          (λ key. so_far key && is_dead_in key tags)
          (λ key. ground (arith, has_key-common_with key common report, h key, listed key))
          (λ key. ground (arith, same key)))

  -- The gate fails on unreachable functions exactly when some function that is in scope is reported
  -- dead in all four builds, and it lists these and no others; it passes when there is none. It
  -- gives another verdict only if an analysis fails or a report is invalid, which the verdict names.
  pub check_dead-IsSound : IsSound (λ key. all? (is_dead_in key) build_tags) (check_dead t)
  unfolding check_dead check_builds
  check_dead-IsSound = with_analysis-IsSound _ [] (t.analyze []) _ refl (λ report listed.
      other_builds-IsSound _ _ report (λ key. is_dead_in key []) listed (λ key. refl))
