-- ===== src/Schema/Validate/Resources.antt =====
-- Which resources are valid.
use ax_go.Common.{
  ℕ, ◌≤◌, Text, codes, Bool, false, Option, none, some, List, [], ◌∷◌, length, exists?, All, ◌≡◌,
  ◌≢◌, ◌↔◌, refl, arith, Option-cases, inl, inr,
}
use ax_go.Common.Utf8.{valid_string, runes, contains_func, is_control}
use ax_go.Schema.{Resource}
use ax_go.Schema.Validate.{
  max_resource_uri_bytes, max_resource_content_bytes, check_scheme, check_uri, is_control_or_space,
  validate_resource,
}
use ax_go.Schema.Validate.Prompts.{IsUtf8, check_utf8_iff}

-- The text is UTF-8, and none of its runes passes the test.
abbrev pub Lacks : (ℕ → Bool) → Text → Type 0
Lacks p s = (rs : List ℕ) × (runes s ≡ some rs) × All (λ r. p r ≡ false) rs

all_pass_not : (p : ℕ → Bool) (rs : List ℕ) → (exists? p rs ≡ false) ↔ All (λ r. p r ≡ false) rs
all_pass_not p [] = ((λ h. tt), (λ h. refl))
all_pass_not p (r ∷ rs) = ground (arith, all_pass_not p rs)

contains_func_iff : (p : ℕ → Bool) (s : Text) → (IsUtf8 s × (contains_func s p ≡ false)) ↔ Lacks p s
unfolding valid_string contains_func
contains_func_iff p s = elim (Option-cases (runes s)) [
  | inl bad ↦ (λ h. absurd (ground arith), λ (rs, q, _). absurd (ground arith))
  | inr (rs, good) ↦ (
    λ h. (rs, good, ground (arith, all_pass_not p rs)),
    λ (rs', q, lacks). ground (arith, all_pass_not p rs'),
  )
]

module _ (parse_scheme : Text → Option Text) where
  pub record IsResource (r : Resource) : Type 0 where
    pub uri_written : r.uri ≢ []
    pub uri_bounded : length r.uri ≤ max_resource_uri_bytes
    pub uri_plain : Lacks is_control_or_space r.uri
    pub absolute : (scheme : Text) × (parse_scheme r.uri ≡ some scheme) × (scheme ≢ [])
    pub name_written : r.name ≢ []
    pub name_utf8 : IsUtf8 r.name
    pub title : IsUtf8 r.title
    pub description : IsUtf8 r.description
    pub mime_type : Lacks is_control r.mime_type
    pub content_bounded : length r.content ≤ max_resource_content_bytes
    pub content_utf8 : IsUtf8 r.content

  abbrev IsAbsolute : Option Text → Type 0
  IsAbsolute o = (scheme : Text) × (o ≡ some scheme) × (scheme ≢ [])

  check_scheme_iff : (o : Option Text) → (check_scheme o ≡ none) ↔ IsAbsolute o
  check_scheme_iff none = ((λ h. cc), (λ (s, q, _). cc))
  check_scheme_iff (some []) = ((λ h. cc), (λ (s, q, ne). absurd (ground arith)))
  check_scheme_iff (some (c ∷ s)) = ((λ h. (c ∷ s, refl, λ e. cc)), (λ h. refl))

  -- What the checks ask, each by its own test.
  abbrev Passes : Resource → Type 0
  Passes r =
      (r.uri ≢ [])
      × (length r.uri ≤ max_resource_uri_bytes)
      × IsUtf8 r.uri
      × (contains_func r.uri is_control_or_space ≡ false)
      × (check_scheme (parse_scheme r.uri) ≡ none)
      × (r.name ≢ [])
      × IsUtf8 r.name
      × IsUtf8 r.title
      × IsUtf8 r.description
      × IsUtf8 r.mime_type
      × (contains_func r.mime_type is_control ≡ false)
      × (length r.content ≤ max_resource_content_bytes)
      × IsUtf8 r.content

  validate_resource-Passes : (r : Resource) → (validate_resource parse_scheme r ≡ none) ↔ Passes r
  unfolding validate_resource check_uri
  validate_resource-Passes r = ground (
    arith,
    check_utf8_iff (codes "uri") r.uri,
    check_utf8_iff (codes "name") r.name,
    check_utf8_iff (codes "title") r.title,
    check_utf8_iff (codes "description") r.description,
    check_utf8_iff (codes "mime_type") r.mime_type,
    check_utf8_iff (codes "content") r.content,
  )

  -- `validateResource` finds nothing exactly if the resource is valid: its URI is not empty, has at
  -- most 2048 bytes, no space and no control character, and a scheme; it has a name; its texts are
  -- UTF-8, its MIME type without control characters; and its content has at most 1 MiB.
  pub validate_resource_iff :
      (r : Resource) → (validate_resource parse_scheme r ≡ none) ↔ IsResource r
  validate_resource_iff r =
      let (sound, complete) = validate_resource-Passes r in
      let (uri_to, uri_from) = contains_func_iff is_control_or_space r.uri in
      let (mime_to, mime_from) = contains_func_iff is_control r.mime_type in
      let (scheme_to, scheme_from) = check_scheme_iff (parse_scheme r.uri) in
      (
        (λ h.
            let (a, b, c, d, e, f, g, i, j, k, l, m, n) = sound h in
            record {
              uri_written = a;
              uri_bounded = b;
              uri_plain = uri_to (c, d);
              absolute = scheme_to e;
              name_written = f;
              name_utf8 = g;
              title = i;
              description = j;
              mime_type = mime_to (k, l);
              content_bounded = m;
              content_utf8 = n;
            }),
        (λ v.
            let (c, d) = uri_from v.uri_plain in
            let (k, l) = mime_from v.mime_type in
            complete (
              v.uri_written,
              v.uri_bounded,
              c,
              d,
              scheme_from v.absolute,
              v.name_written,
              v.name_utf8,
              v.title,
              v.description,
              k,
              l,
              v.content_bounded,
              v.content_utf8,
            )),
      )
