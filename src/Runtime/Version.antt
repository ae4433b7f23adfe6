-- ===== src/Runtime/Version.antt =====
-- The version that a tool reports, of version.go. The build information of the running binary is
-- an argument.
use ax_go.Common.{
  Text, codes, text_eq, Bool, true, false, not, ◌&&◌, Option, none, some, List, [], ◌∷◌, ◌++◌,
  is_empty, ◌≡◌, ◌≢◌, refl, arith, ap, text_eq_iff, length, length-append, if◌then◌else◌,
}

abbrev pub version_unknown : Text
version_unknown = codes "0.0.0-unknown"

abbrev version_dev : Text
version_dev = codes "dev"

abbrev version_bare_unknown : Text
version_bare_unknown = codes "unknown"

abbrev build_info_main_version_dev : Text
build_info_main_version_dev = codes "(devel)"

abbrev dirty_suffix : Text
dirty_suffix = codes "-dirty"

pub record BuildInfo : Type 0 where
  pub main_version : Text
  pub settings : List (Text × Text)

unfoldable pub is_usable_version : Text → Bool
is_usable_version version =
    not (is_empty version)
    && not (text_eq version version_dev)
    && not (text_eq version version_bare_unknown)
    && not (text_eq version version_unknown)
    && not (text_eq version build_info_main_version_dev)

-- The loop over the settings: the last revision, and whether the last modified flag is true.
unfoldable pub vcs_settings : List (Text × Text) → Text × Bool → Text × Bool
vcs_settings [] (revision, modified) = (revision, modified)
vcs_settings ((key, value) ∷ rest) (revision, modified) = vcs_settings rest (
    if text_eq key (codes "vcs.revision")
    then (value, modified)
    else if text_eq key (codes "vcs.modified")
    then (revision, text_eq value (codes "true"))
    else (revision, modified))

unfoldable pub resolve_version_from : Text → Option BuildInfo → Text
resolve_version_from injected none =
    if is_usable_version injected then injected else version_unknown
resolve_version_from injected (some info) =
    let (revision, modified) = vcs_settings info.settings ([], false) in
    if is_usable_version injected
    then injected
    else if is_usable_version info.main_version
    then info.main_version
    else if not (is_usable_version revision)
    then version_unknown
    else if modified
    then revision ++ dirty_suffix
    else revision

-- Neither empty nor the bare word of an unversioned build.
abbrev pub IsStated : Text → Type 0
IsStated v = (v ≢ []) × (v ≢ version_dev) × (v ≢ version_bare_unknown)

usable-IsStated : (v : Text) → is_usable_version v ≡ true → IsStated v
unfolding is_usable_version
usable-IsStated v h = (
  (λ e. ground (arith, ap is_empty e)),
  (λ e. ground (arith, text_eq_iff v version_dev)),
  (λ e. ground (arith, text_eq_iff v version_bare_unknown)),
)

dirty-IsStated : (v : Text) → IsStated (v ++ dirty_suffix)
dirty-IsStated [] = ((λ e. cc), (λ e. cc), (λ e. cc))
dirty-IsStated (c ∷ []) = ((λ e. cc), (λ e. cc), (λ e. ground arith))
dirty-IsStated (c ∷ d ∷ v) = (
  (λ e. cc),
  (λ e. omega (arith, length-append v dirty_suffix, ap length e)),
  (λ e. omega (arith, length-append v dirty_suffix, ap length e)),
)

if-IsStated :
    (b : Bool) (x y : Text)
    → (b ≡ true → IsStated x)
    → (b ≡ false → IsStated y)
    → IsStated (if b then x else y)
if-IsStated true x y hx hy = hx refl
if-IsStated false x y hx hy = hy refl

unknown-IsStated : IsStated version_unknown
unknown-IsStated = ((λ e. cc), (λ e. cc), (λ e. cc))

-- The version is never empty, and never the bare word of an unversioned build.
pub resolve_version_from-IsStated :
    (injected : Text) (info : Option BuildInfo) → IsStated (resolve_version_from injected info)
unfolding resolve_version_from
resolve_version_from-IsStated injected none =
    if-IsStated _ _ _ (usable-IsStated injected) (λ h. unknown-IsStated)
resolve_version_from-IsStated injected (some info) =
    let (revision, modified) = vcs_settings info.settings ([], false) in
    if-IsStated _ _ _ (usable-IsStated injected) λ h.
      if-IsStated _ _ _ (usable-IsStated info.main_version) λ h.
        if-IsStated (not (is_usable_version revision)) _ _ (λ h. unknown-IsStated)
          λ known.
            if-IsStated _ _ _ (λ h. dirty-IsStated revision)
              λ h. usable-IsStated revision (ground arith)
