-- ===== src/Covercheck/Profile/Sums.antt =====
-- What the packages of a profile add up to.
use ax_go.Common.{
  ℕ, zero, suc, ◌+◌, ◌<◌, ◌==◌, ==_iff, ◌++◌, codes, fields, cut_last, cut_prefix, has_prefix,
  is_empty, pos, Option, none, some, true, All, ◌≢◌, refl, ap, Text, text_eq, text_eq→≡,
  text_eq_refl, ◌⊎◌, trim_space, false, List, [], ◌∷◌, Result, ok, err, ◌≡◌, ◌∙◌, arith, Bool-cases,
  inl, inr, if◌then◌else◌,
}
use ax_go.Common.Words.{word}
use ax_go.Covercheck.{PackageCoverage}
use ax_go.Covercheck.Profile.{
  ProfileError, Block, parse_profile_line, Packages, executed, add_block, is_skipped, atoi,
  add_parsed, read_profile, parse_coverage,
}

-- The two counters of a package.
pub data Counter : Type 0 where
  statements covered_statements : Counter

abbrev pub counted : Counter → PackageCoverage → ℕ
counted statements p = p.stmts
counted covered_statements p = p.covered

-- The statements of a block that was run so many times.
abbrev pub run_statements : (times stmts : ℕ) → ℕ
run_statements zero stmts = 0
run_statements (suc times) stmts = stmts

abbrev pub amount : Counter → Block → ℕ
amount statements b = b.num_stmt
amount covered_statements b = run_statements b.count b.num_stmt

none_executed : (times stmts : ℕ) → (if times == 0 then 0 else stmts) ≡ run_statements times stmts
none_executed zero stmts = ground arith
none_executed (suc times) stmts = ground arith

executed_lem : (b : Block) → executed b ≡ amount covered_statements b
executed_lem b = none_executed b.count b.num_stmt

-- The counter of the package with this path, 0 if there is none.
abbrev pub counted_in : Counter → Text → Packages → ℕ
counted_in c import_path [] = 0
counted_in c import_path (p ∷ acc) =
    if text_eq p.import_path import_path then counted c p else counted_in c import_path acc

abbrev block_of : Result ProfileError Block → List Block
block_of (err e) = []
block_of (ok b) = b ∷ []

-- The blocks that the lines of a profile state.
abbrev pub blocks : List Text → List Block
blocks [] = []
blocks (raw ∷ lines) =
    if is_skipped (trim_space raw)
    then blocks lines
    else block_of (parse_profile_line (trim_space raw)) ++ blocks lines

-- What the blocks of a package add up to, exactly.
abbrev pub added_up : Counter → Text → List Block → ℕ
added_up c import_path [] = 0
added_up c import_path (b ∷ bs) =
    (if text_eq b.pkg_dir import_path then amount c b else 0) + added_up c import_path bs

not_both : (a b c : Text) → text_eq a b ≡ false → (text_eq a c ≡ false) ⊎ (text_eq b c ≡ false)
not_both a b c h = elim (Bool-cases (text_eq a c)) [
  | inr q ↦ inl q
  | inl p ↦ elim (Bool-cases (text_eq b c)) [
    | inr q ↦ inr q
    | inl q ↦ absurd (ground (arith, text_eq_refl c, text_eq→≡ a c p, text_eq→≡ b c q))
  ]
]

counted_in-add_block :
    (c : Counter) (import_path : Text) (b : Block) (acc : Packages)
    → counted_in c import_path acc + added_up c import_path (b ∷ []) < word
    → counted_in c import_path (add_block b acc)
      ≡ counted_in c import_path acc + added_up c import_path (b ∷ [])
unfolding add_block
counted_in-add_block statements import_path b [] h = ground arith
counted_in-add_block covered_statements import_path b [] h = ground (arith, executed_lem b)
counted_in-add_block statements import_path b (p ∷ acc) h =
    elim (Bool-cases (text_eq p.import_path b.pkg_dir)) [
      | inl same ↦ rw same (ground (arith, executed_lem b, text_eq→≡ p.import_path b.pkg_dir same))
      | inr other ↦ rw other (
          ground (
            arith,
            not_both p.import_path b.pkg_dir import_path other,
            counted_in-add_block statements import_path b acc,
          ))
    ]
counted_in-add_block covered_statements import_path b (p ∷ acc) h =
    elim (Bool-cases (text_eq p.import_path b.pkg_dir)) [
      | inl same ↦ rw same (ground (arith, executed_lem b, text_eq→≡ p.import_path b.pkg_dir same))
      | inr other ↦ rw other (
          ground (
            arith,
            not_both p.import_path b.pkg_dir import_path other,
            counted_in-add_block covered_statements import_path b acc,
          ))
    ]

added_up-append :
    (c : Counter) (import_path : Text) (xs ys : List Block)
    → added_up c import_path (xs ++ ys) ≡ added_up c import_path xs + added_up c import_path ys
added_up-append c import_path [] ys = omega arith
added_up-append c import_path (x ∷ xs) ys = omega (arith, added_up-append c import_path xs ys)

module _ (c : Counter) (import_path : Text) where
  -- The counter after the lines is what it was and what they add up to.
  abbrev Adds : List Block → Packages → Result ProfileError Packages → Type 0
  Adds bs acc r =
      (acc' : Packages)
      → r ≡ ok acc'
      → counted_in c import_path acc + added_up c import_path bs < word
      → counted_in c import_path acc' ≡ counted_in c import_path acc + added_up c import_path bs

  add_parsed-Adds :
      (r : Result ProfileError Block) (bs : List Block) (acc : Packages)
      (rest : Packages → Result ProfileError Packages)
      → ((acc' : Packages) → Adds bs acc' (rest acc'))
      → Adds (block_of r ++ bs) acc (add_parsed r acc rest)
  add_parsed-Adds (err e) bs acc rest k acc' q h = cc
  add_parsed-Adds (ok b) bs acc rest k acc' q h =
      let one = counted_in-add_block c import_path b acc (omega arith) in
      k (add_block b acc) acc' q (omega (arith, one)) ∙ omega (arith, one)

  read_profile-Adds :
      (lines : List Text) (acc : Packages) → Adds (blocks lines) acc (read_profile lines acc)
  unfolding read_profile
  read_profile-Adds [] acc acc' q h = ground arith
  read_profile-Adds (raw ∷ lines) acc acc' q h = elim (Bool-cases (is_skipped (trim_space raw))) [
    | inl skip ↦ rw skip (read_profile-Adds lines acc acc' (rw skip at q) (rw skip at h))
    | inr read ↦ rw read (
        add_parsed-Adds (parse_profile_line (trim_space raw)) (blocks lines) acc _
          (λ next. read_profile-Adds lines next) acc' (rw read at q) (rw read at h))
  ]

parse_coverage_lem :
    (lines : List Text) (acc : Packages) (c : Counter) (import_path : Text)
    → parse_coverage lines ≡ ok acc
    → added_up c import_path (blocks lines) < word
    → counted_in c import_path acc ≡ added_up c import_path (blocks lines)
unfolding parse_coverage
parse_coverage_lem lines acc c import_path q h =
    omega (arith, read_profile-Adds c import_path lines [] acc q (omega arith))

abbrev pub Lacks : ℕ → Text → Type 0
Lacks sep s = All (λ c. c ≢ sep) s

-- `<package>/<file>:<position> <statements> <count>`, as `go test -coverprofile` writes it.
pub record IsBlockLine (line : Text) (b : Block) : Type 0 where
  pub file : Text
  pub position : Text
  pub stmts : Text
  pub count : Text
  pub three : fields line ≡ ((b.pkg_dir ++ (b'/' ∷ file)) ++ (b':' ∷ position)) ∷ stmts ∷ count ∷ []
  pub one_file : Lacks b'/' file
  pub one_position : Lacks b':' position
  pub states_stmts : atoi stmts ≡ some (pos b.num_stmt)
  pub states_count : atoi count ≡ some (pos b.count)
  pub written : line ≢ []
  pub no_mode : has_prefix (codes "mode:") line ≡ false

-- A line of the profile with the block that it states; a blank line and the mode state none.
abbrev pub IsLine : Text × Option Block → Type 0
IsLine (raw, some b) = IsBlockLine (trim_space raw) b
IsLine (raw, none) = (trim_space raw ≡ []) ⊎ (has_prefix (codes "mode:") (trim_space raw) ≡ true)

abbrev pub stated : List (Text × Option Block) → List Block
stated [] = []
stated ((raw, none) ∷ lines) = stated lines
stated ((raw, some b) ∷ lines) = b ∷ stated lines

abbrev pub raws : List (Text × Option Block) → List Text
raws [] = []
raws ((raw, b) ∷ lines) = raw ∷ raws lines

no_last : (sep : ℕ) (s : Text) → Lacks sep s → cut_last (sep ∷ []) s ≡ none
unfolding cut_last cut_prefix
no_last sep [] h = refl
no_last sep (c ∷ s) h = ground (arith, no_last sep s h.1, ==_iff sep c)

cut_last-append :
    (sep : ℕ) (a b : Text) → Lacks sep b → cut_last (sep ∷ []) (a ++ (sep ∷ b)) ≡ some (a, b)
unfolding cut_last cut_prefix
cut_last-append sep [] b h = ground (arith, no_last sep b h, ==_iff sep sep)
cut_last-append sep (c ∷ a) b h = ground (arith, cut_last-append sep a b h)

line_parsed : (line : Text) (b : Block) → IsBlockLine line b → parse_profile_line line ≡ ok b
unfolding parse_profile_line
line_parsed line b h =
    rw
      (
        h.three,
        cut_last-append b':' (b.pkg_dir ++ (b'/' ∷ h.file)) h.position h.one_position,
        cut_last-append b'/' b.pkg_dir h.file h.one_file,
        h.states_stmts,
        h.states_count,
      )
      refl

is_empty-ne : (s : Text) → s ≢ [] → is_empty s ≡ false
is_empty-ne [] ne = absurd (ne refl)
is_empty-ne (c ∷ s) ne = refl

block_read : (raw : Text) (b : Block) → IsLine (raw, some b) → is_skipped (trim_space raw) ≡ false
block_read raw b h = ground (arith, is_empty-ne (trim_space raw) h.written, h.no_mode)

other_skipped : (raw : Text) → IsLine (raw, none) → is_skipped (trim_space raw) ≡ true
other_skipped raw (inl blank) = rw blank refl
other_skipped raw (inr mode) = ground arith

blocks-raws :
    (profile : List (Text × Option Block))
    → All IsLine profile
    → blocks (raws profile) ≡ stated profile
blocks-raws [] h = refl
blocks-raws ((raw, none) ∷ lines) h = rw (other_skipped raw h.0) (blocks-raws lines h.1)
blocks-raws ((raw, some b) ∷ lines) h =
    rw (block_read raw b h.0, line_parsed (trim_space raw) b h.0)
      (ap (λ (bs : List Block). b ∷ bs) (blocks-raws lines h.1))

read_whole :
    (profile : List (Text × Option Block)) (acc : Packages)
    → All IsLine profile
    → (acc' : Packages) × (read_profile (raws profile) acc ≡ ok acc')
unfolding read_profile
read_whole [] acc h = (acc, refl)
read_whole ((raw, none) ∷ lines) acc h =
    let (acc', e) = read_whole lines acc h.1 in (acc', rw (other_skipped raw h.0) e)
read_whole ((raw, some b) ∷ lines) acc h =
    let (acc', e) = read_whole lines (add_block b acc) h.1 in
    (acc', rw (block_read raw b h.0, line_parsed (trim_space raw) b h.0) e)

-- A profile whose lines have the form that `go test` writes is read, and each package gets the sum of
-- the statements of exactly its blocks, and the sum of the statements of those that were run at least
-- once, in whatever order and however often the blocks come, as long as the sum fits 64 bits.
pub parse_coverage-counted_in :
    (profile : List (Text × Option Block)) (c : Counter) (import_path : Text)
    → All IsLine profile
    → added_up c import_path (stated profile) < word
    → (acc : Packages) × (parse_coverage (raws profile) ≡ ok acc)
      × (counted_in c import_path acc ≡ added_up c import_path (stated profile))
unfolding parse_coverage
parse_coverage-counted_in profile c import_path lines h =
    let (acc, e) = read_whole profile [] lines in
    let same = blocks-raws profile lines in
    (
      acc,
      e,
      parse_coverage_lem (raws profile) acc c import_path e (rw same h)
          ∙ ap (added_up c import_path) same,
    )
