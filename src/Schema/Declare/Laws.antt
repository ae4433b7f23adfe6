-- ===== src/Schema/Declare/Laws.antt =====
-- What adding a declaration does to the annotations and to what is read back from them.
use ax_go.Common.{
  Text, text_eq, text_eq_refl, text_eq_iff, Bool, true, false, Option, none, some, List, [], ◌∷◌,
  ◌++◌, keep, length, length-keep, if◌then◌else◌, All, All-append, ◌≡◌, ◌≢◌, ◌⊎◌, refl, ap, arith,
  Bool-cases, inl, inr,
}
use ax_go.Schema.{Violation, Command}
use ax_go.Schema.Declare.{
  Annotations, annotation, set_annotation, Declaring, is_valid, project_decoded, project,
  decode_valid, projected, is_declared, with_existing, with_valid, add_declaration,
}

pub annotation-set_annotation :
    (key name value : Text) (annotations : Annotations)
    → annotation name (set_annotation key value annotations)
      ≡ (if text_eq key name then some value else annotation name annotations)
unfolding annotation set_annotation
annotation-set_annotation key name value [] = ground arith
annotation-set_annotation key name value ((k, v) ∷ annotations) = ground (
  arith,
  text_eq_iff k key,
  text_eq_iff k name,
  text_eq_iff key name,
  annotation-set_annotation key name value annotations,
)

module _ {T : Type 0} (k : Declaring T) where
  keep_all : (ds : List T) → All (λ d. k.validate d ≡ none) ds → keep (is_valid k) ds ≡ ds
  keep_all [] h = refl
  keep_all (d ∷ ds) h = ground (arith, keep_all ds)

  same_length : (p : T → Bool) (ds : List T) → length (keep p ds) ≡ length ds → keep p ds ≡ ds
  same_length p [] h = refl
  same_length p (d ∷ ds) h = ground (arith, same_length p ds, length-keep p ds)

  all_valid : (ds : List T) → All (λ d. k.validate d ≡ none) (keep (is_valid k) ds)
  all_valid [] = tt
  all_valid (d ∷ ds) = ground (arith, all_valid ds)

  project_decoded-All :
      (o : Option (List T)) → All (λ d. k.validate d ≡ none) (project_decoded k o).0
  project_decoded-All none = tt
  project_decoded-All (some decoded) = all_valid decoded

  project-All : (o : Option Text) → All (λ d. k.validate d ≡ none) (project k o).0
  project-All none = tt
  project-All (some raw) = project_decoded-All (k.json.decode raw)

  -- Everything that is projected is valid.
  pub projected-All :
      (annotations : Annotations) → All (λ d. k.validate d ≡ none) (projected k annotations)
  unfolding projected decode_valid
  projected-All annotations = project-All (annotation k.annotation_key annotations)

  -- What adding leaves behind.
  pub record IsAdded (cmd cmd' : Command) (d : T) : Type 0 where
    pub valid : k.validate d ≡ none
    pub clean : (decode_valid k cmd.annotations).1 ≡ true
    pub fresh : is_declared k (k.key d) (projected k cmd.annotations) ≡ false
    pub read_back : decode_valid k cmd'.annotations ≡ (projected k cmd.annotations ++ d ∷ [], true)
    pub others :
        (name : Text)
        → name ≢ k.annotation_key
        → annotation name cmd'.annotations ≡ annotation name cmd.annotations
    pub rest : cmd' ≡ record cmd { annotations = cmd'.annotations }

  -- Why a declaration is refused.
  abbrev IsRefused : Command → T → Violation → Type 0
  IsRefused cmd d v =
      (k.validate d ≡ some v)
      ⊎ ((decode_valid k cmd.annotations).1 ≡ false)
      ⊎ (is_declared k (k.key d) (projected k cmd.annotations) ≡ true)

  abbrev pub IsOutcome : Command → T → Option Violation × Command → Type 0
  IsOutcome cmd d (none, cmd') = IsAdded cmd cmd' d
  IsOutcome cmd d (some v, cmd') = (cmd' ≡ cmd) × IsRefused cmd d v

  -- The annotation as it is written reads back as the old declarations with the new one.
  written :
      (existing : List T) (d : T) (annotations : Annotations)
      → All (λ d. k.validate d ≡ none) existing
      → k.validate d ≡ none
      → decode_valid k
          (set_annotation k.annotation_key (k.json.encode (existing ++ d ∷ [])) annotations)
        ≡ (existing ++ d ∷ [], true)
  unfolding decode_valid
  written existing d annotations old new =
      let valid : All (λ d. k.validate d ≡ none) (existing ++ d ∷ []) =
        All-append _ existing (d ∷ []) old (new, tt) in
      rw
        (
          annotation-set_annotation k.annotation_key k.annotation_key,
          text_eq_refl k.annotation_key,
          k.json.decode-encode (existing ++ d ∷ []) valid,
          keep_all (existing ++ d ∷ []) valid,
        )
        (ground arith)

  with_existing-IsOutcome :
      (cmd : Command) (d : T) (existing : List T) (clean : Bool)
      → decode_valid k cmd.annotations ≡ (existing, clean)
      → k.validate d ≡ none
      → IsOutcome cmd d (with_existing k cmd d (existing, clean))
  unfolding projected
  with_existing-IsOutcome cmd d existing false h v = (refl, inr (inl (ap (λ p. p.1) h)))
  with_existing-IsOutcome cmd d existing true h v =
      let same : projected k cmd.annotations ≡ existing = ap (λ p. p.0) h in
      let valid : All (λ d. k.validate d ≡ none) existing =
        rw same at (projected-All cmd.annotations) in
      elim (Bool-cases (is_declared k (k.key d) existing)) [
        | inl old ↦ rw old (refl, inr (inr (rw same old)))
        | inr new ↦ rw new (record {
          valid = v;
          clean = ap (λ p. p.1) h;
          fresh = rw same new;
          read_back = rw same (written existing d cmd.annotations valid v);
          others = λ name ne. ground (
            arith,
            annotation-set_annotation k.annotation_key name (k.json.encode (existing ++ d ∷ []))
                cmd.annotations,
            text_eq_iff k.annotation_key name,
          );
          rest = refl;
        })
      ]

  with_valid-IsOutcome :
      (cmd : Command) (d : T) (v : Option Violation)
      → k.validate d ≡ v
      → IsOutcome cmd d (with_valid k cmd d v)
  with_valid-IsOutcome cmd d (some v) h = (refl, inl h)
  with_valid-IsOutcome cmd d none h = with_existing-IsOutcome cmd d _ _ refl h

  -- Adding a declaration either refuses it and leaves the command as it is, because the declaration
  -- is not valid, its key is declared already, or the annotation does not read cleanly; or the
  -- annotation then reads back as the declarations before and this one, and every other annotation
  -- and the rest of the command are untouched.
  pub add_declaration-IsOutcome :
      (cmd : Command) (d : T) → IsOutcome cmd d (add_declaration k cmd d)
  unfolding add_declaration
  add_declaration-IsOutcome cmd d = with_valid-IsOutcome cmd d _ refl
