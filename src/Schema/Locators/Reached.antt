-- ===== src/Schema/Locators/Reached.antt =====
-- The locators that the walk over a type finds are those of the marked fields that it reaches.
use mathlib.Core.Path.{subst}
use ax_go.Common.{
  ℕ, zero, suc, ◌≤◌, Text, codes, text_eq, text_eq_iff, text_lt, cut, join, Bool, true, false, not,
  Option, none, some, List, [], ◌∷◌, ◌++◌, is_empty, if◌then◌else◌, ◌≡◌, ◌≢◌, ◌⊎◌, ◌↔◌, ◌||◌, refl,
  sym, ap, ◌∙◌, arith, Bool-cases, inl, inr,
}
use ax_go.Common.Sorts.{exists?-sort, IsSorted, sort-IsSorted}
use ax_go.Common.TextOrder.{text_lt-IsOrder}
use ax_go.Schema.Locators.{
  Field, Shape, struct, container, other, Types, sorted_keys, locator_element_type, json_field_name,
  before_comma, and_then, is_struct, anonymous_struct_field, append_path, path_of, mark, walk_field,
  visit_field, walk_fields, enter, is_active, walk_data_locators, data_locators,
}
use ax_go.Schema.Locators.Registered.{has, has-add_key}
use ax_go.Schema.Locators.Walked.{Returns, in_turn, data_locators-IsFound}

-- The name that the tag gives, empty if it gives none.
abbrev pub tag_name : Field → Text
tag_name f = before_comma f.json_tag (cut (codes ",") f.json_tag)

abbrev pub IsMarkedAt : Field → List Text → Text → Type 0
IsMarkedAt f path x = (f.ax_tag ≡ codes "nondeterministic") × (x ≡ join (codes ".") path)

module _ (types : Types) (element : ℕ → Option ℕ) where
  -- An embedded struct whose tag gives no name.
  abbrev pub IsEmbedded : Field → Type 0
  IsEmbedded f =
      (f.anonymous ≡ true)
      × (tag_name f ≡ [])
      × ((e : ℕ) × (fields : List Field) × (element f.field_type ≡ some e)
          × (types e ≡ struct fields))

  -- From the path of a struct to that of a field: an embedded struct adds nothing to it.
  abbrev pub Leads : Field → List Text → List Text → Type 0
  Leads f path next =
      (IsEmbedded f × (next ≡ path))
      ⊎ ((¬ IsEmbedded f)
          × (next ≡ path ++ (if is_empty (tag_name f) then f.name else tag_name f) ∷ []))

  -- A field that is exported and not left out is marked, or something below it is.
  abbrev pub InField : (List Text → ℕ → Text → Type 0) → List Text → Text → Field → Type 0
  InField Below path x f =
      (f.exported ≡ true)
      × (f.json_tag ≢ codes "-")
      × ((next : List Text) × Leads f path next × (IsMarkedAt f next x ⊎ Below next f.field_type x))

  abbrev pub InFields : (List Text → ℕ → Text → Type 0) → List Text → Text → List Field → Type 0
  InFields Below path x [] = ⊥
  InFields Below path x (f ∷ fields) = InField Below path x f ⊎ InFields Below path x fields

  -- A locator of the type: of a field of its struct, at most so many structs deep, where no struct is
  -- entered that encloses it.
  abbrev pub Reaches : ℕ → List ℕ → List Text → ℕ → Text → Type 0
  Reaches zero active path t x = ⊥
  Reaches (suc left) active path t x =
      (e : ℕ) × (fields : List Field) × (element t ≡ some e)
      × (types e ≡ struct fields)
      × (is_active types element e active ≡ false)
      × InFields (Reaches left (e ∷ active)) path x fields

-- What is found is what was there and what S says.
abbrev Adds : (Text → Type 0) → List Text → List Text → Type 0
Adds S before after = (x : Text) → (has x after ≡ true) ↔ ((has x before ≡ true) ⊎ S x)

Adds-same : (S : Text → Type 0) (xs : List Text) → ((x : Text) → ¬ S x) → Adds S xs xs
Adds-same S xs never x = ((λ h. inl h), (λ h. elim h [ inl k ↦ k | inr s ↦ absurd (never x s) ]))

Adds-trans :
    (S T U : Text → Type 0) (xs ys zs : List Text)
    → ((x : Text) → (S x ⊎ T x) ↔ U x)
    → Adds S xs ys
    → Adds T ys zs
    → Adds U xs zs
Adds-trans S T U xs ys zs u s t x = (
  (λ h. elim ((t x).0 h) [
    | inr b ↦ inr ((u x).0 (inr b))
    | inl k ↦ elim ((s x).0 k) [ inl a ↦ inl a | inr c ↦ inr ((u x).0 (inl c)) ]
  ]),
  λ h. elim h [
    | inl a ↦ (t x).1 (inl ((s x).1 (inl a)))
    | inr c ↦ elim ((u x).1 c) [ inl d ↦ (t x).1 (inl ((s x).1 (inr d))) | inr d ↦ (t x).1 (inr d) ]
  ],
)

is_empty-nil : (s : Text) → is_empty s ≡ true → s ≡ []
is_empty-nil [] h = refl
is_empty-nil (c ∷ s) h = cc

mark-Adds : (f : Field) (path xs : List Text) → Adds (IsMarkedAt f path) xs (mark f path xs)
mark-Adds f path xs x = elim (Bool-cases (text_eq f.ax_tag (codes "nondeterministic"))) [
  | inr plain ↦ rw plain (
      Adds-same (IsMarkedAt f path) xs
        (λ x (tag, _). ground (arith, text_eq_iff f.ax_tag (codes "nondeterministic"))) x)
  | inl marked ↦
      let tag = (text_eq_iff f.ax_tag (codes "nondeterministic")).0 marked in
      let key = join (codes ".") path in
      rw (marked, has-add_key x key xs)
        (elim (Bool-cases (text_eq x key)) [
          | inl same ↦ rw same ((λ h. inr (tag, (text_eq_iff x key).0 same)), λ h. refl)
          | inr differs ↦ rw differs (
            (λ h. inl h),
            λ h. elim h [ inl k ↦ k | inr (_, e) ↦ absurd (ground (arith, text_eq_iff x key)) ],
          )
        ])
]

Returns-map :
    {A : Type 0} (P Q : A → Type 0) (o : Option A)
    → ((a : A) → P a → Q a)
    → Returns P o
    → Returns Q o
Returns-map P Q none f h = h
Returns-map P Q (some a) f h = f a h

struct_inj : {a b : List Field} → struct a ≡ struct b → a ≡ b
struct_inj e = cc

no_struct_container : {a : List Field} {t : ℕ} → struct a ≡ container t → ⊥
no_struct_container e = cc

no_struct_other : {a : List Field} → struct a ≡ other → ⊥
no_struct_other e = cc

Shape-struct :
    (shape : Shape) → (is_struct shape ≡ true) ↔ ((fields : List Field) × (shape ≡ struct fields))
Shape-struct (struct fields) = ((λ h. (fields, refl)), (λ h. refl))
Shape-struct (container t) = ((λ h. cc), (λ (fields, e). cc))
Shape-struct other = ((λ h. cc), (λ (fields, e). cc))

module _ (types : Types) (element : ℕ → Option ℕ)
    (returns : (t : ℕ) → Returns (λ e. Unit) (element t)) where
  element_struct :
      (f : Field) (o : Option ℕ)
      → element f.field_type ≡ o
      → f.anonymous ≡ true
      → tag_name f ≡ []
      → Returns
          (λ b. (b ≡ true) ↔ IsEmbedded types element f)
          (and_then o (λ t. some (is_struct (types t))))
  element_struct f none q a n = absurd (subst (Returns (λ e. Unit)) q (returns f.field_type))
  element_struct f (some e) q a n = (
    (λ h. let (fields, s) = (Shape-struct (types e)).0 h in (a, n, (e, fields, q, s))),
    λ (_, _, (e', fields, q', s)).
        let same : e ≡ e' = cc in (Shape-struct (types e)).1 (fields, ap types same ∙ s),
  )

  IsEmbedded-iff :
      (f : Field)
      → Returns
          (λ b. (b ≡ true) ↔ IsEmbedded types element f)
          (anonymous_struct_field types element f (tag_name f))
  unfolding anonymous_struct_field
  IsEmbedded-iff f = elim (Bool-cases (not f.anonymous || not (is_empty (tag_name f)))) [
    | inl named ↦ rw named ((λ h. cc), λ (a, n, _). ground (arith, ap is_empty n))
    | inr plain ↦
        rw plain (element_struct f _ refl (ground arith) (is_empty-nil (tag_name f) (ground arith)))
  ]

  Leads-iff :
      (f : Field) (path next : List Text) (embedded : Bool)
      → (embedded ≡ true) ↔ IsEmbedded types element f
      → Leads types element f path next ↔ (next ≡ path_of path f (tag_name f) embedded)
  unfolding append_path
  Leads-iff f path next true h = (
    (λ l. elim l [ inl (_, e) ↦ e | inr (plain, _) ↦ absurd (plain (h.0 refl)) ]),
    λ e. inl (h.0 refl, e),
  )
  Leads-iff f path next false h = (
    (λ l. elim l [ inl (inside, _) ↦ absurd (ground (arith, h.1 inside)) | inr (_, e) ↦ e ]),
    λ e. inr ((λ inside. ground (arith, h.1 inside)), e),
  )

  module _ (Below : List Text → ℕ → Text → Type 0)
      (walk_type : List Text → ℕ → List Text → Option (List Text))
      (walks : (path : List Text) (t : ℕ) (xs : List Text)
        → Returns (Adds (Below path t) xs) (walk_type path t xs)) where
    entered :
        (f : Field) (path xs : List Text) (embedded : Bool)
        → f.exported ≡ true
        → f.json_tag ≢ codes "-"
        → (embedded ≡ true) ↔ IsEmbedded types element f
        → Returns
            (Adds (λ x. InField types element Below path x f) xs)
            (walk_field types element walk_type path f (tag_name f) embedded xs)
    entered f path xs embedded exported shown h =
        let next = path_of path f (tag_name f) embedded in
        Returns-map (Adds (Below next f.field_type) (mark f next xs)) _ _
          (λ out.
            Adds-trans (IsMarkedAt f next) (Below next f.field_type)
              (λ x. InField types element Below path x f) xs (mark f next xs) out
              (λ x. (
                (λ m. (exported, shown, (next, (Leads-iff f path next embedded h).1 refl, m))),
                λ (_, _, (next', leads, m)).
                    subst (λ n. IsMarkedAt f n x ⊎ Below n f.field_type x)
                      ((Leads-iff f path next' embedded h).0 leads) m,
              ))
              (mark-Adds f next xs))
          (walks next f.field_type (mark f next xs))

    visited :
        (f : Field) (path xs : List Text) (skip : Bool)
        → text_eq f.json_tag (codes "-") ≡ skip
        → f.exported ≡ true
        → Returns (Adds (λ x. InField types element Below path x f) xs) (
            visit_field types element walk_type path f
              (if skip then ([], true) else (tag_name f, false))
              xs)
    visited f path xs true skipped exported =
        Adds-same (λ x. InField types element Below path x f) xs
          (λ x (_, shown, _). shown ((text_eq_iff f.json_tag (codes "-")).0 skipped))
    visited f path xs false shown exported =
        in_turn (λ b. (b ≡ true) ↔ IsEmbedded types element f)
          (Adds (λ x. InField types element Below path x f) xs)
          (anonymous_struct_field types element f (tag_name f))
          (λ embedded. walk_field types element walk_type path f (tag_name f) embedded xs)
          (IsEmbedded-iff f)
          (λ embedded h.
            entered f path xs embedded exported
              (λ e. ground (arith, text_eq_iff f.json_tag (codes "-"))) h)

    if_exported :
        (f : Field) (path xs : List Text) (exported : Bool)
        → f.exported ≡ exported
        → Returns (Adds (λ x. InField types element Below path x f) xs) (
            if exported
            then visit_field types element walk_type path f (json_field_name f) xs
            else some xs)
    unfolding json_field_name
    if_exported f path xs true q = visited f path xs _ refl q
    if_exported f path xs false q =
        Adds-same (λ x. InField types element Below path x f) xs (λ x (e, _, _). cc)

    fields-Adds :
        (fields : List Field) (path xs : List Text)
        → Returns
            (Adds (λ x. InFields types element Below path x fields) xs)
            (walk_fields types element walk_type path fields xs)
    unfolding walk_fields
    fields-Adds [] path xs = Adds-same (λ x. ⊥) xs (λ x h. h)
    fields-Adds (f ∷ fields) path xs =
        in_turn (Adds (λ x. InField types element Below path x f) xs)
          (Adds (λ x. InFields types element Below path x (f ∷ fields)) xs)
          (if f.exported
            then visit_field types element walk_type path f (json_field_name f) xs
            else some xs)
          (λ ys. walk_fields types element walk_type path fields ys)
          (if_exported f path xs f.exported refl)
          (λ ys found.
            Returns-map (Adds (λ x. InFields types element Below path x fields) ys)
              (Adds (λ x. InFields types element Below path x (f ∷ fields)) xs)
              (walk_fields types element walk_type path fields ys)
              (λ out later.
                Adds-trans (λ x. InField types element Below path x f)
                  (λ x. InFields types element Below path x fields)
                  (λ x. InFields types element Below path x (f ∷ fields)) xs ys out
                  (λ x. ((λ h. h), (λ h. h))) found later)
              (fields-Adds fields path ys))

  reached_struct :
      (left : ℕ) (active : List ℕ) (path : List Text) (t e : ℕ) (fields : List Field) (x : Text)
      → element t ≡ some e
      → types e ≡ struct fields
      → is_active types element e active ≡ false
      → InFields types element (Reaches types element left (e ∷ active)) path x fields
        ↔ Reaches types element (suc left) active path t x
  reached_struct left active path t e fields x q s fresh = (
    (λ h. (e, fields, q, s, fresh, h)),
    λ (e', fields', q', s', _, h).
        let same : e' ≡ e = cc in
        let same_fields : fields' ≡ fields = struct_inj (sym s' ∙ ap types same ∙ s) in
        subst (λ fs. InFields types element (Reaches types element left (e ∷ active)) path x fs)
          same_fields
          (subst
            (λ n. InFields types element (Reaches types element left (n ∷ active)) path x fields')
            same h),
  )

  entered_shape :
      (left : ℕ) (active : List ℕ) (path : List Text) (t e : ℕ) (xs : List Text) (shape : Shape)
      (seen : Bool)
      → element t ≡ some e
      → types e ≡ shape
      → is_active types element e active ≡ seen
      → ((fields : List Field)
          → Returns
              (Adds
                (λ x.
                  InFields types element (Reaches types element left (e ∷ active)) path x fields)
                xs)
              (walk_fields types element
                (walk_data_locators types element left (e ∷ active))
                path
                fields
                xs))
      → Returns (Adds (Reaches types element (suc left) active path t) xs) (
          enter seen shape xs (λ fields.
            walk_fields types element
              (walk_data_locators types element left (e ∷ active))
              path
              fields
              xs))
  entered_shape left active path t e xs (struct fields) false q s fresh walks =
      Returns-map _ (Adds (Reaches types element (suc left) active path t) xs) _
        (λ out found x.
          let (to, from) = reached_struct left active path t e fields x q s fresh in
          (
            (λ h. elim ((found x).0 h) [ inl a ↦ inl a | inr b ↦ inr (to b) ]),
            λ h. (found x).1 (elim h [ inl a ↦ inl a | inr b ↦ inr (from b) ]),
          ))
        (walks fields)
  entered_shape left active path t e xs (struct fields) true q s seen walks =
      Adds-same (Reaches types element (suc left) active path t) xs
        (λ x (e', fields', q', s', fresh, h).
          let same : e' ≡ e = cc in
          let again : is_active types element e active ≡ false =
            subst (λ n. is_active types element n active ≡ false) same fresh in
          ground arith)
  entered_shape left active path t e xs (container elem) seen q s known walks =
      Adds-same (Reaches types element (suc left) active path t) xs
        (λ x (e', fields', q', s', fresh, h).
          let same : e' ≡ e = cc in no_struct_container (sym s' ∙ ap types same ∙ s))
  entered_shape left active path t e xs other seen q s known walks =
      Adds-same (Reaches types element (suc left) active path t) xs
        (λ x (e', fields', q', s', fresh, h).
          let same : e' ≡ e = cc in no_struct_other (sym s' ∙ ap types same ∙ s))

  walk-Adds :
      (left : ℕ) (active : List ℕ) (path : List Text) (t : ℕ) (xs : List Text)
      → Returns
          (Adds (Reaches types element left active path t) xs)
          (walk_data_locators types element left active path t xs)
  unfolding walk_data_locators
  walk-Adds zero active path t xs = Adds-same (λ x. ⊥) xs (λ x h. h)
  walk-Adds (suc left) active path t xs = go (λ e. walk-Adds left (e ∷ active)) (element t) refl
    where
      go :
          ((e : ℕ) (next : List Text) (u : ℕ) (ys : List Text)
            → Returns
                (Adds (Reaches types element left (e ∷ active) next u) ys)
                (walk_data_locators types element left (e ∷ active) next u ys))
          → (o : Option ℕ) → element t ≡ o
          → Returns (Adds (Reaches types element (suc left) active path t) xs) (
              and_then o (λ e. enter (is_active types element e active) (types e) xs (λ fields.
                walk_fields types element
                  (walk_data_locators types element left (e ∷ active))
                  path
                  fields
                  xs)))
      go walks none q = absurd (subst (Returns (λ e. Unit)) q (returns t))
      go walks (some e) q = entered_shape left active path t e xs (types e) _ q refl refl (λ fields.
          fields-Adds (Reaches types element left (e ∷ active))
            (walk_data_locators types element left (e ∷ active)) (walks e) fields path xs)

  IsSorted-found :
      (t : ℕ) (o : Option (List Text))
      → Returns (Adds (Reaches types element 64 [] (codes "data" ∷ []) t) []) o
      → Returns
          (λ locators.
            ((x : Text)
              → (has x locators ≡ true) ↔ Reaches types element 64 [] (codes "data" ∷ []) t x)
            × IsSorted text_lt locators)
          (and_then o (λ locators. some (sorted_keys locators)))
  unfolding sorted_keys
  IsSorted-found t none h = h
  IsSorted-found t (some locators) h = (
    (λ x.
        let same = exists?-sort text_lt (text_eq x) locators in
        (
          (λ k. elim ((h x).0 (sym same ∙ k)) [ inl nothing ↦ absurd (ground arith) | inr r ↦ r ]),
          λ r. same ∙ (h x).1 (inr r),
        )),
    sort-IsSorted text_lt text_lt-IsOrder locators,
  )

-- Where no type is an endless chain of containers, so that with this much fuel the element type of
-- each is found, the walk over a type returns, even when its structs contain each other. It finds, in
-- order, exactly the locators of the marked fields that are reached: through exported fields that
-- their tag does not leave out, at most 64 structs deep, where a struct is not entered again within
-- itself; an embedded struct without a name adds nothing to the path. More fuel does not change them.
pub data_locators-Reaches :
    (fuel more : ℕ) (types : Types) (t : ℕ)
    → ((t : ℕ) → Returns (λ e. Unit) (locator_element_type fuel types t))
    → fuel ≤ more
    → Returns
        (λ locators.
          ((x : Text)
            → (has x locators ≡ true)
              ↔ Reaches types (locator_element_type fuel types) 64 [] (codes "data" ∷ []) t x)
          × IsSorted text_lt locators)
        (data_locators fuel types (some t))
      × (data_locators more types (some t) ≡ data_locators fuel types (some t))
unfolding data_locators
data_locators-Reaches fuel more types t returns le = (
  IsSorted-found types (locator_element_type fuel types) returns t _
      (walk-Adds types (locator_element_type fuel types) returns 64 [] (codes "data" ∷ []) t []),
  (data_locators-IsFound fuel more types (some t) returns le).1,
)
