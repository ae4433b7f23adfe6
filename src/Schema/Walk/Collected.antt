-- ===== src/Schema/Walk/Collected.antt =====
-- What CollectDeclarations keeps: of each key the first declaration.
use ax_go.Common.{
  Text, text_eq, text_eq_iff, Option, none, some, List, [], ◌∷◌, ◌++◌, if◌then◌else◌, ◌≡◌, refl,
  sym, ap, ◌∙◌, arith,
}
use ax_go.Common.Distinct.{Distinct, is_seen, Unseen, Unseen-cons, Unseen-nil}
use ax_go.Schema.{Command, Tree}
use ax_go.Schema.Declare.{Declaring, projected}
use ax_go.Schema.Walk.{
  walk_declaration_commands, Kinds, prompts_of, resources_of, find_duplicate, keep_first,
  collect_on, collect_declarations,
}
use ax_go.Schema.Walk.Unique.{declared_on, keys, find_duplicate_iff}

module _ {T : Type 0} (k : Declaring T) where
  -- The first declaration with this key.
  abbrev pub first_with : Text → List T → Option T
  first_with key [] = none
  first_with key (d ∷ ds) = if text_eq (k.key d) key then some d else first_with key ds

  keep_first-Unseen :
      (seen : List Text) (ds : List T) → Unseen seen (keys k (keep_first k seen ds).0)
  unfolding keep_first
  keep_first-Unseen seen [] = (tt, tt)
  keep_first-Unseen seen (d ∷ ds) = ground (
    arith,
    keep_first-Unseen seen ds,
    keep_first-Unseen (k.key d ∷ seen) ds,
    Unseen-cons (k.key d) seen (keys k (keep_first k (k.key d ∷ seen) ds).0),
  )

  first_with-keep_first :
      (key : Text) (seen : List Text) (ds : List T)
      → first_with key (keep_first k seen ds).0
        ≡ (if is_seen seen key then none else first_with key ds)
  unfolding keep_first
  first_with-keep_first key seen [] = ground arith
  first_with-keep_first key seen (d ∷ ds) = ground (
    arith,
    text_eq_iff (k.key d) key,
    text_eq_iff key (k.key d),
    first_with-keep_first key seen ds,
    first_with-keep_first key (k.key d ∷ seen) ds,
  )

  keep_first_all :
      (seen : List Text) (ds : List T) → Unseen seen (keys k ds) → (keep_first k seen ds).0 ≡ ds
  unfolding keep_first
  keep_first_all seen [] h = refl
  keep_first_all seen (d ∷ ds) h =
      ground (arith, keep_first_all (k.key d ∷ seen) ds, Unseen-cons (k.key d) seen (keys k ds))

  keep_first-append :
      (seen : List Text) (ds es : List T)
      → (keep_first k seen (ds ++ es)).0
        ≡ (keep_first k seen ds).0 ++ (keep_first k (keep_first k seen ds).1 es).0
  unfolding keep_first
  keep_first-append seen [] es = refl
  keep_first-append seen (d ∷ ds) es =
      ground (arith, keep_first-append seen ds es, keep_first-append (k.key d ∷ seen) ds es)

  -- Command by command or all at once: the same is kept.
  collect_on_lem :
      (cmds : List Command) (seen : List Text)
      → collect_on k cmds seen ≡ (keep_first k seen (declared_on k cmds)).0
  unfolding collect_on
  collect_on_lem [] seen = unfold keep_first in refl
  collect_on_lem (cmd ∷ cmds) seen =
      ap (λ rest. (keep_first k seen (projected k cmd.annotations)).0 ++ rest)
        (collect_on_lem cmds (keep_first k seen (projected k cmd.annotations)).1)
      ∙ sym (keep_first-append seen (projected k cmd.annotations) (declared_on k cmds))

  -- No key twice, and each key of the tree with its first declaration.
  abbrev pub IsCollected : List Command → List T → Type 0
  IsCollected cmds kept =
      Distinct (keys k kept)
      × ((key : Text) → first_with key kept ≡ first_with key (declared_on k cmds))

  collect_on-IsCollected : (cmds : List Command) → IsCollected cmds (collect_on k cmds [])
  collect_on-IsCollected cmds = rw (collect_on_lem cmds []) (
    (Unseen-nil _).0 (keep_first-Unseen [] (declared_on k cmds)),
    λ key. first_with-keep_first key [] (declared_on k cmds),
  )

  collect_on_all :
      (cmds : List Command)
      → Distinct (keys k (declared_on k cmds))
      → collect_on k cmds [] ≡ declared_on k cmds
  collect_on_all cmds h =
      collect_on_lem cmds [] ∙ keep_first_all [] (declared_on k cmds) ((Unseen-nil _).1 h)

-- CollectDeclarations keeps no prompt name and no resource URI twice, and of each that the walk
-- reaches it keeps the first declaration.
pub collect_declarations_lem :
    (kinds : Kinds) (root : Tree)
    → IsCollected
        (prompts_of kinds)
        (walk_declaration_commands root)
        (collect_declarations kinds root).0
      × IsCollected
          (resources_of kinds)
          (walk_declaration_commands root)
          (collect_declarations kinds root).1
unfolding collect_declarations
collect_declarations_lem kinds root = (
  collect_on-IsCollected (prompts_of kinds) (walk_declaration_commands root),
  collect_on-IsCollected (resources_of kinds) (walk_declaration_commands root),
)

-- If FindDuplicate finds nothing, CollectDeclarations drops nothing: it keeps every prompt and every
-- resource that the walk reaches, in walk order.
pub collect_declarations_all :
    (kinds : Kinds) (root : Tree)
    → find_duplicate kinds root ≡ none
    → collect_declarations kinds root ≡ (
      declared_on (prompts_of kinds) (walk_declaration_commands root),
      declared_on (resources_of kinds) (walk_declaration_commands root),
    )
unfolding collect_declarations
collect_declarations_all kinds root h =
    let (ps, rs) = (find_duplicate_iff kinds root).0 h in
    rw (
      collect_on_all (prompts_of kinds) (walk_declaration_commands root) ps,
      collect_on_all (resources_of kinds) (walk_declaration_commands root) rs,
    )
