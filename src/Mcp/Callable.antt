-- ===== src/Mcp/Callable.antt =====
-- Which commands of a tree are tools.
use mathlib.Core.Path.{subst}
use ax_go.Common.{
  Bool, true, false, not, ◌&&◌, ◌||◌, List, [], ◌∷◌, ◌++◌, if◌then◌else◌, All, ◌≡◌, ◌⊎◌, ◌↔◌, refl,
  sym, arith, Bool-cases, inl, inr,
}
use ax_go.Schema.{Command, Tree, node, Trees, leaf, child}
use ax_go.Mcp.{is_excluded, is_reserved_command, walk_callable_commands, walk_callable_children}

abbrev pub Listed : Command → List Command → Type 0
Listed c [] = ⊥
Listed c (x ∷ xs) = (c ≡ x) ⊎ Listed c xs

unfoldable mutual
  -- The command stands in the tree below these commands, the root first.
  pub At : Tree → List Command → Command → Type 0
  At (node cmd children) [] c = c ≡ cmd
  At (node cmd children) (above ∷ path) c = (above ≡ cmd) × AtChild children path c

  pub AtChild : Trees → List Command → Command → Type 0
  AtChild leaf path c = ⊥
  AtChild (child t children) path c = At t path c ⊎ AtChild children path c

-- A command that does not prune what is below it.
abbrev pub IsOpen : Command → Type 0
IsOpen cmd = (cmd.hidden ≡ false) × (is_reserved_command cmd.name ≡ false)

abbrev pub IsTool : Command → Type 0
IsTool cmd = IsOpen cmd × (cmd.runnable ≡ true) × (is_excluded cmd.annotations ≡ false)

Listed-append :
    (c : Command) (xs ys : List Command) → Listed c (xs ++ ys) ↔ (Listed c xs ⊎ Listed c ys)
Listed-append c [] ys = ((λ h. inr h), (λ h. elim h [ inl out ↦ absurd out | inr m ↦ m ]))
Listed-append c (x ∷ xs) ys = (
  (λ h. elim h [
    | inl e ↦ inl (inl e)
    | inr m ↦ elim ((Listed-append c xs ys).0 m) [ inl l ↦ inl (inr l) | inr r ↦ inr r ]
  ]),
  (λ h. elim h [
    | inl l ↦ elim l [ inl e ↦ inl e | inr m ↦ inr ((Listed-append c xs ys).1 (inl m)) ]
    | inr r ↦ inr ((Listed-append c xs ys).1 (inr r))
  ]),
)

-- It is a tool, and no command above it is hidden or reserved.
abbrev pub IsCallable : Tree → Command → Type 0
IsCallable t c = IsTool c × (path : List Command) × At t path c × All IsOpen path

abbrev IsCallableChild : Trees → Command → Type 0
IsCallableChild children c =
    IsTool c × (path : List Command) × AtChild children path c × All IsOpen path

IsOpen-iff : (cmd : Command) → ((cmd.hidden || is_reserved_command cmd.name) ≡ false) ↔ IsOpen cmd
IsOpen-iff cmd = ground arith

and_true : (a b : Bool) → (a && not b) ≡ true → (a ≡ true) × (b ≡ false)
and_true a b h = ground arith

both : (a b : Bool) → a ≡ true → b ≡ false → (a && not b) ≡ false → ⊥
both a b ha hb h = ground arith

apart : {b : Bool} → b ≡ true → b ≡ false → ⊥
apart t f = ground arith

here_iff :
    (c cmd : Command)
    → IsOpen cmd
    → Listed c (if cmd.runnable && not (is_excluded cmd.annotations) then cmd ∷ [] else [])
      ↔ ((c ≡ cmd) × IsTool cmd)
here_iff c cmd opened = elim (Bool-cases (cmd.runnable && not (is_excluded cmd.annotations))) [
  | inl tool ↦ rw tool (
    (λ h. elim h [
      | inl e ↦ let (r, x) = and_true _ _ tool in (e, (opened, r, x))
      | inr out ↦ absurd out
    ]),
    (λ h. inl h.0),
  )
  | inr other ↦ rw other (
    (λ out. absurd out),
    (λ h. absurd (both cmd.runnable (is_excluded cmd.annotations) h.1.1 h.1.2 other)),
  )
]

-- A command that is open lists itself, if it is a tool, and what its children list.
node_iff :
    (c cmd : Command) (children : Trees)
    → Listed c (walk_callable_commands (node cmd children))
      ↔ (IsOpen cmd × (((c ≡ cmd) × IsTool cmd) ⊎ Listed c (walk_callable_children children)))
unfolding walk_callable_commands
node_iff c cmd children = elim (Bool-cases (cmd.hidden || is_reserved_command cmd.name)) [
  | inl closed ↦
      rw closed ((λ out. absurd out), (λ h. absurd (apart closed ((IsOpen-iff cmd).1 h.0))))
  | inr opened ↦
      let is_open = (IsOpen-iff cmd).0 opened in
      let here = here_iff c cmd is_open in
      let split =
        Listed-append c (if cmd.runnable && not (is_excluded cmd.annotations) then cmd ∷ [] else [])
          (walk_callable_children children) in
      rw opened (
        (λ h. (is_open, elim (split.0 h) [ inl l ↦ inl (here.0 l) | inr r ↦ inr r ])),
        (λ h. split.1 (elim h.1 [ inl l ↦ inl (here.1 l) | inr r ↦ inr r ])),
      )
]

mutual
  unfolding At AtChild walk_callable_children

  listed-IsCallable :
      (t : Tree) (c : Command) → Listed c (walk_callable_commands t) → IsCallable t c
  listed-IsCallable (node cmd children) c h =
      let (opened, one) = (node_iff c cmd children).0 h in
      elim one [
        | inl (e, tool) ↦ (subst IsTool (sym e) tool, [], e, tt)
        | inr m ↦
            let (tool, path, at, above) = listed-IsCallableChild children c m in
            (tool, cmd ∷ path, (refl, at), (opened, above))
      ]

  listed-IsCallableChild :
      (children : Trees) (c : Command)
      → Listed c (walk_callable_children children)
      → IsCallableChild children c
  listed-IsCallableChild leaf c h = absurd h
  listed-IsCallableChild (child t children) c h =
      elim ((Listed-append c (walk_callable_commands t) (walk_callable_children children)).0 h) [
        | inl l ↦
            let (tool, path, at, above) = listed-IsCallable t c l in (tool, path, inl at, above)
        | inr r ↦
            let (tool, path, at, above) = listed-IsCallableChild children c r in
            (tool, path, inr at, above)
      ]

own :
    {c cmd : Command} {L : Type 0}
    → c ≡ cmd
    → IsTool c
    → IsOpen cmd × (((c ≡ cmd) × IsTool cmd) ⊎ L)
own {c = c} {L = L} e tool =
    subst (λ cmd'. IsOpen cmd' × (((c ≡ cmd') × IsTool cmd') ⊎ L)) e (tool.0, inl (refl, tool))

mutual
  unfolding At AtChild walk_callable_children

  callable_listed :
      (t : Tree) (c : Command) (path : List Command)
      → IsTool c
      → At t path c
      → All IsOpen path
      → Listed c (walk_callable_commands t)
  callable_listed (node cmd children) c [] tool e above = (node_iff c cmd children).1 (own e tool)
  callable_listed (node cmd children) c (top ∷ path) tool (e, at) above =
      (node_iff c cmd children).1
        (subst IsOpen e above.0, inr (callable_listed_child children c path tool at above.1))

  callable_listed_child :
      (children : Trees) (c : Command) (path : List Command)
      → IsTool c
      → AtChild children path c
      → All IsOpen path
      → Listed c (walk_callable_children children)
  callable_listed_child leaf c path tool at above = absurd at
  callable_listed_child (child t children) c path tool at above =
      (Listed-append c (walk_callable_commands t) (walk_callable_children children)).1 (elim at [
        | inl l ↦ inl (callable_listed t c path tool l above)
        | inr r ↦ inr (callable_listed_child children c path tool r above)
      ])

-- The tools of a tree are exactly the commands that can run, are not excluded, and are neither hidden
-- nor reserved nor below a command that is: an excluded command or a mere group hides nothing below it.
pub walk_callable_commands_iff :
    (t : Tree) (c : Command) → Listed c (walk_callable_commands t) ↔ IsCallable t c
walk_callable_commands_iff t c =
    (listed-IsCallable t c, (λ (tool, path, at, above). callable_listed t c path tool at above))
