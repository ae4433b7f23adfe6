-- ===== src/Runtime/Execute/Tree.antt =====
-- The passes of execute.go over the command tree before it runs: `wrapPersistentPreRun`,
-- `wrapCommandPersistentPreRun` and `rebindCommandContexts`. A forest is a list of siblings, each
-- with its children.
use ax_go.Common.{
  ℕ, suc, Text, Bool, true, false, ◌||◌, Option, none, some, ◌≡◌, refl, arith, if◌then◌else◌,
}
use ax_go.Contract.Context.{Context}

-- A hook of the adopter, or the agent-safety setup, alone or ahead of the hook that it replaced.
pub data Hook : Type 0 where
  own : ℕ → Hook
  setup : Hook
  setup_before : Hook → Hook

pub record Command : Type 0 where
  pub name : Text
  pub context : Option Context
  pub persistent_pre_run_e : Option Hook
  pub persistent_pre_run : Option ℕ
  pub annotated : Bool

pub data Forest : Type 0 where
  leaf : Forest
  node : Command → Forest → Forest → Forest

abbrev replaced : Option Hook → Hook
replaced none = setup
replaced (some h) = setup_before h

-- `wrapCommandPersistentPreRun`
unfoldable pub wrap_command : Command → Command
wrap_command cmd = if cmd.annotated then cmd else record cmd {
  persistent_pre_run_e = some (replaced cmd.persistent_pre_run_e);
  annotated = true;
}

abbrev is_set {ℓ} : {A : Type ℓ} → Option A → Bool
is_set none = false
is_set (some _) = true

abbrev pub has_hook : Command → Bool
has_hook cmd = is_set cmd.persistent_pre_run || is_set cmd.persistent_pre_run_e

unfoldable pub wrap_forest : Forest → Forest
unfolding wrap_command
wrap_forest leaf = leaf
wrap_forest (node cmd children siblings) =
    node (if has_hook cmd then wrap_command cmd else cmd) (wrap_forest children)
      (wrap_forest siblings)

-- `wrapPersistentPreRun` on the root and what stands below it.
unfoldable pub wrap_persistent_pre_run : Command → Forest → Command × Forest
unfolding wrap_forest
wrap_persistent_pre_run root children = (wrap_command root, wrap_forest children)

unfoldable pub rebind_forest : Context → Forest → Forest
rebind_forest ctx leaf = leaf
rebind_forest ctx (node cmd children siblings) =
    node (record cmd { context = some ctx }) (rebind_forest ctx children)
      (rebind_forest ctx siblings)

unfoldable pub rebind_command_contexts : Context → Command → Forest → Command × Forest
unfolding rebind_forest
rebind_command_contexts ctx root children =
    (record root { context = some ctx }, rebind_forest ctx children)

-- How often the setup stands in a hook.
abbrev setups : Hook → ℕ
setups (own n) = 0
setups setup = 1
setups (setup_before h) = suc (setups h)

abbrev setups_of : Option Hook → ℕ
setups_of none = 0
setups_of (some h) = setups h

abbrev pub AllCommands : (Command → Type 0) → Forest → Type 0
AllCommands P leaf = Unit
AllCommands P (node cmd children siblings) = P cmd × AllCommands P children × AllCommands P siblings

-- The annotation says whether the setup is installed, and it is never installed twice.
abbrev IsConsistent : Command → Type 0
IsConsistent cmd = setups_of cmd.persistent_pre_run_e ≡ (if cmd.annotated then 1 else 0)

-- Every hook that Cobra could dispatch to runs the setup exactly once.
abbrev pub IsCovered : Command → Type 0
IsCovered cmd = IsConsistent cmd × (has_hook cmd ≡ cmd.annotated)

wrap_command-IsCovered : (cmd : Command) → IsConsistent cmd → IsCovered (wrap_command cmd)
unfolding wrap_command
wrap_command-IsCovered cmd h = ground arith

wrap_forest-IsCovered :
    (f : Forest) → AllCommands IsConsistent f → AllCommands IsCovered (wrap_forest f)
unfolding wrap_forest
wrap_forest-IsCovered leaf h = tt
wrap_forest-IsCovered (node cmd children siblings) (c, k, s) = (
  ground (arith, wrap_command-IsCovered cmd c),
  wrap_forest-IsCovered children k,
  wrap_forest-IsCovered siblings s,
)

-- Once Execute has prepared a tree whose annotations are right, the root runs the agent-safety
-- setup exactly once, and so does every command that declares a persistent hook: no hook is left
-- that would shadow the setup, and none runs it twice.
pub wrap_persistent_pre_run-IsCovered :
    (root : Command) (children : Forest)
    → IsConsistent root
    → AllCommands IsConsistent children
    → let (root', children') = wrap_persistent_pre_run root children in
      IsCovered root' × (root'.annotated ≡ true) × AllCommands IsCovered children'
unfolding wrap_persistent_pre_run
wrap_persistent_pre_run-IsCovered root children h k =
    (wrap_command-IsCovered root h, ground arith, wrap_forest-IsCovered children k)

wrap_forest_idem : (f : Forest) → wrap_forest (wrap_forest f) ≡ wrap_forest f
unfolding wrap_forest
wrap_forest_idem leaf = refl
wrap_forest_idem (node cmd children siblings) =
    ground (arith, wrap_forest_idem children, wrap_forest_idem siblings)

-- A second Execute on the same tree wraps nothing again.
pub wrap_persistent_pre_run_idem :
    (root : Command) (children : Forest)
    → let (root', children') = wrap_persistent_pre_run root children in
      wrap_persistent_pre_run root' children' ≡ (root', children')
unfolding wrap_persistent_pre_run
wrap_persistent_pre_run_idem root children = ground (arith, wrap_forest_idem children)

rebind_forest-All :
    (ctx : Context) (f : Forest) → AllCommands (λ cmd. cmd.context ≡ some ctx) (rebind_forest ctx f)
unfolding rebind_forest
rebind_forest-All ctx leaf = tt
rebind_forest-All ctx (node cmd children siblings) =
    (refl, rebind_forest-All ctx children, rebind_forest-All ctx siblings)

rebind_forest-wrap :
    (ctx : Context) (f : Forest)
    → rebind_forest ctx (wrap_forest f) ≡ wrap_forest (rebind_forest ctx f)
unfolding rebind_forest wrap_forest
rebind_forest-wrap ctx leaf = refl
rebind_forest-wrap ctx (node cmd children siblings) =
    ground (arith, rebind_forest-wrap ctx children, rebind_forest-wrap ctx siblings)

-- Every command of the tree, whatever context an earlier call left on it, has the context of this
-- call, and rebinding does not disturb the installed hooks.
pub rebind_command_contexts-All :
    (ctx : Context) (root : Command) (children : Forest)
    → let (root', children') = rebind_command_contexts ctx root children in
      (root'.context ≡ some ctx)
      × AllCommands (λ cmd. cmd.context ≡ some ctx) children'
      × (rebind_forest ctx (wrap_forest children) ≡ wrap_forest children')
unfolding rebind_command_contexts
rebind_command_contexts-All ctx root children =
    (refl, rebind_forest-All ctx children, rebind_forest-wrap ctx children)
