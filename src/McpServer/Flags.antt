-- ===== src/McpServer/Flags.antt =====
-- The flags of the shared command tree, and their reset before each call: `resetFlagSet`, and the
-- flag part of `runRecovered`. The error of Set or Replace is dropped there, so a value that refuses
-- its own default keeps the one it has.
use ax_go.Common.{Text, Bool, true, false, ◌&&◌, List, [], ◌∷◌, map, if◌then◌else◌, All, ◌≡◌}

-- A plain flag with its DefValue, or a slice flag with the defaults that `snapshotSliceDefaults`
-- took; `takes` says whether its value accepts that default.
pub data Flag : Type 0 where
  plain_flag : (name def value : Text) → (takes changed : Bool) → Flag
  slice_flag : (name : Text) → (defs values : List Text) → (takes changed : Bool) → Flag

unfoldable pub reset_flag : Flag → Flag
reset_flag (plain_flag name def value takes true) =
    plain_flag name def (if takes then def else value) takes false
reset_flag (plain_flag name def value takes false) = plain_flag name def value takes false
reset_flag (slice_flag name defs values takes changed) =
    slice_flag name defs (if takes then defs else values) takes false

-- All flag sets of the tree, walked by `resetCommandTree`.
unfoldable pub reset_flag_set : List Flag → List Flag
unfolding reset_flag
reset_flag_set flags = map reset_flag flags

-- The flag as it was declared.
abbrev pub declared : Flag → Flag
declared (plain_flag name def value takes changed) = plain_flag name def def takes false
declared (slice_flag name defs values takes changed) = slice_flag name defs defs takes false

-- Its value accepts its own default.
abbrev pub takes_default : Flag → Bool
takes_default (plain_flag name def value takes changed) = takes
takes_default (slice_flag name defs values takes changed) = takes

abbrev pub TakesDefault : Flag → Type 0
TakesDefault f = takes_default f ≡ true

-- pflag marks a flag as changed when it sets it: one that is not marked has its default.
abbrev pub IsMarked : Flag → Type 0
IsMarked (plain_flag name def value takes true) = Unit
IsMarked (plain_flag name def value takes false) = value ≡ def
IsMarked (slice_flag name defs values takes changed) = Unit

-- Whether the flags take their defaults depends on their declarations only.
abbrev all_take : List Flag → Bool
all_take [] = true
all_take (f ∷ flags) = takes_default f && all_take flags

-- What Cobra and the command do with the flags of a call, the slice assignments of the call first: a
-- result, and the flags afterwards.
abbrev pub Invocation : Type 0 → Type 0
Invocation A = List Flag → A × List Flag

-- pflag's contract: flags keep their names and defaults, and every one that is set is marked.
pub record IsPflag {A : Type 0} (call : Invocation A) : Type 0 where
  pub keeps : (flags : List Flag) → map declared (call flags).1 ≡ map declared flags
  pub marks : (flags : List Flag) → All IsMarked flags → All IsMarked (call flags).1

-- One call on the shared tree: reset, then invoke.
unfoldable pub call_tool : {A : Type 0} → Invocation A → List Flag → A × List Flag
call_tool call flags = call (reset_flag_set flags)

unfoldable pub call_tools : {A : Type 0} → List (Invocation A) → List Flag → List Flag
unfolding call_tool
call_tools [] flags = flags
call_tools (call ∷ calls) flags = call_tools calls (call_tool call flags).1
