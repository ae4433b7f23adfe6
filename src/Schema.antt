-- ===== src/Schema.antt =====
-- The declarations that a command tree carries in its annotations, of internal/schema: prompts,
-- resources, and the tree that they are collected from. A command stands with the path that Cobra
-- gives it; a text is its bytes.
pub mod Template
pub mod Validate
pub mod Declare
pub mod Walk
pub mod Convert
pub mod Flags
pub mod Locators
pub mod Pflag
pub mod Capability
pub mod Reflect
pub mod Keys
use ax_go.Schema.Pflag.{Flag}
use ax_go.Common.{Text, Bool, Option, List}

pub data Reason : Type 0 where
  nil_command required invalid_charset invalid_utf8 duplicate undeclared_placeholder : Reason
  not_absolute malformed too_long invalid_character corrupt_annotation : Reason
  flag_not_found unsupported_type invalid_value not_in_enum not_in_vocabulary : Reason

pub data Kind : Type 0 where
  prompt resource : Kind

pub record PromptArgument : Type 0 where
  pub name : Text
  pub title : Text
  pub description : Text
  pub required : Bool

pub record Prompt : Type 0 where
  pub name : Text
  pub title : Text
  pub description : Text
  pub arguments : List PromptArgument
  pub template : Text

pub record Resource : Type 0 where
  pub uri : Text
  pub name : Text
  pub title : Text
  pub description : Text
  pub mime_type : Text
  pub content : Text

pub record Violation : Type 0 where
  pub field : Text
  pub reason : Reason

pub record Conflict : Type 0 where
  pub kind : Kind
  pub key : Text
  pub reason : Reason
  pub commands : List Text

-- What the schema reads of a cobra.Command, without its children.
pub record Command : Type 0 where
  pub name : Text
  pub path : Text
  pub use_line : Text
  pub short : Text
  pub long : Text
  pub example : Text
  pub hidden : Bool
  pub runnable : Bool
  -- its Args refuses a call without arguments
  pub requires_args : Bool
  -- NonInheritedFlags and InheritedFlags
  pub own_flags : List Flag
  pub inherited_flags : List Flag
  pub annotations : List (Text × Text)

mutual
  pub data Tree : Type 0 where
    node : Command → Trees → Tree

  pub data Trees : Type 0 where
    leaf : Trees
    child : Tree → Trees → Trees
