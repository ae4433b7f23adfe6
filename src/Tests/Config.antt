-- ===== src/Tests/Config.antt =====
-- Reads, errors and writes of small files.
use ax_go.Common.{
  ◌≤◌, codes, true, false, none, some, [], ◌∷◌, ◌++◌, pos, ok, err, is_empty, ◌≡◌, ◌≢◌, refl, arith,
  if◌then◌else◌,
}
use ax_go.Contract.Errors.{GoError, plain, error_exit_code, exit_validation, to_error}
use ax_go.Config.Read.{Bytes, read_bounded, max_config_bytes_ceiling}
use ax_go.Config.Read.Bounds.{IsBounded, read_bounded-IsBounded}
use ax_go.Config.Read.Source.{Policy, source}
use ax_go.Config.Atomic.{Files, Faults, atomic_write_file, put}
use ax_go.Config.Atomic.Keeps.{IsAtomic, atomic_write_file-IsAtomic}
use ax_go.Config.Parse
use ax_go.Config.Parse.Errors.{parse-IsInvalid}
use ax_go.Config.Parse.PatchFile.{PatchCall, patch_file, KeepsOrPatches, patch_file-KeepsOrPatches}

-- Two bytes for each call, and the end in a call of its own.
abbrev by_two : Policy
by_two = record { piece = λ s. 1; early = false }

small_limit : 4 ≤ max_config_bytes_ceiling
small_limit = omega arith

read_bounded-IsBounded_example :
    IsBounded 4 (read_bounded (source by_two) (λ n. none) (codes "{a:1}") (pos 4))
read_bounded-IsBounded_example =
    read_bounded-IsBounded (source by_two) (λ n. none) (codes "{a:1}") 4 small_limit

-- A rename that fails, and a removal that fails as well.
abbrev no_rename : Faults
no_rename = record {
  create = none;
  write = none;
  written = 0;
  chmod = none;
  close = none;
  rename = some (plain (codes "device busy"));
  remove_fails = true;
}

abbrev one_file : Files
one_file = put (codes "/c") (some (record { content = codes "{}"; mode = 420 })) (λ name. none)

other_name : codes "/c" ≢ codes "/.ax-patch-1"
other_name q = cc

atomic_write_file-IsAtomic_example :
    IsAtomic
      (codes "/.ax-patch-1")
      (codes "/c")
      (record { content = codes "{a:1}"; mode = 420 })
      one_file
      (atomic_write_file no_rename (codes "/.ax-patch-1") (codes "/c") (codes "{a:1}") 420 one_file)
atomic_write_file-IsAtomic_example =
    atomic_write_file-IsAtomic no_rename (codes "/.ax-patch-1") (codes "/c") (codes "{a:1}") 420
      one_file other_name

-- A parser that refuses an empty text, and a patch that appends.
abbrev toy : Parse.Hujson Bytes
toy = record {
  Ast = Bytes;
  parse = λ bytes. if is_empty bytes then err (plain (codes "unexpected end")) else ok bytes;
  unmarshal = λ ast. ok ast;
  apply =
      λ ast change. if is_empty change then err (plain (codes "no patch")) else ok (ast ++ change);
  pack = λ ast. ast;
}

toy_valid : (bytes : Bytes) (x : GoError) → Parse.unmarshal toy bytes ≢ err (Parse.invalid_target x)
unfolding Parse.unmarshal
toy_valid [] x q = cc
toy_valid (c ∷ bytes) x q = cc

nil_refused :
    Parse.parse toy none (source by_two) (λ n. none) (codes "{}") (none ∷ [])
    ≡ err (to_error (Parse.nil_option none))
unfolding Parse.parse Parse.read_config Parse.apply_options
nil_refused = refl

parse-IsInvalid_example :
    error_exit_code (some (to_error (Parse.nil_option none))) ≡ exit_validation
parse-IsInvalid_example =
    parse-IsInvalid toy none by_two (codes "{}") (none ∷ []) (to_error (Parse.nil_option none))
      toy_valid nil_refused

nil_patch_refused :
    Parse.patch toy none (source by_two) (λ n. none) (codes "{}") (codes "[]") (none ∷ [])
    ≡ err (to_error (Parse.nil_option none))
unfolding Parse.patch Parse.read_config Parse.apply_options
nil_patch_refused = refl

abbrev patch_c : PatchCall
patch_c = record {
  ctx = none;
  ctx_err = λ n. none;
  path = codes "/c";
  change = codes "[]";
  opts = [];
  policy = by_two;
  stat = none;
  open_file = none;
  fault = λ n. none;
  tmp = codes "/.ax-patch-1";
  faults = no_rename;
}

patch_file-KeepsOrPatches_example :
    KeepsOrPatches toy patch_c one_file (patch_file toy patch_c one_file)
patch_file-KeepsOrPatches_example = patch_file-KeepsOrPatches toy patch_c one_file other_name
