-- ===== src/Config/Atomic.antt =====
-- The atomic write of config/config.go: `atomicWriteFile` and `writeAndClose`. A call of the file
-- system fails as `Faults` says; the name that os.CreateTemp chooses is an argument.
pub mod Hidden
pub mod Keeps
use ax_go.Common.{
  ℕ, Text, codes, text_eq, Bool, true, false, Option, none, some, List, [], ◌∷◌, ◌++◌, take,
  if◌then◌else◌,
}
use ax_go.Contract.Errors.{GoError, wrap, error_text}

pub record File : Type 0 where
  pub content : Text
  pub mode : ℕ

abbrev pub Files : Type 0
Files = Text → Option File

abbrev pub put : Text → Option File → Files → Files
put name file files other = if text_eq name other then file else files other

-- The error of each call, the bytes that a failed write leaves, and whether os.Remove fails.
pub record Faults : Type 0 where
  pub create : Option GoError
  pub write : Option GoError
  pub written : ℕ
  pub chmod : Option GoError
  pub close : Option GoError
  pub rename : Option GoError
  pub remove_fails : Bool

-- What is returned, the files at the end, and the files after each call that changed them.
pub record Written : Type 0 where
  pub error : Option GoError
  pub files : Files
  pub seen : List Files

abbrev pub temp_mode : ℕ
temp_mode = 384

abbrev failed : Text → GoError → Files → List Files → Written
failed message e files seen = record {
  error = some (wrap (message ++ error_text e) e);
  files = files;
  seen = seen;
}

abbrev closed : Option GoError → Text → Files → List Files → Written
closed none name files seen = record { error = none; files = files; seen = seen }
closed (some e) name files seen =
    failed (codes "close temp file " ++ (name ++ codes ": ")) e files seen

abbrev chmodded : Faults → Option GoError → Text → Text → ℕ → Files → List Files → Written
chmodded faults (some e) name bytes mode files seen =
    failed (codes "chmod temp file: ") e files seen
chmodded faults none name bytes mode files seen =
    let files' = put name (some (record { content = bytes; mode = mode })) files in
    closed faults.close name files' (seen ++ files' ∷ [])

abbrev wrote : Faults → Option GoError → Text → Text → ℕ → Files → Written
wrote faults (some e) name bytes mode files =
    let files' =
      put name (some (record { content = take faults.written bytes; mode = temp_mode })) files in
    failed (codes "write temp file: ") e files' (files' ∷ [])
wrote faults none name bytes mode files =
    let files' = put name (some (record { content = bytes; mode = temp_mode })) files in
    chmodded faults faults.chmod name bytes mode files' (files' ∷ [])

unfoldable pub write_and_close : Faults → Text → Text → ℕ → Files → Written
write_and_close faults name bytes mode files = wrote faults faults.write name bytes mode files

-- os.Remove of the temporary file, whose own error is ignored.
abbrev removed : Faults → Text → Written → Written
removed faults tmp w =
    if faults.remove_fails
    then w
    else let files' = put tmp none w.files in
      record { error = w.error; files = files'; seen = w.seen ++ files' ∷ [] }

abbrev renamed : Faults → Option GoError → Text → Text → Written → Written
renamed faults none tmp path w =
    let files' = put tmp none (put path (w.files tmp) w.files) in
    record { error = none; files = files'; seen = w.seen ++ files' ∷ [] }
renamed faults (some e) tmp path w =
    removed faults tmp (failed (codes "rename temp file: ") e w.files w.seen)

abbrev after_close : Faults → Option GoError → Text → Text → Written → Written
after_close faults none tmp path w = renamed faults faults.rename tmp path w
after_close faults (some e) tmp path w = removed faults tmp w

abbrev created : Faults → Option GoError → Text → Text → Text → ℕ → Files → Written
created faults (some e) tmp path bytes mode files = failed (codes "create temp file: ") e files []
created faults none tmp path bytes mode files =
    let files' = put tmp (some (record { content = []; mode = temp_mode })) files in
    let w = write_and_close faults tmp bytes mode files' in
    after_close faults w.error tmp path (record w { seen = files' ∷ w.seen })

unfoldable pub atomic_write_file : Faults → Text → Text → Text → ℕ → Files → Written
atomic_write_file faults tmp path bytes mode files =
    created faults faults.create tmp path bytes mode files
