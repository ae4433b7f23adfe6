-- ===== src/Config/Parse/PatchFile.antt =====
-- `PatchFile`: a file is read, patched and replaced. Every call may fail; the reader hands out the
-- file's bytes in pieces of any size, and the context may be cancelled between two of them.
use ax_go.Common.{
  ℕ, Text, codes, Option, none, some, List, [], Result, ok, err, ℤ, Result-cases, inl, inr, ◌≡◌,
  ◌≢◌, refl, sym, ap, ◌∙◌, arith,
}
use ax_go.Contract.Context.{Context}
use ax_go.Contract.Errors.{GoError, plain}
use ax_go.Config.Atomic.{File, Files, Faults, Written, atomic_write_file}
use ax_go.Config.Atomic.Keeps.{atomic_write_file-IsAtomic}
use ax_go.Config.Read.{
  Bytes, Outcome, complete, invalid_max_bytes, too_large, interrupted, source_failed, no_progress,
  out_of_fuel, read_bounded,
}
use ax_go.Config.Read.Source.{Policy}
use ax_go.Config.Read.Faulty.{faulty, read_bounded-Takes}
use ax_go.Config.Parse.{
  ConfigOption, Hujson, normalize_read_error, apply_options, default_max_bytes, read_config, patch,
  patched,
}

-- What is done to the file: the patch and the options, and what the file system will do.
pub record PatchCall : Type 0 where
  pub ctx : Option Context
  pub ctx_err : ℕ → Option GoError
  pub path : Text
  pub change : Bytes
  pub opts : List (Option ConfigOption)
  pub policy : Policy
  -- the errors of Stat, of Open, and of a call of Read with so many bytes left
  pub stat : Option GoError
  pub open_file : Option GoError
  pub fault : ℕ → Option GoError
  pub tmp : Text
  pub faults : Faults

no_error_complete :
    (ctx : Option Context) (o : Outcome) → normalize_read_error ctx o ≡ none → o ≡ complete
unfolding normalize_read_error
no_error_complete ctx complete h = refl
no_error_complete ctx (invalid_max_bytes n) h = cc
no_error_complete ctx (too_large n) h = cc
no_error_complete ctx (interrupted e) h = cc
no_error_complete ctx (source_failed e) h = cc
no_error_complete ctx no_progress h = cc
no_error_complete ctx out_of_fuel h = cc

module _ {V : Type 0} (h : Hujson V) where
  -- `Patch` on the open file.
  abbrev pub patched_file : PatchCall → File → Result GoError Bytes
  patched_file c file =
      patch h c.ctx (faulty c.fault c.policy) c.ctx_err file.content c.change c.opts

  abbrev write_patched : PatchCall → Files → File → Result GoError Bytes → Written
  write_patched c files file (err e) = record { error = some e; files = files; seen = [] }
  write_patched c files file (ok bytes) =
      atomic_write_file c.faults c.tmp c.path bytes file.mode files

  abbrev stopped : Files → GoError → Written
  stopped files e = record { error = some e; files = files; seen = [] }

  abbrev patch_opened : PatchCall → Files → File → Option GoError → Written
  patch_opened c files file (some e) = stopped files e
  patch_opened c files file none = write_patched c files file (patched_file c file)

  abbrev patch_found : PatchCall → Files → Option File → Option GoError → Written
  patch_found c files found (some e) = stopped files e
  patch_found c files none none = stopped files (plain (codes "no such file or directory"))
  patch_found c files (some file) none = patch_opened c files file c.open_file

  unfoldable pub patch_file : PatchCall → Files → Written
  patch_file c files = patch_found c files (files c.path) c.stat

  -- The file was there, its content was patched, and the result is there now, with the old mode.
  pub record IsPatched (c : PatchCall) (before after : Files) : Type 0 where
    pub file : File
    pub bytes : Bytes
    pub was : before c.path ≡ some file
    pub patches : patched h c.ctx c.change (ok file.content) ≡ ok bytes
    pub is : after c.path ≡ some (record { content = bytes; mode = file.mode })

  pub record KeepsOrPatches (c : PatchCall) (before : Files) (w : Written) : Type 0 where
    pub failed_keeps : w.error ≢ none → w.files c.path ≡ before c.path
    pub done_patches : w.error ≡ none → IsPatched c before w.files
    pub others : (name : Text) → name ≢ c.tmp → name ≢ c.path → w.files name ≡ before name

  -- A read of the file that is no error gives its content.
  read_content :
      (c : PatchCall) (content bytes : Bytes) (max_bytes : ℤ) (failure : Option GoError)
      → normalize_read_error c.ctx
          (read_bounded (faulty c.fault c.policy) c.ctx_err content max_bytes).outcome
        ≡ failure
      → elim failure [
        | some e ↦ err e
        | none ↦ ok (read_bounded (faulty c.fault c.policy) c.ctx_err content max_bytes).taken
      ]
        ≡ ok bytes
      → bytes ≡ content
  read_content c content bytes max_bytes (some e) q r = cc
  read_content c content bytes max_bytes none q r =
      let all =
        read_bounded-Takes c.fault c.policy c.ctx_err content max_bytes
          (no_error_complete c.ctx _ q) in
      cc

  read_config-content :
      (c : PatchCall) (content bytes : Bytes)
      → read_config h c.ctx (faulty c.fault c.policy) c.ctx_err content c.opts ≡ ok bytes
      → bytes ≡ content
  unfolding read_config
  read_config-content c content bytes q =
      elim (Result-cases (apply_options c.ctx c.opts default_max_bytes)) [
        | inl (e, refused) ↦ let stop = rw (read_config, refused) at q in cc
        | inr (cfg, applied) ↦
            read_content c content bytes cfg _ refl (rw (read_config, applied) at q)
      ]

  patched_file-content :
      (c : PatchCall) (file : File) (bytes : Bytes)
      → patched_file c file ≡ ok bytes
      → patched h c.ctx c.change (ok file.content) ≡ ok bytes
  unfolding patch
  patched_file-content c file bytes q =
      elim (Result-cases
        (read_config h c.ctx (faulty c.fault c.policy) c.ctx_err file.content c.opts)) [
          | inl (e, refused) ↦ let stop = rw refused at q in cc
          | inr (content, read) ↦
              ap (λ d. patched h c.ctx c.change (ok d))
                (sym (read_config-content c file.content content read))
              ∙ (rw read at q)
        ]

  unchanged :
      (c : PatchCall) (before : Files) (e : GoError)
      → KeepsOrPatches c before (record { error = some e; files = before; seen = [] })
  unchanged c before e = record {
    failed_keeps = λ _. refl;
    done_patches = λ q. absurd (ground arith);
    others = λ name _ _. refl;
  }

  write_patched_lem :
      (c : PatchCall) (files : Files) (file : File) (r : Result GoError Bytes)
      → c.path ≢ c.tmp
      → files c.path ≡ some file
      → patched_file c file ≡ r
      → KeepsOrPatches c files (write_patched c files file r)
  write_patched_lem c files file (err e) ne was q = unchanged c files e
  write_patched_lem c files file (ok bytes) ne was q =
      let w = atomic_write_file-IsAtomic c.faults c.tmp c.path bytes file.mode files ne in
      record {
        failed_keeps = w.failed_keeps;
        done_patches = λ e. record {
          file = file;
          bytes = bytes;
          was = was;
          patches = patched_file-content c file bytes q;
          is = w.done_replaces e;
        };
        others = w.final.others;
      }

  patch_opened_lem :
      (c : PatchCall) (files : Files) (file : File) (opened : Option GoError)
      → c.path ≢ c.tmp
      → files c.path ≡ some file
      → KeepsOrPatches c files (patch_opened c files file opened)
  patch_opened_lem c files file (some e) ne was = unchanged c files e
  patch_opened_lem c files file none ne was = write_patched_lem c files file _ ne was refl

  patch_found_lem :
      (c : PatchCall) (files : Files) (found : Option File) (stat : Option GoError)
      → c.path ≢ c.tmp
      → files c.path ≡ found
      → KeepsOrPatches c files (patch_found c files found stat)
  patch_found_lem c files found (some e) ne was = unchanged c files e
  patch_found_lem c files none none ne was = unchanged c files _
  patch_found_lem c files (some file) none ne was = patch_opened_lem c files file c.open_file ne was

  -- Whichever of Stat, Open, Read and the calls of the write fail: if PatchFile returns an error, of
  -- whatever kind, the file is as it was; if it returns none, the file holds the patch of all of its
  -- old content and keeps its mode. No third file changes. The temporary file has another name than
  -- the target.
  pub patch_file-KeepsOrPatches :
      (c : PatchCall) (files : Files) → c.path ≢ c.tmp → KeepsOrPatches c files (patch_file c files)
  unfolding patch_file
  patch_file-KeepsOrPatches c files ne = patch_found_lem c files (files c.path) c.stat ne refl
