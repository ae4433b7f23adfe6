-- ===== src/Config/Atomic/Keeps.antt =====
-- What a reader of the files can see, whichever calls fail.
use ax_go.Common.{
  ℕ, Text, text_eq_refl, Option, none, some, [], ◌∷◌, ◌++◌, All, All-append, All-map, ◌≡◌, ◌≢◌, ◌⊎◌,
  inl, inr, refl, arith,
}
use ax_go.Contract.Errors.{GoError}
use ax_go.Config.Atomic.{
  File, Files, put, Faults, Written, write_and_close, atomic_write_file, temp_mode, after_close,
  renamed, removed, created,
}
use ax_go.Config.Atomic.Hidden.{
  SameBut, IsHidden, other-name, removed-IsHidden, wrote-IsHidden, wrote_holds, put_tmp,
}

-- The target holds what it held, or all of the new content, and no third file changes.
pub record IsOldOrNew (tmp path : Text) (new : File) (before after : Files) : Type 0 where
  pub target : (after path ≡ before path) ⊎ (after path ≡ some new)
  pub others : (name : Text) → name ≢ tmp → name ≢ path → after name ≡ before name

-- What the whole write promises, from the files before it.
pub record IsAtomic (tmp path : Text) (new : File) (before : Files) (w : Written) : Type 0 where
  pub failed_keeps : w.error ≢ none → w.files path ≡ before path
  pub done_replaces : w.error ≡ none → w.files path ≡ some new
  pub done_cleans : w.error ≡ none → w.files tmp ≡ none
  pub final : IsOldOrNew tmp path new before w.files
  pub each : All (IsOldOrNew tmp path new before) w.seen

kept-IsOldOrNew :
    (tmp path : Text) (new : File) (before files : Files)
    → path ≢ tmp
    → SameBut tmp before files
    → IsOldOrNew tmp path new before files
kept-IsOldOrNew tmp path new before files ne h = record {
  target = inl (h path ne);
  others = λ name other _. h name other;
}

hidden-IsAtomic :
    (tmp path : Text) (new : File) (before : Files) (w : Written)
    → path ≢ tmp
    → w.error ≢ none
    → IsHidden tmp before w
    → IsAtomic tmp path new before w
hidden-IsAtomic tmp path new before w ne fails h = record {
  failed_keeps = λ _. h.final path ne;
  done_replaces = λ q. absurd (fails q);
  done_cleans = λ q. absurd (fails q);
  final = kept-IsOldOrNew tmp path new before w.files ne h.final;
  each =
      All-map (SameBut tmp before) (IsOldOrNew tmp path new before)
        (λ files. kept-IsOldOrNew tmp path new before files ne) w.seen h.each;
}

replaced-IsAtomic :
    (tmp path : Text) (new : File) (before : Files) (w : Written)
    → path ≢ tmp
    → w.files tmp ≡ some new
    → IsHidden tmp before w
    → IsAtomic tmp path new before (record {
      error = none;
      files = put tmp none (put path (w.files tmp) w.files);
      seen = w.seen ++ put tmp none (put path (w.files tmp) w.files) ∷ [];
    })
replaced-IsAtomic tmp path new before w ne full h =
    let there = other-name tmp path ne in
    let at_path : put tmp none (put path (w.files tmp) w.files) path ≡ some new =
      rw (there, text_eq_refl path) full in
    let final : IsOldOrNew tmp path new before (put tmp none (put path (w.files tmp) w.files)) =
      record {
        target = inr at_path;
        others = λ name other third.
            rw (other-name tmp name other, other-name path name third) (h.final name other);
      } in
    record {
      failed_keeps = λ q. absurd (q refl);
      done_replaces = λ q. at_path;
      done_cleans = λ q. rw (text_eq_refl tmp) refl;
      final = final;
      each =
          All-append _ w.seen _
            (All-map (SameBut tmp before) (IsOldOrNew tmp path new before)
              (λ files. kept-IsOldOrNew tmp path new before files ne) w.seen h.each)
            (final, tt);
    }

removed-fails :
    (faults : Faults) (tmp : Text) (w : Written)
    → w.error ≢ none
    → (removed faults tmp w).error ≢ none
removed-fails faults tmp w fails q = fails (ground arith)

renamed-IsAtomic :
    (faults : Faults) (e : Option GoError) (tmp path : Text) (new : File) (before : Files)
    (w : Written)
    → path ≢ tmp
    → w.files tmp ≡ some new
    → IsHidden tmp before w
    → IsAtomic tmp path new before (renamed faults e tmp path w)
renamed-IsAtomic faults none tmp path new before w ne full h =
    replaced-IsAtomic tmp path new before w ne full h
renamed-IsAtomic faults (some e) tmp path new before w ne full h =
    hidden-IsAtomic tmp path new before _ ne (removed-fails faults tmp _ (λ q. cc))
      (removed-IsHidden faults tmp before _ (record { final = h.final; each = h.each }))

after_close-IsAtomic :
    (faults : Faults) (e : Option GoError) (tmp path : Text) (new : File) (before : Files)
    (w : Written)
    → path ≢ tmp
    → w.error ≡ e
    → (e ≡ none → w.files tmp ≡ some new)
    → IsHidden tmp before w
    → IsAtomic tmp path new before (after_close faults e tmp path w)
after_close-IsAtomic faults none tmp path new before w ne q full h =
    renamed-IsAtomic faults faults.rename tmp path new before w ne (full refl) h
after_close-IsAtomic faults (some e) tmp path new before w ne q full h =
    hidden-IsAtomic tmp path new before _ ne (removed-fails faults tmp w (λ p. cc))
      (removed-IsHidden faults tmp before w h)

created-IsAtomic :
    (faults : Faults) (e : Option GoError) (tmp path bytes : Text) (mode : ℕ) (files : Files)
    → path ≢ tmp
    → IsAtomic tmp path
        (record { content = bytes; mode = mode })
        files
        (created faults e tmp path bytes mode files)
unfolding write_and_close
created-IsAtomic faults (some e) tmp path bytes mode files ne =
    hidden-IsAtomic tmp path _ files _ ne (λ q. cc) (record { final = λ name _. refl; each = tt })
created-IsAtomic faults none tmp path bytes mode files ne =
    let empty =
      put_tmp tmp (some (record { content = []; mode = temp_mode })) files files (λ name _. refl) in
    let hidden = wrote-IsHidden faults faults.write tmp bytes mode files _ empty in
    after_close-IsAtomic faults _ tmp path _ files _ ne refl
      (wrote_holds faults faults.write tmp bytes mode _)
      (record { final = hidden.final; each = (empty, hidden.each) })

-- Whichever calls fail and however many bytes a failed write leaves: at no time does the target
-- hold anything but its old content or all of the new one with the given mode, and no third file
-- changes. If an error is returned the target is as it was; otherwise it is replaced and no
-- temporary file is left. The temporary file has another name than the target.
pub atomic_write_file-IsAtomic :
    (faults : Faults) (tmp path bytes : Text) (mode : ℕ) (files : Files)
    → path ≢ tmp
    → IsAtomic tmp path
        (record { content = bytes; mode = mode })
        files
        (atomic_write_file faults tmp path bytes mode files)
unfolding atomic_write_file
atomic_write_file-IsAtomic faults tmp path bytes mode files ne =
    created-IsAtomic faults faults.create tmp path bytes mode files ne
