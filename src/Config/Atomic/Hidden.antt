-- ===== src/Config/Atomic/Hidden.antt =====
-- Until the rename, only the temporary file changes; and what it holds then.
use ax_go.Common.{
  ℕ, Text, text_eq, text_eq→≡, text_eq_refl, Bool, true, false, Option, none, some, List, [], ◌∷◌,
  ◌++◌, All, All-append, ◌≡◌, ◌≢◌, inl, inr, refl, arith, if◌then◌else◌, Bool-cases,
}
use ax_go.Contract.Errors.{GoError}
use ax_go.Config.Atomic.{File, Files, put, Faults, Written, removed, wrote, chmodded, closed}

-- Some other file, and the target while it is not replaced.
abbrev pub SameBut : Text → Files → Files → Type 0
SameBut tmp before after = (name : Text) → name ≢ tmp → after name ≡ before name

pub other-name : (a b : Text) → b ≢ a → text_eq a b ≡ false
other-name a b ne = elim (Bool-cases (text_eq a b)) [
  | inl same ↦ absurd (ne (ground (arith, text_eq→≡ a b same)))
  | inr other ↦ other
]

pub put_tmp :
    (tmp : Text) (file : Option File) (before files : Files)
    → SameBut tmp before files
    → SameBut tmp before (put tmp file files)
put_tmp tmp file before files h name ne = rw (other-name tmp name ne) (h name ne)

-- Everything that has been seen, the end included, differs in the temporary file only.
pub record IsHidden (tmp : Text) (before : Files) (w : Written) : Type 0 where
  pub final : SameBut tmp before w.files
  pub each : All (SameBut tmp before) w.seen

closed-IsHidden :
    (e : Option GoError) (tmp : Text) (before files : Files) (seen : List Files)
    → SameBut tmp before files
    → All (SameBut tmp before) seen
    → IsHidden tmp before (closed e tmp files seen)
closed-IsHidden none tmp before files seen h k = record { final = h; each = k }
closed-IsHidden (some e) tmp before files seen h k = record { final = h; each = k }

chmodded-IsHidden :
    (faults : Faults) (e : Option GoError) (tmp bytes : Text) (mode : ℕ) (before files : Files)
    (seen : List Files)
    → SameBut tmp before files
    → All (SameBut tmp before) seen
    → IsHidden tmp before (chmodded faults e tmp bytes mode files seen)
chmodded-IsHidden faults (some e) tmp bytes mode before files seen h k = record {
  final = h;
  each = k;
}
chmodded-IsHidden faults none tmp bytes mode before files seen h k =
    let next = put_tmp tmp _ before files h in
    closed-IsHidden faults.close tmp before _ _ next (All-append _ seen _ k (next, tt))

pub wrote-IsHidden :
    (faults : Faults) (e : Option GoError) (tmp bytes : Text) (mode : ℕ) (before files : Files)
    → SameBut tmp before files
    → IsHidden tmp before (wrote faults e tmp bytes mode files)
wrote-IsHidden faults (some e) tmp bytes mode before files h =
    let next = put_tmp tmp _ before files h in record { final = next; each = (next, tt) }
wrote-IsHidden faults none tmp bytes mode before files h =
    let next = put_tmp tmp _ before files h in
    chmodded-IsHidden faults faults.chmod tmp bytes mode before _ _ next (next, tt)

pub removed-IsHidden :
    (faults : Faults) (tmp : Text) (before : Files) (w : Written)
    → IsHidden tmp before w
    → IsHidden tmp before (removed faults tmp w)
removed-IsHidden faults tmp before w h = go faults.remove_fails
  where
    go :
        (b : Bool)
        → IsHidden tmp before (
            if b then w else record {
              error = w.error;
              files = put tmp none w.files;
              seen = w.seen ++ put tmp none w.files ∷ [];
            })
    go true = h
    go false =
        let next = put_tmp tmp none before w.files h.final in
        record { final = next; each = All-append _ w.seen _ h.each (next, tt) }

-- Where writing and closing returns no error, the temporary file has all of the new content.
closed_holds :
    (e : Option GoError) (tmp : Text) (new : File) (files : Files) (seen : List Files)
    → (closed e tmp (put tmp (some new) files) seen).error ≡ none
    → (closed e tmp (put tmp (some new) files) seen).files tmp ≡ some new
closed_holds none tmp new files seen h = rw (text_eq_refl tmp) refl
closed_holds (some e) tmp new files seen h = cc

chmodded_holds :
    (faults : Faults) (e : Option GoError) (tmp bytes : Text) (mode : ℕ) (files : Files)
    (seen : List Files)
    → (chmodded faults e tmp bytes mode files seen).error ≡ none
    → (chmodded faults e tmp bytes mode files seen).files tmp
      ≡ some (record { content = bytes; mode = mode })
chmodded_holds faults (some e) tmp bytes mode files seen h = cc
chmodded_holds faults none tmp bytes mode files seen h = closed_holds faults.close tmp _ files _ h

pub wrote_holds :
    (faults : Faults) (e : Option GoError) (tmp bytes : Text) (mode : ℕ) (files : Files)
    → (wrote faults e tmp bytes mode files).error ≡ none
    → (wrote faults e tmp bytes mode files).files tmp
      ≡ some (record { content = bytes; mode = mode })
wrote_holds faults (some e) tmp bytes mode files h = cc
wrote_holds faults none tmp bytes mode files h =
    chmodded_holds faults faults.chmod tmp bytes mode _ _ h
