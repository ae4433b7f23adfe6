-- ===== src/Config/Read/Source.antt =====
-- Reading a source that is all there: bytes in memory, handed out in pieces of any size.
use mathlib.Core.List.{append-nil, append_assoc}
use ax_go.Common.{
  ℕ, zero, suc, ◌+◌, ◌≤◌, ◌<◌, min, Bool, true, false, none, List, [], ◌∷◌, ◌++◌, pos, length, take,
  drop, length-append, length-take, take-append-drop, ap, sym, ◌∙◌, leb, is_empty, ltb, Bool-cases,
  inl, inr, ◌≡◌, refl, arith, if◌then◌else◌,
}
use ax_go.Config.Read.{
  Bytes, ReadEnd, more, eof, Reply, Reader, complete, too_large, Got, got, after_read, room,
  read_loop, read_bounded, max_config_bytes_ceiling,
}

-- How a source hands out its bytes: a piece for what is left, and whether the end comes with the
-- last bytes or in a call of its own.
pub record Policy : Type 0 where
  pub piece : Bytes → ℕ
  pub early : Bool

-- The number of bytes of one call, at least one if there is room.
abbrev pub portion : Policy → Bytes → ℕ → ℕ
portion p s room = min room (suc (p.piece s))

abbrev pub end_after : Bool → Bytes → ReadEnd
end_after true [] = eof
end_after early rest = more

abbrev pub reply_of : Policy → Bytes → ℕ → Reply Bytes
reply_of p [] room = record { bytes = []; end = eof; next = [] }
reply_of p (c ∷ s) room =
    let n = portion p (c ∷ s) room in
    record {
      bytes = take n (c ∷ s);
      end = end_after p.early (drop n (c ∷ s));
      next = drop n (c ∷ s);
    }

pub reply_of-fits : (p : Policy) (s : Bytes) (room : ℕ) → length (reply_of p s room).bytes ≤ room
reply_of-fits p [] wanted = omega arith
reply_of-fits p (c ∷ s) wanted = omega (arith, length-take (portion p (c ∷ s) wanted) (c ∷ s))

abbrev pub source : Policy → Reader
source p = record { State = Bytes; read = reply_of p; fits = reply_of-fits p }

-- What reading the whole source at once would give.
abbrev pub read_at_once : ℕ → Bytes → Got
read_at_once max src =
    if ltb max (length src) then got (too_large max) (take (max + 1) src) else got complete src

take_all : {A : Type 0} (xs ys : List A) → take (length xs) (xs ++ ys) ≡ xs
take_all [] ys = refl
take_all (x ∷ xs) ys = ap (λ l. x ∷ l) (take_all xs ys)

oversized :
    (max : ℕ) (taken rest : Bytes)
    → length taken ≡ max + 1
    → got (too_large max) taken ≡ read_at_once max (taken ++ rest)
oversized max taken rest e =
    let wide : ltb max (length (taken ++ rest)) ≡ true = ground (arith, length-append taken rest) in
    rw wide (ap (got (too_large max)) (sym (rw (sym e) (take_all taken rest))))

-- A round whose chunk fits: it ends the read, or the next round reads the rest.
small_round :
    (max : ℕ) (taken rest : Bytes) (early : Bool) (next : Got)
    → length taken ≤ max
    → next ≡ read_at_once max (taken ++ rest)
    → after_read max taken (end_after early rest) false next ≡ read_at_once max (taken ++ rest)
small_round max taken [] true next le e = ground (arith, append-nil taken)
small_round max taken (c ∷ rest) true next le e = ground arith
small_round max taken rest false next le e = ground arith

big_round :
    (max : ℕ) (taken rest : Bytes) (early : Bool) (next : Got)
    → length taken ≡ max + 1
    → after_read max taken (end_after early rest) false next ≡ read_at_once max (taken ++ rest)
big_round max taken rest early next e =
    let big : ltb max (length taken) ≡ true = ground arith in rw big (oversized max taken rest e)

after_round :
    (max : ℕ) (taken rest : Bytes) (early idle : Bool) (next : Got)
    → length taken ≤ max + 1
    → idle ≡ false
    → (length taken ≤ max → next ≡ read_at_once max (taken ++ rest))
    → after_read max taken (end_after early rest) idle next ≡ read_at_once max (taken ++ rest)
after_round max taken rest early true next le busy k = absurd (ground arith)
after_round max taken rest early false next le busy k = elim (Bool-cases (leb (length taken) max)) [
  | inl small ↦ small_round max taken rest early next (ground arith) (k (ground arith))
  | inr big ↦ big_round max taken rest early next (ground arith)
]

last_round :
    (max : ℕ) (taken : Bytes)
    → length taken ≤ max
    → (if ltb max (length (taken ++ []))
        then got (too_large max) (taken ++ [])
        else got complete (taken ++ []))
      ≡ read_at_once max (taken ++ [])
last_round max taken le = ground (arith, append-nil taken)

take_some : (k c : ℕ) (s : Bytes) → 0 < k → is_empty (take k (c ∷ s)) ≡ false
take_some zero c s h = absurd (omega arith)
take_some (suc k) c s h = refl

module _ (p : Policy) (max : ℕ) where
  read_loop-source :
      (fuel n : ℕ) (taken s : Bytes)
      → length taken ≤ max
      → max + 1 < fuel + length taken
      → read_loop (source p) (λ n. none) max fuel n taken s ≡ read_at_once max (taken ++ s)
  unfolding read_loop
  read_loop-source zero n taken s le enough = absurd (omega arith)
  read_loop-source (suc fuel) n taken [] le enough =
      let under : ltb (length taken) (max + 1) ≡ true = ground arith in
      rw under (last_round max taken le)
  read_loop-source (suc fuel) n taken (c ∷ s) le enough =
      let under : ltb (length taken) (max + 1) ≡ true = ground arith in
      let k = portion p (c ∷ s) (room max taken) in
      let size = length-take k (c ∷ s) in
      let grown = length-append taken (take k (c ∷ s)) in
      let whole = append_assoc taken (take k (c ∷ s)) (drop k (c ∷ s)) in
      rw under (
        after_round max (taken ++ take k (c ∷ s)) (drop k (c ∷ s)) p.early _ _
          (omega (arith, size, grown)) (take_some k c s (omega arith))
          (λ small.
            read_loop-source fuel (n + 1) (taken ++ take k (c ∷ s)) (drop k (c ∷ s)) small
              (omega (arith, size, grown)))
        ∙ ap (read_at_once max) (whole ∙ ap (λ l. taken ++ l) (take-append-drop k (c ∷ s))))

-- Reading bytes in memory with a context that is not cancelled gives what reading them at once
-- would, however the source splits them: all of them if they are within the limit, and otherwise
-- the oversize error after one byte more than the limit.
pub read_bounded-source :
    (p : Policy) (src : Bytes) (max : ℕ)
    → max ≤ max_config_bytes_ceiling
    → read_bounded (source p) (λ n. none) src (pos max) ≡ read_at_once max src
unfolding read_bounded
read_bounded-source p src max h =
    let wide : ltb max_config_bytes_ceiling max ≡ false = ground arith in
    rw wide (read_loop-source p max (max + 2) 0 [] src (omega arith) (omega arith))
