-- ===== src/Config/Read/Faulty.antt =====
-- Reading a source that may fail: the bytes of a file, handed out in pieces of any size, and an error
-- in place of a piece where one is due.
use ax_go.Common.{
  ℕ, zero, suc, ◌+◌, ◌≤◌, Bool, true, false, Option, none, some, [], ◌∷◌, ◌++◌, pos, negsuc, ℤ,
  length, take, drop, take-append-drop, ap, sym, ◌∙◌, ltb, is_empty, Bool-cases, inl, inr, ◌≡◌,
  refl, arith, if◌then◌else◌,
}
use mathlib.Core.List.{append-nil, append_assoc}
use ax_go.Contract.Errors.{GoError}
use ax_go.Config.Read.{
  Bytes, ReadEnd, more, eof, failed, Reply, Reader, complete, source_failed, no_progress, Got, got,
  after_read, one_round, room, read_loop, read_bounded, max_config_bytes_ceiling,
}
use ax_go.Config.Read.Source.{Policy, portion, end_after, reply_of, reply_of-fits}

abbrev pub or_failed : Option GoError → Policy → Bytes → ℕ → Reply Bytes
or_failed none p s wanted = reply_of p s wanted
or_failed (some e) p s wanted = record { bytes = []; end = failed e; next = s }

pub or_failed-fits :
    (fault : Option GoError) (p : Policy) (s : Bytes) (wanted : ℕ)
    → length (or_failed fault p s wanted).bytes ≤ wanted
or_failed-fits none p s wanted = reply_of-fits p s wanted
or_failed-fits (some e) p s wanted = omega arith

-- `fault n` is the error of a call of Read with n bytes left.
abbrev pub faulty : (ℕ → Option GoError) → Policy → Reader
faulty fault p = record {
  State = Bytes;
  read = λ s wanted. or_failed (fault (length s)) p s wanted;
  fits = λ s wanted. or_failed-fits (fault (length s)) p s wanted;
}

-- What a call takes and what it leaves are the bytes before it, and at the end none is left.
record Splits (s : Bytes) (reply : Reply Bytes) : Type 0 where
  whole : reply.bytes ++ reply.next ≡ s
  ended : reply.end ≡ eof → reply.bytes ≡ s

end_after-eof : (early : Bool) (rest : Bytes) → end_after early rest ≡ eof → rest ≡ []
end_after-eof true [] h = refl
end_after-eof true (c ∷ rest) h = absurd cc
end_after-eof false rest h = absurd cc

reply_of-Splits : (p : Policy) (s : Bytes) (wanted : ℕ) → Splits s (reply_of p s wanted)
reply_of-Splits p [] wanted = record { whole = refl; ended = λ h. refl }
reply_of-Splits p (c ∷ s) wanted =
    let n = portion p (c ∷ s) wanted in
    record {
      whole = take-append-drop n (c ∷ s);
      ended = λ h.
          sym (append-nil (take n (c ∷ s)))
          ∙ ap (λ l. take n (c ∷ s) ++ l) (sym (end_after-eof p.early (drop n (c ∷ s)) h))
          ∙ take-append-drop n (c ∷ s);
    }

or_failed-Splits :
    (fault : Option GoError) (p : Policy) (s : Bytes) (wanted : ℕ)
    → Splits s (or_failed fault p s wanted)
or_failed-Splits none p s wanted = reply_of-Splits p s wanted
or_failed-Splits (some e) p s wanted = record { whole = refl; ended = λ h. cc }

-- A read that is complete took this.
abbrev Takes : Bytes → Got → Type 0
Takes src g = g.outcome ≡ complete → g.taken ≡ src

after_read-Takes :
    (src : Bytes) (max : ℕ) (taken : Bytes) (end : ReadEnd) (idle : Bool) (rest : Got)
    → (end ≡ eof → taken ≡ src)
    → (length taken ≤ max → Takes src rest)
    → Takes src (after_read max taken end idle rest)
after_read-Takes src max taken end idle rest ended k = elim (Bool-cases (ltb max (length taken))) [
  | inl big ↦ rw big (λ h. cc)
  | inr small ↦ rw small (go end idle ended (k (ground arith)))
]
  where
    go :
        (end : ReadEnd) (idle : Bool)
        → (end ≡ eof → taken ≡ src)
        → Takes src rest
        → Takes src (elim end [
          | eof ↦ got complete taken
          | failed e ↦ got (source_failed e) taken
          | more ↦ if idle then got no_progress taken else rest
        ])
    go eof idle ended next h = ended refl
    go (failed e) idle ended next h = cc
    go more true ended next h = cc
    go more false ended next h = next h

one_round-Takes :
    (src taken : Bytes) (e : Option GoError) (next : Got)
    → Takes src next
    → Takes src (one_round true e taken next)
one_round-Takes src taken none next k = k
one_round-Takes src taken (some e) next k = λ h. cc

module _ (fault : ℕ → Option GoError) (p : Policy) (ctx_err : ℕ → Option GoError) (max : ℕ) where
  read_loop-Takes :
      (fuel n : ℕ) (taken s : Bytes)
      → length taken ≤ max
      → Takes (taken ++ s) (read_loop (faulty fault p) ctx_err max fuel n taken s)
  unfolding read_loop
  read_loop-Takes zero n taken s le = λ h. cc
  read_loop-Takes (suc fuel) n taken s le =
      let under : ltb (length taken) (max + 1) ≡ true = ground arith in
      let reply = or_failed (fault (length s)) p s (room max taken) in
      let split = or_failed-Splits (fault (length s)) p s (room max taken) in
      let whole : (taken ++ reply.bytes) ++ reply.next ≡ taken ++ s =
        append_assoc taken reply.bytes reply.next ∙ ap (λ l. taken ++ l) split.whole in
      rw under (
        one_round-Takes (taken ++ s) taken (ctx_err n) _ (
          after_read-Takes (taken ++ s) max (taken ++ reply.bytes) reply.end (is_empty reply.bytes)
            _ (λ h. ap (λ l. taken ++ l) (split.ended h))
            (λ small h.
              read_loop-Takes fuel (n + 1) (taken ++ reply.bytes) reply.next small h ∙ whole)))

-- A complete read of a file took all of its bytes, whatever errors might have come up.
pub read_bounded-Takes :
    (fault : ℕ → Option GoError) (p : Policy) (ctx_err : ℕ → Option GoError) (src : Bytes)
    (max_bytes : ℤ)
    → (read_bounded (faulty fault p) ctx_err src max_bytes).outcome ≡ complete
    → (read_bounded (faulty fault p) ctx_err src max_bytes).taken ≡ src
unfolding read_bounded
read_bounded-Takes fault p ctx_err src (negsuc n) h = cc
read_bounded-Takes fault p ctx_err src (pos max) h =
    elim (Bool-cases (ltb max_config_bytes_ceiling max)) [
      | inl wide ↦ let no_read = rw wide at h in cc
      | inr fine ↦
          rw fine
            (read_loop-Takes fault p ctx_err max (max + 2) 0 [] src (omega arith) (rw fine at h))
    ]
