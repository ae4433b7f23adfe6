-- ===== src/Config/Read/Bounds.antt =====
-- How much is read, that the loop ends, and what the outcome says of the size.
use ax_go.Common.{
  ℕ, zero, suc, ◌+◌, ◌≤◌, ◌<◌, Bool, true, false, Option, none, some, [], ◌∷◌, ◌++◌, pos, length,
  length-append, is_empty, ltb, ltb→lt, Bool-cases, inl, inr, ◌≡◌, ◌≢◌, refl, arith, if◌then◌else◌,
}
use ax_go.Contract.Errors.{GoError}
use ax_go.Config.Read.{
  Bytes, ReadEnd, more, eof, failed, Reader, Outcome, complete, too_large, interrupted,
  source_failed, no_progress, out_of_fuel, Got, got, after_read, one_round, room, read_loop,
  read_bounded, max_config_bytes_ceiling,
}

-- At most one byte over the limit is taken, a complete read is within the limit, an oversized one
-- is over it, and the loop never runs out of fuel.
pub record IsBounded (max : ℕ) (g : Got) : Type 0 where
  pub taken_le : length g.taken ≤ max + 1
  pub complete_le : g.outcome ≡ complete → length g.taken ≤ max
  pub oversize :
      (limit : ℕ) → g.outcome ≡ too_large limit → (limit ≡ max) × (length g.taken ≡ max + 1)
  pub fueled : g.outcome ≢ out_of_fuel

within-IsBounded :
    (max : ℕ) (o : Outcome) (taken : Bytes)
    → length taken ≤ max
    → o ≢ out_of_fuel
    → ((limit : ℕ) → o ≢ too_large limit)
    → IsBounded max (got o taken)
within-IsBounded max o taken le fueled small = record {
  taken_le = omega arith;
  complete_le = λ q. le;
  oversize = λ limit q. absurd (small limit q);
  fueled = fueled;
}

over-IsBounded :
    (max : ℕ) (taken : Bytes)
    → max < length taken
    → length taken ≤ max + 1
    → IsBounded max (got (too_large max) taken)
over-IsBounded max taken lt le = record {
  taken_le = le;
  complete_le = λ q. absurd (ground arith);
  oversize = λ limit q. (ground arith, omega arith);
  fueled = λ q. ground arith;
}

ended-IsBounded :
    (max : ℕ) (taken : Bytes) (end : ReadEnd) (idle : Bool) (rest : Got)
    → length taken ≤ max
    → (idle ≡ false → IsBounded max rest)
    → IsBounded max (elim end [
      | eof ↦ got complete taken
      | failed e ↦ got (source_failed e) taken
      | more ↦ if idle then got no_progress taken else rest
    ])
ended-IsBounded max taken eof idle rest le k =
    within-IsBounded max complete taken le (λ q. ground arith) (λ l q. ground arith)
ended-IsBounded max taken (failed e) idle rest le k =
    within-IsBounded max (source_failed e) taken le (λ q. ground arith) (λ l q. ground arith)
ended-IsBounded max taken more true rest le k =
    within-IsBounded max no_progress taken le (λ q. ground arith) (λ l q. ground arith)
ended-IsBounded max taken more false rest le k = k refl

after_read-IsBounded :
    (max : ℕ) (taken : Bytes) (end : ReadEnd) (idle : Bool) (rest : Got)
    → length taken ≤ max + 1
    → (length taken ≤ max → idle ≡ false → IsBounded max rest)
    → IsBounded max (after_read max taken end idle rest)
after_read-IsBounded max taken end idle rest le k = elim (Bool-cases (ltb max (length taken))) [
  | inl big ↦ rw big (over-IsBounded max taken (ltb→lt _ _ big) le)
  | inr small ↦ rw small (ended-IsBounded max taken end idle rest (ground arith) (k (ground arith)))
]

length-pos : (bytes : Bytes) → is_empty bytes ≡ false → 0 < length bytes
length-pos [] h = ground arith
length-pos (b ∷ bytes) h = omega arith

one_round-IsBounded :
    (max : ℕ) (b : Bool) (ctx_err : Option GoError) (taken : Bytes) (next : Got)
    → length taken ≤ max
    → IsBounded max next
    → IsBounded max (one_round b ctx_err taken next)
one_round-IsBounded max true none taken next le h = h
one_round-IsBounded max true (some e) taken next le h =
    within-IsBounded max (interrupted e) taken le (λ q. ground arith) (λ l q. ground arith)
one_round-IsBounded max false ctx_err taken next le h =
    within-IsBounded max complete taken le (λ q. ground arith) (λ l q. ground arith)

module _ (r : Reader) (ctx_err : ℕ → Option GoError) (max : ℕ) where
  read_loop-IsBounded :
      (fuel n : ℕ) (taken : Bytes) (s : r.State)
      → length taken ≤ max
      → max + 1 < fuel + length taken
      → IsBounded max (read_loop r ctx_err max fuel n taken s)
  unfolding read_loop
  read_loop-IsBounded zero n taken s le enough = absurd (omega arith)
  read_loop-IsBounded (suc fuel) n taken s le enough =
      let reply = r.read s (room max taken) in
      let grown = length-append taken reply.bytes in
      one_round-IsBounded max _ (ctx_err n) taken _ le (
        after_read-IsBounded max (taken ++ reply.bytes) reply.end (is_empty reply.bytes) _
          (omega (arith, grown, r.fits s (room max taken)))
          (λ small busy.
            read_loop-IsBounded fuel (n + 1) (taken ++ reply.bytes) reply.next small
              (omega (arith, grown, length-pos reply.bytes busy))))

-- With a limit that is not over the ceiling, whatever the source and the context do: at most
-- `maxBytes + 1` bytes are taken, a complete read has at most `maxBytes`, an oversize error means
-- that exactly one byte more was there, and the loop ends within its fuel.
pub read_bounded-IsBounded :
    (r : Reader) (ctx_err : ℕ → Option GoError) (s : r.State) (max : ℕ)
    → max ≤ max_config_bytes_ceiling
    → IsBounded max (read_bounded r ctx_err s (pos max))
unfolding read_bounded
read_bounded-IsBounded r ctx_err s max h =
    let wide : ltb max_config_bytes_ceiling max ≡ false = ground arith in
    rw wide (read_loop-IsBounded r ctx_err max (max + 2) 0 [] s (omega arith) (omega arith))
