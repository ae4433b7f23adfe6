-- ===== src/Config/Read.antt =====
-- `ReadBounded`. A source is an io.Reader: from a state and the length of the buffer, the bytes that
-- it puts there, how the call ended, and the next state.
pub mod Bounds
pub mod Source
pub mod Faulty
use ax_go.Common.{
  ℕ, zero, suc, ◌+◌, ◌-◌, ◌≤◌, ◌<◌, ◌^◌, min, Bool, true, false, ◌||◌, Option, none, some, List, [],
  ◌∷◌, ◌++◌, ℤ, pos, negsuc, length, is_empty, ltb, leb, if◌then◌else◌,
}
use ax_go.Contract.Errors.{GoError}

abbrev pub Bytes : Type 0
Bytes = List ℕ

abbrev pub max_config_bytes_ceiling : ℕ
max_config_bytes_ceiling = 2 ^ 30

abbrev pub read_chunk_size : ℕ
read_chunk_size = 32768

-- The error that a call of Read returns beside its bytes.
pub data ReadEnd : Type 0 where
  more : ReadEnd
  eof : ReadEnd
  failed : GoError → ReadEnd

pub record Reply (S : Type 0) : Type 0 where
  pub bytes : Bytes
  pub end : ReadEnd
  pub next : S

-- io.Reader promises at most as many bytes as the buffer has room for.
pub record Reader : Type 1 where
  pub State : Type 0
  pub read : State → ℕ → Reply State
  pub fits : (s : State) (room : ℕ) → length (read s room).bytes ≤ room

-- What the caller gets; `out_of_fuel` is no result of the code.
pub data Outcome : Type 0 where
  complete : Outcome
  invalid_max_bytes : ℤ → Outcome
  too_large : ℕ → Outcome
  interrupted : GoError → Outcome
  source_failed : GoError → Outcome
  no_progress : Outcome
  out_of_fuel : Outcome

-- The outcome, and the bytes taken from the source: on `complete` they are what is returned.
pub record Got : Type 0 where
  pub outcome : Outcome
  pub taken : Bytes

abbrev pub got : Outcome → Bytes → Got
got outcome taken = record { outcome = outcome; taken = taken }

-- After a call of Read: the size first, then its end, then progress.
abbrev pub after_read : ℕ → Bytes → ReadEnd → Bool → Got → Got
after_read max taken end idle rest =
    if ltb max (length taken) then got (too_large max) taken else elim end [
      | eof ↦ got complete taken
      | failed e ↦ got (source_failed e) taken
      | more ↦ if idle then got no_progress taken else rest
    ]

-- One round: the test of the loop, the context, and the call of Read with what follows it.
abbrev pub one_round : Bool → Option GoError → Bytes → Got → Got
one_round true none taken next = next
one_round true (some e) taken next = got (interrupted e) taken
one_round false ctx_err taken next = got complete taken

-- The length of the buffer for a call, `maxBytes + 1` being the limit.
abbrev pub room : ℕ → Bytes → ℕ
room max taken = min read_chunk_size (max + 1 - length taken)

module _ (r : Reader) (ctx_err : ℕ → Option GoError) (max : ℕ) where
  -- `ctx_err n` is ctx.Err() before the n-th call of Read.
  unfoldable pub read_loop : ℕ → ℕ → Bytes → r.State → Got
  read_loop zero n taken s = got out_of_fuel taken
  read_loop (suc fuel) n taken s =
      let reply = r.read s (room max taken) in
      let taken' = taken ++ reply.bytes in
      let rest = read_loop fuel (n + 1) taken' reply.next in
      let next = after_read max taken' reply.end (is_empty reply.bytes) rest in
      one_round (ltb (length taken) (max + 1)) (ctx_err n) taken next

-- The fuel is one more than the limit: each round but the last takes a byte.
unfoldable pub read_bounded : (r : Reader) → (ℕ → Option GoError) → r.State → ℤ → Got
unfolding read_loop
read_bounded r ctx_err s (negsuc n) = got (invalid_max_bytes (negsuc n)) []
read_bounded r ctx_err s (pos max) =
    let result = read_loop r ctx_err max (max + 2) 0 [] s in
    if ltb max_config_bytes_ceiling max then got (invalid_max_bytes (pos max)) [] else result
