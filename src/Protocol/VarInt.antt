-- ===== src/Protocol/VarInt.antt =====
-- `encodeVarInt`, `readVarInt`, `skipProps` and `ReadFixed` of internal/protocol/packet.go.
pub mod Bounds
pub mod RoundTrip
use mathlib.Core.Option
use broker.Prelude.{
  ℕ, zero, suc, ◌+◌, ◌*◌, ◌/◌, ◌%◌, ◌==◌, ltb, if◌then◌else◌, bit_and, bit_or, Bytes, codes, List,
  [], ◌∷◌, Bool, true, false, Option, none, some, length,
}
use broker.Protocol.Result.{
  Result, ok, err, ◌>>=◌, ◌>>◌, fail_if, with_context, eof, malformed, invalid_var_int, wrapped,
}
use broker.Protocol.Reader.{Reader, advance, read, remaining_lt, next_byte}

-- The loop of `encodeVarInt`, with `room` slots of `dst` left. `none` is a panic: every caller's
-- array has four slots, and a fifth digit is written out of range.
unfoldable pub encode_var_int_loop : ℕ → ℕ → Option Bytes
encode_var_int_loop zero n = none
encode_var_int_loop (suc room) n =
    let rest = encode_var_int_loop room (n / 128) in
    let digit = if ltb 0 (n / 128) then bit_or (n % 128) 0x80 else n % 128 in
    if n / 128 == 0 then some (digit ∷ []) else Option.map (◌∷◌ digit) rest

-- `encodeVarInt(dst[:], n)` on a four-byte array: the bytes written.
unfoldable pub encode_var_int : ℕ → Option Bytes
unfolding encode_var_int_loop
encode_var_int n = encode_var_int_loop 4 n

-- The loop of `readVarInt`, with the rounds that are left.
unfoldable pub read_var_int_loop : ℕ → ℕ → ℕ → Reader → Result (ℕ × Reader)
read_var_int_loop zero mult val r = err invalid_var_int
read_var_int_loop (suc rounds) mult val r = elim (remaining_lt r 1) [
  | true ↦ err malformed
  | false ↦ do
    (digit, r') ← next_byte r
    let val' = val + bit_and digit 0x7f * mult
    let more = read_var_int_loop rounds (mult * 128) val' r'
    if bit_and digit 0x80 == 0 then ok (val', r') else more
]

unfoldable pub read_var_int : Reader → Result (ℕ × Reader)
unfolding read_var_int_loop
read_var_int r = read_var_int_loop 4 1 0 r

-- `buf[0]` after `r.Read(buf)` on a one-byte buffer
abbrev pub buf0 : Bytes → ℕ
buf0 [] = 0
buf0 (b ∷ bs) = b

-- The loop of `skipProps`. After four rounds it ends with no error.
unfoldable pub skip_len_loop : ℕ → ℕ → ℕ → Reader → Result (ℕ × Reader)
skip_len_loop zero mult prop_len r = ok (prop_len, r)
skip_len_loop (suc rounds) mult prop_len r = do
  (buf, r') ← read 1 r
  let prop_len' = prop_len + bit_and (buf0 buf) 0x7f * mult
  let more = skip_len_loop rounds (mult * 128) prop_len' r'
  if bit_and (buf0 buf) 0x80 == 0 then ok (prop_len', r') else more

-- The block behind the length; `r.pos` passes the end before the test.
unfoldable pub skip_block : ℕ → Reader → Result Reader
skip_block prop_len r = if prop_len == 0 then ok r else do
  fail_if (ltb (length r.data_bytes) (r.pos + prop_len)) malformed
  ok (advance prop_len r)

unfoldable pub skip_props : Reader → Result Reader
unfolding skip_block skip_len_loop
skip_props r = do (prop_len, r') ← skip_len_loop 4 1 0 r; skip_block prop_len r'

pub record FixedHeader : Type 0 where
  pub packet_type : ℕ
  pub flags : ℕ
  pub remaining_length : ℕ

-- The loop of `ReadFixed` over the stream that is left, with the rounds that are left. The only
-- read error of the model is the end of the stream.
unfoldable pub remaining_length_loop : ℕ → ℕ → ℕ → Bytes → Result (ℕ × Bytes)
remaining_length_loop zero mult val stream = ok (val, stream)
remaining_length_loop (suc rounds) mult val [] = err (wrapped (codes "remaining length") eof)
remaining_length_loop (suc rounds) mult val (digit ∷ stream) =
    let val' = val + bit_and digit 0x7f * mult in
    let more = remaining_length_loop rounds (mult * 128) val' stream in
    if bit_and digit 0x80 == 0
    then ok (val', stream)
    else if rounds == 0
    then err invalid_var_int
    else more

-- The header, and the stream behind it.
unfoldable pub read_fixed : Bytes → Result (FixedHeader × Bytes)
unfolding remaining_length_loop
read_fixed [] = err eof
read_fixed (b1 ∷ stream) = do
  (val, rest) ← remaining_length_loop 4 1 0 stream
  ok (record { packet_type = b1 / 16; flags = bit_and b1 0x0f; remaining_length = val }, rest)
