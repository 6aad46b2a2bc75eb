-- ===== src/Protocol/Props.antt =====
-- The MQTT v5 property blocks: `readProps` and `readConnectProps` of internal/protocol/packet.go.
-- The two loops differ in their `switch` alone, which is the argument `width`.
pub mod Moves
use broker.Prelude.{
  ℕ, zero, suc, ◌+◌, ◌==◌, ltb, if◌then◌else◌, Bytes, List, [], true, false, Option, none, some,
  nat_eq,
}
use broker.Prelude.Maps.{insert}
use broker.Protocol.Result.{Result, ok, hang, ◌>>=◌, ◌>>◌, fail_if, malformed}
use broker.Protocol.Reader.{Reader, remaining_lt, next_byte, next_bytes}
use broker.Protocol.VarInt.{read_var_int}

abbrev pub Props : Type 0
Props = List (ℕ × Bytes)

-- The cases of `readProps`; `none` is the `default`.
unfoldable pub prop_width : ℕ → Option ℕ
prop_width id =
    if id == 0x02
    then some 4
    else if id == 0x23
    then some 2
    else if id == 0x11
    then some 4
    else none

-- The cases of `readConnectProps`.
unfoldable pub connect_prop_width : ℕ → Option ℕ
connect_prop_width id =
    if id == 0x11
    then some 4
    else if id == 0x21
    then some 2
    else if id == 0x22
    then some 2
    else if id == 0x27
    then some 4
    else none

-- One case of the `switch` that stores a value.
unfoldable pub take_value : ℕ → ℕ → Reader → Props → Result (Props × Reader)
take_value id w r props = do
  fail_if (remaining_lt r w) malformed
  (v, r') ← next_bytes w r
  ok (insert id v props, r')

-- `for r.pos-start < propLen`. Each round moves on by three bytes at least, so `propLen` rounds and
-- one for the last test are enough.
unfoldable pub props_loop : (ℕ → Option ℕ) → ℕ → ℕ → ℕ → Reader → Props → Result (Props × Reader)
props_loop width zero start prop_len r props = hang
props_loop width (suc fuel) start prop_len r props = elim (ltb r.pos (start + prop_len)) [
  | false ↦ ok (props, r)
  | true ↦ do
    fail_if (remaining_lt r 1) malformed
    (id, r') ← next_byte r
    elim (width id) [
      | none ↦ ok (props, record r' { pos = start + prop_len })
      | some w ↦ do
        (props', r'') ← take_value id w r' props
        props_loop width fuel start prop_len r'' props'
    ]
]

abbrev pub read_props_by : (ℕ → Option ℕ) → Reader → Result (Props × Reader)
read_props_by width r = do
  (prop_len, r') ← read_var_int r
  props_loop width (suc prop_len) r'.pos prop_len r' []

unfoldable pub read_props : Reader → Result (Props × Reader)
unfolding props_loop take_value prop_width
read_props r = read_props_by prop_width r

unfoldable pub read_connect_props : Reader → Result (Props × Reader)
unfolding props_loop take_value connect_prop_width
read_connect_props r = read_props_by connect_prop_width r
