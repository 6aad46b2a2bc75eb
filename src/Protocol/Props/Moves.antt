-- ===== src/Protocol/Props/Moves.antt =====
-- The results of `readProps` and `readConnectProps`, internal/protocol/packet.go.
use broker.Prelude.{
  ℕ, zero, suc, ◌+◌, ◌<◌, ltb, ◌≡◌, arith, Option, Bool-cases, ltb→lt, ◌∙◌, [], Option-cases, inl,
  inr,
}
use broker.Protocol.Result.{Returns, Returns-bind, Returns-mono}
use broker.Protocol.Reader.{Reader, remaining_lt, next_byte, next_bytes}
use broker.Protocol.Reader.Moves.{MovesBy, next_byte-Moves, next_bytes-Moves, read_var_int-Moves}
use broker.Protocol.VarInt.{read_var_int}
use broker.Protocol.Props.{
  Props, take_value, props_loop, read_props_by, read_props, read_connect_props, prop_width,
  connect_prop_width,
}

take_value-Moves :
    (id w : ℕ) (r : Reader) (props : Props) → Returns (MovesBy w r) (take_value id w r props)
unfolding take_value
take_value-Moves id w r props = elim (Bool-cases (remaining_lt r w)) [
  | inl short ↦ rw short tt
  | inr fits ↦ rw fits (
      Returns-bind (MovesBy w r) (MovesBy w r) (next_bytes w r) _ (next_bytes-Moves w r fits)
        (λ p m. m))
]

-- The same bytes, which is all that the callers need.
abbrev pub Same : Reader → Props × Reader → Type 0
Same r p = p.1.data_bytes ≡ r.data_bytes

-- Every round takes a byte at least, so that `fuel` rounds beyond the position are enough.
props_loop-Returns :
    (width : ℕ → Option ℕ) (fuel start prop_len : ℕ) (r : Reader) (props : Props)
    → 0 < fuel
    → start + prop_len < r.pos + fuel
    → Returns (Same r) (props_loop width fuel start prop_len r props)
unfolding props_loop
props_loop-Returns width zero start prop_len r props pos h = absurd (omega arith)
props_loop-Returns width (suc fuel) start prop_len r props pos h =
    elim (Bool-cases (ltb r.pos (start + prop_len))) [
      | inr done ↦ rw (done, props_loop) (λ i. r.data_bytes)
      | inl more ↦ elim (Bool-cases (remaining_lt r 1)) [
        | inl short ↦ rw (more, props_loop, short) tt
        | inr byte ↦
            rw (more, props_loop, byte)
              (Returns-bind (MovesBy 1 r) (Same r) (next_byte r) _ (next_byte-Moves r byte)
                λ (id, r') m. elim (Option-cases (width id)) [
                  | inl unknown ↦ rw unknown (m.same)
                  | inr (w, known) ↦ rw known (
                      Returns-bind (MovesBy w r') (Same r) (take_value id w r' props) _
                        (take_value-Moves id w r' props)
                        λ (props', r'') m'.
                          Returns-mono (Same r'') (Same r) _
                            (props_loop-Returns width fuel start prop_len r'' props'
                              (omega (arith, ltb→lt _ _ more)) (omega (arith, m.moved, m'.moved)))
                            (λ p same. same ∙ m'.same ∙ m.same))
                ])
      ]
    ]

module _ (width : ℕ → Option ℕ) where
  read_props_by-Returns : (r : Reader) → Returns (Same r) (read_props_by width r)
  read_props_by-Returns r =
      Returns-bind (MovesBy 0 r) (Same r) (read_var_int r) _ (read_var_int-Moves r)
        λ (prop_len, r') m.
          Returns-mono (Same r') (Same r) _
            (props_loop-Returns width (suc prop_len) r'.pos prop_len r' [] (omega arith)
              (omega arith))
            (λ p same. same ∙ m.same)

-- On every reader, also one whose property length overruns the body, `readProps` returns without a
-- panic, the announced length plus one is fuel enough for its loop, and the reader's bytes stay
-- the same.
pub read_props-Returns : (r : Reader) → Returns (Same r) (read_props r)
unfolding read_props
read_props-Returns r = unfold prop_width in read_props_by-Returns prop_width r

-- On every reader, also one whose property length overruns the body, `readConnectProps` returns
-- without a panic, the announced length plus one is fuel enough for its loop, and the reader's
-- bytes stay the same.
pub read_connect_props-Returns : (r : Reader) → Returns (Same r) (read_connect_props r)
unfolding read_connect_props
read_connect_props-Returns r = read_props_by-Returns connect_prop_width r
