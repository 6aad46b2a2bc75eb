-- ===== src/Protocol/Reader/Moves.antt =====
-- How far the reads of `sliceReader`, internal/protocol/packet.go, move the position.
use broker.Prelude.{
  ℕ, zero, suc, ◌+◌, ◌*◌, ◌≤◌, ◌==◌, ◌≡◌, arith, Bytes, length, get_elem?-lt, bit_and, false,
  Bool-cases, inl, inr,
}
use broker.Protocol.Result.{Returns, Returns-bind, Returns-mono}
use broker.Protocol.Reader.{
  Reader, read, io_read_full, remaining_lt, next_byte, next_bytes, read_string, read_uint16, be16,
}
use broker.Protocol.VarInt.{
  read_var_int_loop, read_var_int, skip_len_loop, skip_block, skip_props, buf0,
}

-- From `r` to `r'` over the same bytes, by `k` at least.
pub record Moves (k : ℕ) (r r' : Reader) : Type 0 where
  pub same : r'.data_bytes ≡ r.data_bytes
  pub moved : r.pos + k ≤ r'.pos

abbrev pub MovesBy {ℓ} : {A : Type ℓ} → ℕ → Reader → A × Reader → Type 0
MovesBy k r p = Moves k r p.1

pub Moves-refl : (r : Reader) → Moves 0 r r
Moves-refl r = ground arith

pub Moves-trans : (j k : ℕ) {r s t : Reader} → Moves j r s → Moves k s t → Moves (j + k) r t
Moves-trans j k h h' = ground arith

pub Moves-le : {j : ℕ} (k : ℕ) {r s : Reader} → Moves j r s → k ≤ j → Moves k r s
Moves-le k h le = ground arith

pub read-Moves : (n : ℕ) (r : Reader) → Returns (MovesBy 0 r) (read n r)
unfolding read
read-Moves n r = ground arith

pub io_read_full-Moves :
    (n : ℕ) (r : Reader)
    → Returns (λ (p : Bytes × Reader). Moves n r p.1 × (length p.0 ≡ n)) (io_read_full n r)
unfolding io_read_full
io_read_full-Moves n r = ground arith

pub io_read_full-MovesBy : (n : ℕ) (r : Reader) → Returns (MovesBy n r) (io_read_full n r)
unfolding io_read_full
io_read_full-MovesBy n r = ground arith

pub read_string-Moves : (r : Reader) → Returns (MovesBy 2 r) (read_string r)
unfolding read_string
read_string-Moves r =
    Returns-bind (MovesBy 2 r) (MovesBy 2 r) (io_read_full 2 r) _ (io_read_full-MovesBy 2 r)
      λ (buf, r') m. elim (Bool-cases (be16 buf == 0)) [
        | inl empty ↦ rw empty m
        | inr more ↦ rw more (
            Returns-mono (MovesBy (be16 buf) r') (MovesBy 2 r) (io_read_full (be16 buf) r')
              (io_read_full-MovesBy (be16 buf) r') (λ p m'. ground arith))
      ]

pub read_uint16-Moves : (r : Reader) → Returns (MovesBy 2 r) (read_uint16 r)
unfolding read_uint16
read_uint16-Moves r = ground (arith, io_read_full-MovesBy 2 r)

pub next_byte-Moves : (r : Reader) → remaining_lt r 1 ≡ false → Returns (MovesBy 1 r) (next_byte r)
unfolding next_byte
next_byte-Moves r h = ground (arith, get_elem?-lt r.data_bytes r.pos)

pub next_bytes-Moves :
    (n : ℕ) (r : Reader) → remaining_lt r n ≡ false → Returns (MovesBy n r) (next_bytes n r)
unfolding next_bytes
next_bytes-Moves n r h = ground arith

pub read_var_int_loop-Moves :
    (rounds mult val : ℕ) (r : Reader) → Returns (MovesBy 0 r) (read_var_int_loop rounds mult val r)
unfolding read_var_int_loop
read_var_int_loop-Moves zero mult val r = tt
read_var_int_loop-Moves (suc rounds) mult val r = elim (Bool-cases (remaining_lt r 1)) [
  | inl short ↦ rw (short, read_var_int_loop) tt
  | inr more ↦
      rw (more, read_var_int_loop)
        (Returns-bind (MovesBy 1 r) (MovesBy 0 r) (next_byte r) _ (next_byte-Moves r more)
          λ (digit, r') m.
            let rest =
              Returns-mono (MovesBy 0 r') (MovesBy 0 r) _
                (read_var_int_loop-Moves rounds (mult * 128) (val + bit_and digit 0x7f * mult) r')
                (λ p m'. ground arith) in
            elim (Bool-cases (bit_and digit 0x80 == 0)) [
              | inl last ↦ rw last (ground arith)
              | inr inner ↦ rw inner rest
            ])
]

pub read_var_int-Moves : (r : Reader) → Returns (MovesBy 0 r) (read_var_int r)
unfolding read_var_int
read_var_int-Moves r = read_var_int_loop-Moves 4 1 0 r

skip_len_loop-Moves :
    (rounds mult val : ℕ) (r : Reader) → Returns (MovesBy 0 r) (skip_len_loop rounds mult val r)
unfolding skip_len_loop
skip_len_loop-Moves zero mult val r = Moves-refl r
skip_len_loop-Moves (suc rounds) mult val r =
    Returns-bind (MovesBy 0 r) (MovesBy 0 r) (read 1 r) _ (read-Moves 1 r) λ (buf, r') m.
      let rest =
        Returns-mono (MovesBy 0 r') (MovesBy 0 r) _
          (skip_len_loop-Moves rounds (mult * 128) (val + bit_and (buf0 buf) 0x7f * mult) r')
          (λ p m'. ground arith) in
      elim (Bool-cases (bit_and (buf0 buf) 0x80 == 0)) [
        | inl last ↦ rw last m
        | inr inner ↦ rw inner rest
      ]

skip_block-Moves : (n : ℕ) (r : Reader) → Returns (Moves 0 r) (skip_block n r)
unfolding skip_block
skip_block-Moves n r = ground arith

pub skip_props-Moves : (r : Reader) → Returns (Moves 0 r) (skip_props r)
unfolding skip_props
skip_props-Moves r =
    Returns-bind (MovesBy 0 r) (Moves 0 r) (skip_len_loop 4 1 0 r) _ (skip_len_loop-Moves 4 1 0 r)
      λ (n, r') m.
        Returns-mono (Moves 0 r') (Moves 0 r) (skip_block n r') (skip_block-Moves n r')
          (λ r'' m'. Moves-trans 0 0 m m')
