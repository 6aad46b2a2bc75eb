-- ===== src/Protocol/VarInt/RoundTrip.antt =====
-- `encodeVarInt` followed by `readVarInt` and by `ReadFixed`, internal/protocol/packet.go.
use native.Mathlib.Nat.{div-add-mod}
use broker.Prelude.{
  ℕ, zero, suc, ◌+◌, ◌*◌, ◌/◌, ◌%◌, ◌<◌, ◌≡◌, ap, arith, Bytes, [], ◌∷◌, ◌++◌, length, drop,
  append_assoc, some, bit_and, bit_or, get_elem?-drop, and_0x7f, and_0x80, or_0x80, Option-cases,
  Bool-cases, ltb, inl, inr, ◌∙◌, ◌⊎◌,
}
use broker.Protocol.Result.{ok}
use broker.Protocol.Reader.{Reader, next_byte}
use broker.Protocol.VarInt.{
  encode_var_int_loop, encode_var_int, read_var_int_loop, read_var_int, read_fixed,
  remaining_length_loop,
}

-- The lowest digit of `n` and the rest, both times `mult`.
split_digit : (n mult : ℕ) → n * mult ≡ n % 128 * mult + n / 128 * (mult * 128)
split_digit n mult = omega (arith, ap (λ (t : ℕ). t * mult) (div-add-mod n 128))

-- One more digit: the tests that the two readers make of it.
module _ (n : ℕ) (more : 0 < n / 128) where
  digit_value : bit_and (bit_or (n % 128) 0x80) 0x7f ≡ n % 128
  digit_value =
      rw (or_0x80 (n % 128) (omega arith), and_0x7f (n % 128 + 128) (omega arith)) (omega arith)

  digit_continues : bit_and (bit_or (n % 128) 0x80) 0x80 ≡ 128
  digit_continues =
      rw (or_0x80 (n % 128) (omega arith), and_0x80 (n % 128 + 128) (omega arith)) (omega arith)

-- The last digit.
module _ (n : ℕ) where
  last_value : bit_and (n % 128) 0x7f ≡ n % 128
  last_value = rw (and_0x7f (n % 128) (omega arith)) (omega arith)

  last_ends : bit_and (n % 128) 0x80 ≡ 0
  last_ends = rw (and_0x80 (n % 128) (omega arith)) (omega arith)

-- What the writer's loop did: it wrote the last digit, or one with more behind it.
pub encode_cases :
    (room n : ℕ) (bs : Bytes)
    → encode_var_int_loop (suc room) n ≡ some bs
    → ((n / 128 ≡ 0) × (bs ≡ (n % 128) ∷ []))
      ⊎ ((0 < n / 128)
          × ((bs' : Bytes) × (encode_var_int_loop room (n / 128) ≡ some bs')
              × (bs ≡ bit_or (n % 128) 0x80 ∷ bs')))
unfolding encode_var_int_loop
encode_cases room n bs e = elim (Bool-cases (ltb 0 (n / 128))) [
  | inr last ↦ inl (ground arith, ground arith)
  | inl more ↦ elim (Option-cases (encode_var_int_loop room (n / 128))) [
    | inl over ↦ ground arith
    | inr (bs', fits) ↦ inr (ground arith, (bs', fits, ground arith))
  ]
]

last_stream :
    (room n mult val : ℕ) (stream : Bytes)
    → remaining_length_loop (suc room) mult val ((n % 128) ∷ stream)
      ≡ ok (val + n % 128 * mult, stream)
unfolding remaining_length_loop
last_stream room n mult val stream = rw (last_value n, last_ends n)

inner_stream :
    (room n mult val : ℕ) (stream : Bytes)
    → 0 < n / 128
    → remaining_length_loop (suc (suc room)) mult val (bit_or (n % 128) 0x80 ∷ stream)
      ≡ remaining_length_loop (suc room) (mult * 128) (val + n % 128 * mult) stream
unfolding remaining_length_loop
inner_stream room n mult val stream more =
    ground (arith, digit_value n more, digit_continues n more)

last_digit : (n mult : ℕ) → n / 128 ≡ 0 → n % 128 * mult ≡ n * mult
last_digit n mult e = omega (arith, split_digit n mult, ap (λ (t : ℕ). t * (mult * 128)) e)

-- `ReadFixed` reads back the remaining length that `encodeVarInt` wrote.
pub remaining_length_loop-encode :
    (room n mult val : ℕ) (bs stream : Bytes)
    → encode_var_int_loop room n ≡ some bs
    → remaining_length_loop room mult val (bs ++ stream) ≡ ok (val + n * mult, stream)
remaining_length_loop-encode zero n mult val bs stream e = unfold encode_var_int_loop in cc
remaining_length_loop-encode (suc zero) n mult val bs stream e = elim (encode_cases 0 n bs e) [
  | inl (small, shape) ↦ rw (shape, last_stream, last_digit n mult small)
  | inr (more, (bs', over, shape)) ↦ unfold encode_var_int_loop in cc
]
remaining_length_loop-encode (suc (suc room)) n mult val bs stream e =
    elim (encode_cases (suc room) n bs e) [
      | inl (small, shape) ↦ rw (shape, last_stream, last_digit n mult small)
      | inr (more, (bs', fits, shape)) ↦
          rw (shape, inner_stream room n mult val (bs' ++ stream) more)
            (remaining_length_loop-encode (suc room) (n / 128) (mult * 128) (val + n % 128 * mult)
                bs' stream fits
              ∙ ap (λ (t : ℕ). ok (t, stream)) (omega (arith, split_digit n mult)))
    ]

abbrev pub at : Bytes → ℕ → Reader
at d p = record { data_bytes = d; pos = p }

next_byte-drop :
    (d : Bytes) (p b : ℕ) (bs : Bytes)
    → drop p d ≡ b ∷ bs
    → next_byte (at d p) ≡ ok (b, at d (p + 1))
unfolding next_byte
next_byte-drop d p b bs h = rw ((get_elem?-drop p d b bs h).0)

last_reader :
    (room n mult val p : ℕ) (d rest : Bytes)
    → drop p d ≡ (n % 128) ∷ rest
    → read_var_int_loop (suc room) mult val (at d p) ≡ ok (val + n % 128 * mult, at d (p + 1))
unfolding read_var_int_loop
last_reader room n mult val p d rest h = ground (
  arith,
  next_byte-drop d p (n % 128) rest h,
  get_elem?-drop p d (n % 128) rest h,
  last_value n,
  last_ends n,
)

inner_reader :
    (room n mult val p : ℕ) (d rest : Bytes)
    → 0 < n / 128
    → drop p d ≡ bit_or (n % 128) 0x80 ∷ rest
    → read_var_int_loop (suc room) mult val (at d p)
      ≡ read_var_int_loop room (mult * 128) (val + n % 128 * mult) (at d (p + 1))
unfolding read_var_int_loop
inner_reader room n mult val p d rest more h = ground (
  arith,
  next_byte-drop d p (bit_or (n % 128) 0x80) rest h,
  get_elem?-drop p d (bit_or (n % 128) 0x80) rest h,
  digit_value n more,
  digit_continues n more,
)

-- `readVarInt` reads back the number that `encodeVarInt` wrote, and stops behind it.
pub read_var_int_loop-encode :
    (room n mult val p : ℕ) (bs rest d : Bytes)
    → encode_var_int_loop room n ≡ some bs
    → drop p d ≡ bs ++ rest
    → (read_var_int_loop room mult val (at d p) ≡ ok (val + n * mult, at d (p + length bs)))
      × (drop (p + length bs) d ≡ rest)
read_var_int_loop-encode zero n mult val p bs rest d e h = unfold encode_var_int_loop in cc
read_var_int_loop-encode (suc room) n mult val p bs rest d e h = elim (encode_cases room n bs e) [
  | inl (small, shape) ↦
      let seen : drop p d ≡ (n % 128) ∷ rest = rw shape at h in
      rw shape (
        last_reader room n mult val p d rest seen ∙ rw (last_digit n mult small),
        (get_elem?-drop p d (n % 128) rest seen).1,
      )
  | inr (more, (bs', fits, shape)) ↦
      let seen : drop p d ≡ bit_or (n % 128) 0x80 ∷ (bs' ++ rest) = rw shape at h in
      let (value, behind) =
        read_var_int_loop-encode room (n / 128) (mult * 128) (val + n % 128 * mult) (p + 1) bs' rest
          d fits ((get_elem?-drop p d (bit_or (n % 128) 0x80) (bs' ++ rest) seen).1) in
      let moved : p + 1 + length bs' ≡ p + suc (length bs') = omega arith in
      rw shape (
        inner_reader room n mult val p d (bs' ++ rest) more seen
            ∙ value
            ∙ ap (λ (t : ℕ). ok (t, at d (p + 1 + length bs'))) (omega (arith, split_digit n mult))
            ∙ ap (λ (t : ℕ). ok (val + n * mult, at d t)) moved,
        rw moved at behind,
      )
]

-- If `encodeVarInt` writes a number and its bytes stand in a body at the reader, `readVarInt`
-- returns that number and stops directly behind these bytes.
pub read_var_int-encode_var_int :
    (n p : ℕ) (bs rest d : Bytes)
    → encode_var_int n ≡ some bs
    → drop p d ≡ bs ++ rest
    → (read_var_int (at d p) ≡ ok (n, at d (p + length bs))) × (drop (p + length bs) d ≡ rest)
unfolding encode_var_int read_var_int
read_var_int-encode_var_int n p bs rest d e h =
    let (value, behind) = read_var_int_loop-encode 4 n 1 0 p bs rest d e h in
    (value ∙ ap (λ (t : ℕ). ok (t, at d (p + length bs))) (omega arith), behind)

-- `ReadFixed` on a first byte, the encoded length of a body, the body and any further bytes: it
-- returns the packet type and the flags of the first byte and the length of the body, and leaves
-- the body and the further bytes on the stream.
pub read_fixed-frame :
    (b : ℕ) (var body rest : Bytes)
    → encode_var_int (length body) ≡ some var
    → read_fixed ((b ∷ (var ++ body)) ++ rest)
      ≡ ok (
        record { packet_type = b / 16; flags = bit_and b 0x0f; remaining_length = length body },
        body ++ rest,
      )
unfolding encode_var_int read_fixed
read_fixed-frame b var body rest e =
    let value = remaining_length_loop-encode 4 (length body) 1 0 var (body ++ rest) e in
    let size : 0 + length body * 1 ≡ length body = omega arith in
    rw (append_assoc var body rest, value, size)
