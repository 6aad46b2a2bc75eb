-- ===== src/Protocol/VarInt/Bounds.antt =====
-- Which numbers `encodeVarInt` can write into its four bytes, and what it writes.
use native.Mathlib.Nat.{pow-suc}
use broker.Prelude.{
  ℕ, zero, suc, ◌*◌, ◌/◌, ◌%◌, ◌^◌, ◌<◌, ◌≤◌, ◌≡◌, arith, ◌↔◌, Bytes, [], ◌∷◌, Bool-cases, ltb,
  ltb→lt, length, none, some, bit_or, or_0x80, Option-cases, inl, inr, All,
}
use broker.Protocol.VarInt.{encode_var_int_loop, encode_var_int}

abbrev pub IsByte : ℕ → Type 0
IsByte b = b < 256

encode_var_int_loop-fits :
    (room n : ℕ) → n < 128 ^ suc room → (bs : Bytes) × (encode_var_int_loop (suc room) n ≡ some bs)
unfolding encode_var_int_loop
encode_var_int_loop-fits zero n h = ((n % 128) ∷ [], ground arith)
encode_var_int_loop-fits (suc room) n h =
    let bound : n < 128 ^ suc room * 128 = rw pow-suc at h in
    let (bs, fits) = encode_var_int_loop-fits room (n / 128) (omega arith) in
    elim (Bool-cases (ltb 0 (n / 128))) [
      | inl more ↦ (bit_or (n % 128) 0x80 ∷ bs, ground (arith, fits))
      | inr last ↦ ((n % 128) ∷ [], ground arith)
    ]

encode_var_int_loop-over : (room n : ℕ) → 128 ^ room ≤ n → encode_var_int_loop room n ≡ none
unfolding encode_var_int_loop
encode_var_int_loop-over zero n h = ground arith
encode_var_int_loop-over (suc room) n h =
    let bound : 128 ^ room * 128 ≤ n = rw pow-suc at h in
    let positive : 0 < 128 ^ room = pow_pos room in
    ground (arith, encode_var_int_loop-over room (n / 128) (omega arith))
  where
    pow_pos : (k : ℕ) → 0 < 128 ^ k
    pow_pos zero = omega arith
    pow_pos (suc k) = rw pow-suc (omega (arith, pow_pos k))

encode_var_int_loop-shape :
    (room n : ℕ) (bs : Bytes)
    → encode_var_int_loop room n ≡ some bs
    → (1 ≤ length bs) × (length bs ≤ room) × All IsByte bs
unfolding encode_var_int_loop
encode_var_int_loop-shape zero n bs e = cc
encode_var_int_loop-shape (suc room) n bs e =
    elim (Option-cases (encode_var_int_loop room (n / 128))) [
      | inl over ↦ ground arith
      | inr (bs', fits) ↦
          ground (arith, or_0x80 (n % 128), encode_var_int_loop-shape room (n / 128) bs' fits)
    ]

-- `encodeVarInt` writes every number below 268435456, in one to four bytes, each below 256.
pub encode_var_int-fits :
    (n : ℕ)
    → n < 268435456
    → (bs : Bytes) × (encode_var_int n ≡ some bs)
      × (1 ≤ length bs)
      × (length bs ≤ 4)
      × All IsByte bs
unfolding encode_var_int
encode_var_int-fits n h =
    let (bs, fits) = encode_var_int_loop-fits 3 n (omega arith) in
    let (low, high, bytes) = encode_var_int_loop-shape 4 n bs fits in (bs, fits, low, high, bytes)

pub encode_var_int-shape :
    (n : ℕ) (bs : Bytes)
    → encode_var_int n ≡ some bs
    → (1 ≤ length bs) × (length bs ≤ 4) × All IsByte bs
unfolding encode_var_int
encode_var_int-shape n bs e = encode_var_int_loop-shape 4 n bs e

-- `encodeVarInt` on a four-byte array panics exactly for the numbers from 268435456 on.
pub encode_var_int-eq-none_iff : (n : ℕ) → (encode_var_int n ≡ none) ↔ (268435456 ≤ n)
unfolding encode_var_int
encode_var_int-eq-none_iff n = (fits, λ h. encode_var_int_loop-over 4 n (omega arith))
  where
    fits : encode_var_int_loop 4 n ≡ none → 268435456 ≤ n
    fits e = elim (Bool-cases (ltb n 268435456)) [
      | inl small ↦
          let (bs, written) =
            encode_var_int_loop-fits 3 n (omega (arith, ltb→lt n 268435456 small)) in
          cc
      | inr big ↦ ground arith
    ]
