-- ===== src/Prelude/Hash.antt =====
-- FNV-1a on 32 bits, the `New32a` of Go's `hash/fnv`.
use Prim.Native.Nat.{ℕ, ◌*◌, ◌%◌, ◌^◌, bit_xor}
use mathlib.Core.List.{[], ◌∷◌}
use broker.Prelude.Eq.{Bytes}

-- The state of the hash after the bytes.
unfoldable pub fnv32a_from : ℕ → Bytes → ℕ
fnv32a_from h [] = h
fnv32a_from h (b ∷ bs) = fnv32a_from (bit_xor h b * 16777619 % 2 ^ 32) bs

-- `h := fnv.New32a(); h.Write(bs); h.Sum32()`
unfoldable pub fnv32a : Bytes → ℕ
unfolding fnv32a_from
fnv32a bs = fnv32a_from 2166136261 bs
