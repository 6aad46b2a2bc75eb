-- ===== src/Protocol/Reader/Drops.antt =====
-- The reads of `sliceReader` on well-formed input: `drop p d` is what stands from the position on.
use broker.Prelude.{
  ℕ, ◌+◌, ◌-◌, ◌*◌, ◌/◌, ◌%◌, ◌<◌, ◌≤◌, ◌≡◌, sym, ◌∙◌, ap, arith, Bytes, [], ◌∷◌, ◌++◌, length,
  take, drop, length-append, length-drop, take-length-append, drop-length-append, drop-drop, le→ltb,
  take-length_self, append-nil, ◌==◌, if◌then◌else◌,
}
use broker.Protocol.Result.{ok}
use broker.Protocol.Reader.{io_read_full, read_full, read_string, read_uint16, uint16_bytes}
use broker.Protocol.VarInt.RoundTrip.{at}

drop-append : (p : ℕ) (xs ys d : Bytes) → drop p d ≡ xs ++ ys → drop (p + length xs) d ≡ ys
drop-append p xs ys d h = sym (drop-drop (length xs) p d) ∙ rw h (drop-length-append xs ys)

-- `io.ReadFull` takes what stands there.
pub io_read_full-drop :
    (p : ℕ) (xs ys d : Bytes)
    → drop p d ≡ xs ++ ys
    → (io_read_full (length xs) (at d p) ≡ ok (xs, at d (p + length xs)))
      × (drop (p + length xs) d ≡ ys)
unfolding io_read_full
io_read_full-drop p [] ys d h =
    (ap (λ (t : ℕ). ok ([], at d t)) (omega arith), drop-append p [] ys d h)
io_read_full-drop p (x ∷ xs) ys d h =
    let seen : take (length (x ∷ xs)) (drop p d) ≡ x ∷ xs = rw h (take-length-append (x ∷ xs) ys) in
    (
      ground (arith, ap length h, length-drop p d, length-append (x ∷ xs) ys, seen),
      drop-append p (x ∷ xs) ys d h,
    )

be16-uint16_bytes : (v : ℕ) → v < 65536 → v / 256 % 256 * 256 + v % 256 ≡ v
be16-uint16_bytes v h = omega arith

pub read_uint16-drop :
    (v p : ℕ) (ys d : Bytes)
    → v < 65536
    → drop p d ≡ uint16_bytes v ++ ys
    → (read_uint16 (at d p) ≡ ok (v, at d (p + 2))) × (drop (p + 2) d ≡ ys)
unfolding read_uint16
read_uint16-drop v p ys d small h =
    let (read, behind) = io_read_full-drop p (uint16_bytes v) ys d h in
    (rw (read, be16-uint16_bytes v small), behind)

pub read_string-drop :
    (s : Bytes) (p : ℕ) (ys d : Bytes)
    → length s < 65536
    → drop p d ≡ uint16_bytes (length s) ++ (s ++ ys)
    → (read_string (at d p) ≡ ok (s, at d (p + 2 + length s))) × (drop (p + 2 + length s) d ≡ ys)
unfolding read_string
read_string-drop s p ys d small h =
    let (read, behind) = io_read_full-drop p (uint16_bytes (length s)) (s ++ ys) d h in
    let (value, after) = io_read_full-drop (p + 2) s ys d behind in
    (rw (read, be16-uint16_bytes (length s) small) (body s value), after)
  where
    body :
        (t : Bytes)
        → io_read_full (length t) (at d (p + 2)) ≡ ok (t, at d (p + 2 + length t))
        → (if length t == 0 then ok ([], at d (p + 2)) else io_read_full (length t) (at d (p + 2)))
          ≡ ok (t, at d (p + 2 + length t))
    body [] e = ap (λ (q : ℕ). ok ([], at d q)) (omega arith)
    body (x ∷ t) e = ground arith

-- The method `ReadFull` with exactly what is left.
pub read_full-drop :
    (p : ℕ) (xs d : Bytes)
    → drop p d ≡ xs
    → p ≤ length d
    → read_full (length xs) (at d p) ≡ ok (xs, at d (p + length xs))
unfolding read_full
read_full-drop p xs d h bound =
    rw (le→ltb (length d) p bound, h, take-length_self xs, none_left)
      (ap (λ (t : Bytes). ok (t, at d (p + length xs))) (append-nil xs))
  where
    none_left : length xs - length xs ≡ 0
    none_left = omega arith
