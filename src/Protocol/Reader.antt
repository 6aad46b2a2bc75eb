-- ===== src/Protocol/Reader.antt =====
-- `sliceReader` of internal/protocol/packet.go, and the string and integer codec on it.
-- A byte slice is a list of numbers; the reader's position is a number that may pass the end.
pub mod Moves
pub mod Drops
use broker.Prelude.{
  ℕ, ◌+◌, ◌-◌, ◌*◌, ◌/◌, ◌%◌, ◌==◌, ltb, leb, if◌then◌else◌, Bytes, [], ◌∷◌, ◌++◌, zero, suc,
  length, take, drop, get_elem?, Bool, none, some,
}
use broker.Protocol.Result.{Result, ok, err, panic, ◌>>=◌, eof, unexpected_eof}

pub record Reader : Type 0 where
  pub data_bytes : Bytes
  pub pos : ℕ

abbrev pub new_slice_reader : Bytes → Reader
new_slice_reader b = record { data_bytes = b; pos = 0 }

abbrev pub advance : ℕ → Reader → Reader
advance n r = record r { pos = r.pos + n }

-- `r.Read(p)` with `len(p) = n`
unfoldable pub read : ℕ → Reader → Result (Bytes × Reader)
read n r =
    if leb (length r.data_bytes) r.pos
    then err eof
    else let chunk = take n (drop r.pos r.data_bytes) in ok (chunk, advance (length chunk) r)

-- `io.ReadFull(r, p)` with `len(p) = n`. A short first `Read` has reached the end, so that the
-- second one answers `io.EOF`, which `io.ReadFull` turns into `io.ErrUnexpectedEOF`.
unfoldable pub io_read_full : ℕ → Reader → Result (Bytes × Reader)
unfolding read
io_read_full n r =
    if n == 0
    then ok ([], r)
    else do (chunk, r') ← read n r; if length chunk == n then ok (chunk, r') else err unexpected_eof

-- `r.Remaining() < n`; the difference may be negative in Go.
abbrev pub remaining_lt : Reader → ℕ → Bool
remaining_lt r n = ltb (length r.data_bytes) (r.pos + n)

zeros : ℕ → Bytes
zeros zero = []
zeros (suc n) = 0 ∷ zeros n

-- The method `r.ReadFull(p)`, with `p` new and `len(p) = n`.
unfoldable pub read_full : ℕ → Reader → Result (Bytes × Reader)
unfolding zeros
read_full n r =
    if ltb (length r.data_bytes) r.pos
    then panic
    else let chunk = take n (drop r.pos r.data_bytes) in
      ok (chunk ++ zeros (n - length chunk), advance n r)

-- `r.data[r.pos]`, and then `r.pos++`
unfoldable pub next_byte : Reader → Result (ℕ × Reader)
next_byte r = elim (get_elem? r.data_bytes r.pos) [ none ↦ panic | some b ↦ ok (b, advance 1 r) ]

-- `r.data[r.pos:r.pos+n]`, and then `r.pos += n`
unfoldable pub next_bytes : ℕ → Reader → Result (Bytes × Reader)
next_bytes n r =
    if remaining_lt r n then panic else ok (take n (drop r.pos r.data_bytes), advance n r)

-- `binary.BigEndian.Uint16` of a two-byte slice
abbrev pub be16 : Bytes → ℕ
be16 (a ∷ b ∷ bs) = a * 256 + b
be16 _ = 0

-- `binary.BigEndian.Uint32` of a four-byte slice
abbrev pub be32 : Bytes → ℕ
be32 (a ∷ b ∷ c ∷ d ∷ bs) = ((a * 256 + b) * 256 + c) * 256 + d
be32 _ = 0

unfoldable pub read_string : Reader → Result (Bytes × Reader)
read_string r = do
  (len_buf, r') ← io_read_full 2 r
  let n = be16 len_buf
  if n == 0 then ok ([], r') else io_read_full n r'

unfoldable pub read_uint16 : Reader → Result (ℕ × Reader)
read_uint16 r = do (buf, r') ← io_read_full 2 r; ok (be16 buf, r')

-- `byte(v>>8), byte(v)`
abbrev pub uint16_bytes : ℕ → Bytes
uint16_bytes v = (v / 256 % 256) ∷ (v % 256) ∷ []

unfoldable pub append_uint16 : Bytes → ℕ → Bytes
append_uint16 b v = b ++ uint16_bytes v

abbrev pub max_uint16 : ℕ
max_uint16 = 65535

-- A string over 65535 bytes is cut.
unfoldable pub append_string : Bytes → Bytes → Bytes
append_string b s =
    let s' = if ltb max_uint16 (length s) then take max_uint16 s else s in
    (b ++ uint16_bytes (length s')) ++ s'
