-- ===== src/Protocol/Subscribe/Validated.antt =====
-- The results of `DecodeSubscribe` and `DecodeUnsubscribe`, internal/protocol/packet.go.
use broker.Prelude.{
  ℕ, zero, suc, ◌+◌, ◌<◌, ltb, ltb→lt, ◌≡◌, ◌≢◌, arith, Bytes, List, [], ◌∷◌, ◌++◌, length, false,
  Bool-cases, inl, inr, bit_and, ap,
}
use broker.Protocol.Result.{Returns, Returns-bind, Returns-guard, protocol_violation}
use broker.Protocol.Reader.{Reader, new_slice_reader, io_read_full, read_string, read_uint16}
use broker.Protocol.Reader.Moves.{
  MovesBy, Moves, io_read_full-MovesBy, read_string-Moves, read_uint16-Moves, skip_props-Moves,
}
use broker.Protocol.VarInt.{buf0}
use broker.Protocol.Topic.{is_empty}
use broker.Protocol.Subscribe.{
  Subscription, subscribe_loop, skip_v5_props, decode_subscribe, unsubscribe_loop,
  decode_unsubscribe,
}

skip_v5_props-Returns : (version : ℕ) (r : Reader) → Returns (Moves 0 r) (skip_v5_props version r)
unfolding skip_v5_props
skip_v5_props-Returns version r = ground (arith, skip_props-Moves r)

subscribe_loop-Returns :
    (fuel : ℕ) (r : Reader) (subs : List Subscription)
    → 0 < fuel
    → length r.data_bytes < r.pos + fuel
    → Returns (λ (l : List Subscription). Unit {0}) (subscribe_loop fuel r subs)
unfolding subscribe_loop
subscribe_loop-Returns zero r subs pos h = absurd (omega arith)
subscribe_loop-Returns (suc fuel) r subs pos h =
    elim (Bool-cases (ltb r.pos (length r.data_bytes))) [
      | inr done ↦ rw (done, subscribe_loop) tt
      | inl more ↦
          rw (more, subscribe_loop)
            (Returns-bind (MovesBy 2 r) (λ l. Unit {0}) (read_string r) _ (read_string-Moves r)
              λ (filter, r₁) m.
                Returns-bind (MovesBy 1 r₁) (λ l. Unit {0}) (io_read_full 1 r₁) _
                  (io_read_full-MovesBy 1 r₁)
                  λ (buf, r₂) m'.
                    subscribe_loop-Returns fuel r₂
                      (subs ++ (record { filter = filter; qos = bit_and (buf0 buf) 0x03 } ∷ []))
                      (omega (arith, ltb→lt _ _ more))
                      (omega (arith, m.moved, m'.moved, ap length m.same, ap length m'.same)))
    ]

unsubscribe_loop-Returns :
    (fuel : ℕ) (r : Reader) (filters : List Bytes)
    → 0 < fuel
    → length r.data_bytes < r.pos + fuel
    → Returns (λ (l : List Bytes). Unit {0}) (unsubscribe_loop fuel r filters)
unfolding unsubscribe_loop
unsubscribe_loop-Returns zero r filters pos h = absurd (omega arith)
unsubscribe_loop-Returns (suc fuel) r filters pos h =
    elim (Bool-cases (ltb r.pos (length r.data_bytes))) [
      | inr done ↦ rw (done, unsubscribe_loop) tt
      | inl more ↦
          rw (more, unsubscribe_loop)
            (Returns-bind (MovesBy 2 r) (λ l. Unit {0}) (read_string r) _ (read_string-Moves r)
              λ (filter, r₁) m.
                unsubscribe_loop-Returns fuel r₁ (filters ++ (filter ∷ []))
                  (omega (arith, ltb→lt _ _ more)) (omega (arith, m.moved, ap length m.same)))
    ]

-- For every version and body, `DecodeSubscribe` returns, an error or an identifier with at least
-- one entry, without a panic; and the length of the body plus one is fuel enough.
pub decode_subscribe-Returns :
    (version : ℕ) (body : Bytes)
    → Returns (λ (p : ℕ × List Subscription). p.1 ≢ []) (decode_subscribe version body)
unfolding decode_subscribe
decode_subscribe-Returns version body =
    Returns-bind (MovesBy 2 start) Q (read_uint16 start) _ (read_uint16-Moves start) λ (id, r₁) m.
      Returns-bind (Moves 0 r₁) Q (skip_v5_props version r₁) _ (skip_v5_props-Returns version r₁)
        λ r₂ m'.
          Returns-bind (λ l. Unit {0}) Q (subscribe_loop (suc (length body)) r₂ []) _
            (subscribe_loop-Returns (suc (length body)) r₂ [] (omega arith)
              (omega (arith, ap length m.same, ap length m'.same)))
            λ subs _. Returns-guard Q (is_empty subs) protocol_violation _ λ some. filled subs some
  where
    start : Reader
    start = new_slice_reader body

    Q : ℕ × List Subscription → Type 0
    Q p = p.1 ≢ []

    filled : (subs : List Subscription) → is_empty subs ≡ false → subs ≢ []
    filled [] h = λ e. cc
    filled (s ∷ subs) h = λ e. cc

-- For every version and body, `DecodeUnsubscribe` returns, an error or a result, without a panic;
-- and the length of the body plus one is fuel enough.
pub decode_unsubscribe-Returns :
    (version : ℕ) (body : Bytes)
    → Returns (λ (p : ℕ × List Bytes). Unit {0}) (decode_unsubscribe version body)
unfolding decode_unsubscribe
decode_unsubscribe-Returns version body =
    Returns-bind (MovesBy 2 start) Q (read_uint16 start) _ (read_uint16-Moves start) λ (id, r₁) m.
      Returns-bind (Moves 0 r₁) Q (skip_v5_props version r₁) _ (skip_v5_props-Returns version r₁)
        λ r₂ m'.
          Returns-bind (λ l. Unit {0}) Q (unsubscribe_loop (suc (length body)) r₂ []) _
            (unsubscribe_loop-Returns (suc (length body)) r₂ [] (omega arith)
              (omega (arith, ap length m.same, ap length m'.same)))
            (λ filters _. tt)
  where
    start : Reader
    start = new_slice_reader body

    Q : ℕ × List Bytes → Type 0
    Q p = Unit {0}
