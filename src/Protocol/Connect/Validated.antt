-- ===== src/Protocol/Connect/Validated.antt =====
-- What holds of the packets of `DecodeConnect`, internal/protocol/packet.go.
use broker.Prelude.{
  ℕ, ◌≤◌, ◌==◌, ◌≡◌, ◌⊎◌, arith, Bytes, codes, [], Bool, true, false, not, ◌&&◌, inl, inr,
  Bool-cases, refl, if◌then◌else◌,
}
use broker.Protocol.Result.{
  Returns, Returns-bind, Returns-guard, Returns-with_context, with_context, ok, unsupported_version,
}
use broker.Protocol.Reader.{Reader, new_slice_reader, io_read_full, read_string, read_uint16}
use broker.Protocol.Reader.Moves.{
  MovesBy, io_read_full-MovesBy, read_string-Moves, read_uint16-Moves, skip_props-Moves,
}
use broker.Protocol.VarInt.{buf0, skip_props}
use broker.Protocol.Props.{Props, read_connect_props}
use broker.Protocol.Props.Moves.{Same, read_connect_props-Returns}
use broker.Protocol.Codes.{v311, v50}
use broker.Protocol.Connect.{
  ConnectFlags, ConnectProps, ConnectPacket, protocol_name_ok, check_flags, check_connect_props,
  no_connect_props, read_connect_section, read_binary, read_will, read_username, read_password,
  decode_connect_fields, decode_connect,
}

-- The will section of a decoded packet.
pub record IsFlagged (c : ConnectFlags) : Type 0 where
  pub will_level : c.will_qos ≤ 2
  pub no_will : c.will_flag ≡ false → (c.will_qos ≡ 0) × (c.will_retain ≡ false)

pub record IsWellFormed (p : ConnectPacket) : Type 0 where
  pub level : (p.version ≡ v311) ⊎ (p.version ≡ v50)
  pub flagged : IsFlagged p.conn_flags
  pub v311_props : p.version ≡ v311 → p.conn_props ≡ no_connect_props
  pub will_absent : p.conn_flags.will_flag ≡ false → (p.will_topic ≡ []) × (p.will_payload ≡ [])
  pub username_absent : p.conn_flags.has_username ≡ false → p.username ≡ []
  pub password_absent : p.conn_flags.has_password ≡ false → p.password ≡ []

check_flags-Returns : (f : ℕ) → Returns IsFlagged (check_flags f)
unfolding check_flags
check_flags-Returns f = ground arith

check_connect_props-Returns :
    (props : Props) → Returns (λ (c : ConnectProps). Unit {0}) (check_connect_props props)
unfolding check_connect_props
check_connect_props-Returns props = ground arith

read_binary-Returns : (r : Reader) → Returns (λ (p : Bytes × Reader). Unit {0}) (read_binary r)
unfolding read_binary
read_binary-Returns r =
    Returns-bind (MovesBy 2 r) (λ p. Unit {0}) (read_uint16 r) _ (read_uint16-Moves r)
      λ (n, r') _. ground (arith, io_read_full-MovesBy n r')

abbrev AbsentUnless : Bool → Bytes × Reader → Type 0
AbsentUnless flag p = flag ≡ false → p.0 ≡ []

read_username-Returns :
    (flag : Bool) (r : Reader) → Returns (AbsentUnless flag) (read_username flag r)
unfolding read_username
read_username-Returns flag r = ground (arith, read_string-Moves r)

read_password-Returns :
    (flag : Bool) (r : Reader) → Returns (AbsentUnless flag) (read_password flag r)
unfolding read_password
read_password-Returns flag r = ground (arith, read_binary-Returns r)

abbrev SectionOf : ℕ → ConnectProps × Reader → Type 0
SectionOf version p = version ≡ v311 → p.0 ≡ no_connect_props

read_connect_section-Returns :
    (version : ℕ) (r : Reader) → Returns (SectionOf version) (read_connect_section version r)
unfolding read_connect_section
read_connect_section-Returns version r = elim (Bool-cases (version == v50)) [
  | inr other ↦ rw other (λ e. refl)
  | inl v5 ↦ rw v5 (
      Returns-bind (Same r) (SectionOf version) (read_connect_props r) _
        (read_connect_props-Returns r)
        λ (props, r') _. ground (arith, check_connect_props-Returns props))
]

abbrev WillOf : Bool → (Bytes × Bytes) × Reader → Type 0
WillOf flag p = flag ≡ false → (p.0.0 ≡ []) × (p.0.1 ≡ [])

read_will-Returns :
    (version : ℕ) (flag : Bool) (r : Reader) → Returns (WillOf flag) (read_will version flag r)
unfolding read_will
read_will-Returns version false r = λ e. (refl, refl)
read_will-Returns version true r =
    Returns-bind (λ (r₁ : Reader). Unit {0}) (WillOf true) _ _ (skipped (version == v50))
      λ r₁ _.
        Returns-bind (MovesBy 2 r₁) (WillOf true)
          (with_context (codes "will topic") (read_string r₁)) _
          (Returns-with_context (MovesBy 2 r₁) (codes "will topic") _ (read_string-Moves r₁))
          λ (topic, r₂) _.
            Returns-bind (λ (p : Bytes × Reader). Unit {0}) (WillOf true) (read_binary r₂) _
              (read_binary-Returns r₂) (λ (payload, r₃) _. ground arith)
  where
    skipped : (v5 : Bool) → Returns (λ (r₁ : Reader). Unit {0}) (if v5 then skip_props r else ok r)
    skipped true = ground (arith, skip_props-Moves r)
    skipped false = tt

decode_connect_fields-IsWellFormed :
    (version : ℕ) (c : ConnectFlags) (r₃ : Reader)
    → (version ≡ v311) ⊎ (version ≡ v50)
    → IsFlagged c
    → Returns IsWellFormed (decode_connect_fields version c r₃)
unfolding decode_connect_fields
decode_connect_fields-IsWellFormed version c r₃ level flagged =
    Returns-bind (MovesBy 2 r₃) Q (read_uint16 r₃) _ (read_uint16-Moves r₃) λ (keep_alive, r₄) _.
      Returns-bind (SectionOf version) Q (read_connect_section version r₄) _
        (read_connect_section-Returns version r₄)
        λ (conn_props, r₅) props_ok.
          Returns-bind (MovesBy 2 r₅) Q (with_context (codes "client id") (read_string r₅)) _
            (Returns-with_context (MovesBy 2 r₅) (codes "client id") _ (read_string-Moves r₅))
            λ (client_id, r₆) _.
              Returns-bind (WillOf c.will_flag) Q (read_will version c.will_flag r₆) _
                (read_will-Returns version c.will_flag r₆)
                λ (will, r₇) will_ok.
                  Returns-bind (AbsentUnless c.has_username) Q (read_username c.has_username r₇) _
                    (read_username-Returns c.has_username r₇)
                    λ (username, r₈) username_ok.
                      Returns-bind (AbsentUnless c.has_password) Q (read_password c.has_password r₈)
                        _ (read_password-Returns c.has_password r₈)
                        λ (password, r₉) password_ok. record {
                          level = level;
                          flagged = flagged;
                          v311_props = props_ok;
                          will_absent = will_ok;
                          username_absent = username_ok;
                          password_absent = password_ok;
                        }
  where
    Q : ConnectPacket → Type 0
    Q = IsWellFormed

-- On every body `DecodeConnect` returns, an error or a packet, without a panic; and a packet is of
-- MQTT 3.1.1 or 5, has a will QoS of at most 2, has no will QoS, will retain flag, will topic or
-- will payload without the will flag, no user name and no password without their flags, and no
-- MQTT 5 properties in MQTT 3.1.1.
pub decode_connect-IsWellFormed : (body : Bytes) → Returns IsWellFormed (decode_connect body)
unfolding decode_connect
decode_connect-IsWellFormed body =
    Returns-bind (MovesBy 2 start) Q (with_context (codes "proto name") (read_string start)) _
      (Returns-with_context (MovesBy 2 start) (codes "proto name") _ (read_string-Moves start))
      λ (name, r₁) _. Returns-guard Q (not (protocol_name_ok name)) unsupported_version _ λ name_ok.
        Returns-bind (MovesBy 1 r₁) Q (io_read_full 1 r₁) _ (io_read_full-MovesBy 1 r₁)
          λ (ver, r₂) _.
            Returns-guard Q (not (buf0 ver == v311) && not (buf0 ver == v50)) unsupported_version _
              λ level.
                Returns-bind (MovesBy 1 r₂) Q (io_read_full 1 r₂) _ (io_read_full-MovesBy 1 r₂)
                  λ (flag_buf, r₃) _.
                    Returns-bind IsFlagged Q (check_flags (buf0 flag_buf)) _
                      (check_flags-Returns (buf0 flag_buf))
                      λ c flagged.
                        decode_connect_fields-IsWellFormed (buf0 ver) c r₃ (known (buf0 ver) level)
                          flagged
  where
    Q : ConnectPacket → Type 0
    Q = IsWellFormed

    start : Reader
    start = new_slice_reader body

    known : (v : ℕ) → not (v == v311) && not (v == v50) ≡ false → (v ≡ v311) ⊎ (v ≡ v50)
    known v h = ground arith
