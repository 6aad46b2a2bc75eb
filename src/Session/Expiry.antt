-- ===== src/Session/Expiry.antt =====
-- The life of a session after a disconnect: `PrepareDisconnectExpiry` and
-- `ShouldExpireDisconnected` of internal/session/session.go.
use broker.Prelude.{ℕ, ◌+◌, ◌*◌, ◌==◌, leb, false, not, ◌&&◌, ◌≡◌, arith}
use broker.Session.{Session, prepare_disconnect_expiry, should_expire_disconnected, never, second}

-- For a session of a MQTT 5 client that is kept and not connected, `PrepareDisconnectExpiry` asks
-- for an immediate purge exactly if the interval is 0; and afterwards `ShouldExpireDisconnected`
-- holds exactly from the end of the interval on, and never for the intervals 0 and 0xFFFFFFFF.
pub should_expire_disconnected-prepare_disconnect_expiry :
    (now later : ℕ) (s : Session)
    → s.clean_session ≡ false
    → s.protocol_level ≡ 5
    → s.connected ≡ false
    → ((prepare_disconnect_expiry now s).1 ≡ (s.session_expiry_sec == 0))
      × (should_expire_disconnected later (prepare_disconnect_expiry now s).0 ≡ (
          not (s.session_expiry_sec == 0)
          && not (s.session_expiry_sec == never)
          && leb (now + s.session_expiry_sec * second) later))
unfolding prepare_disconnect_expiry should_expire_disconnected
should_expire_disconnected-prepare_disconnect_expiry now later s kept v5 gone =
    (ground arith, ground arith)
