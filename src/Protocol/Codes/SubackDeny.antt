-- ===== src/Protocol/Codes/SubackDeny.antt =====
-- `SubackDenyReason` of internal/protocol/packet.go.
use Prim.Native.Nat.{ℕ}

abbrev pub granted : ℕ
granted = 0

abbrev pub invalid_topic_filter : ℕ
invalid_topic_filter = 1

abbrev pub not_authorized : ℕ
not_authorized = 2

abbrev pub plugin : ℕ
plugin = 3
