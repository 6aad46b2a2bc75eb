-- ===== src/Server/Aliases.antt =====
-- Topic aliases: `resolvePublishTopic` of internal/broker/client.go.
use broker.Prelude.{◌≤◌, ◌<◌, Bytes, true, false, some, ◌≡◌, ap, arith, nat_eq}
use broker.Prelude.Maps.{lookup, insert, lookup-insert}
use broker.Protocol.Result
use broker.Protocol.Result.{Result}
use broker.Protocol.Topic.{is_empty}
use broker.Protocol.Publish.{PublishPacket}
use broker.Server.{Client}
use broker.Server.Inbound.{resolve_publish_topic, known_topic}

-- The connection after a topic with an alias.
learned_topic :
    (pkt : PublishPacket) (c : Client)
    → c.version ≡ 5
    → 0 < pkt.topic_alias
    → pkt.topic_alias ≤ c.negotiated_topic_alias_max
    → is_empty pkt.topic ≡ false
    → resolve_publish_topic pkt c ≡ (
      record c { topic_aliases = insert pkt.topic_alias pkt.topic c.topic_aliases },
      Result.ok pkt.topic,
    )
unfolding resolve_publish_topic
learned_topic pkt c v named within topic = ground arith

-- The topic of an alias that the table has.
recalled_topic :
    (pkt : PublishPacket) (c : Client) (topic : Bytes)
    → c.version ≡ 5
    → 0 < pkt.topic_alias
    → pkt.topic_alias ≤ c.negotiated_topic_alias_max
    → is_empty pkt.topic ≡ true
    → lookup pkt.topic_alias c.topic_aliases ≡ some topic
    → resolve_publish_topic pkt c ≡ (c, Result.ok topic)
unfolding resolve_publish_topic known_topic
recalled_topic pkt c topic v named within blank known = ground arith

-- On a MQTT 5 connection, after a PUBLISH with a topic that is not empty and an alias from 1 to
-- the negotiated maximum, a PUBLISH with that alias and an empty topic resolves to that topic.
pub resolve_publish_topic_twice :
    (first second : PublishPacket) (c : Client)
    → c.version ≡ 5
    → 0 < first.topic_alias
    → first.topic_alias ≤ c.negotiated_topic_alias_max
    → is_empty first.topic ≡ false
    → second.topic_alias ≡ first.topic_alias
    → is_empty second.topic ≡ true
    → (resolve_publish_topic second (resolve_publish_topic first c).0).1 ≡ Result.ok first.topic
resolve_publish_topic_twice first second c v named within topic same blank =
    let table = insert first.topic_alias first.topic c.topic_aliases in
    let c' : Client = record c { topic_aliases = table } in
    rw (learned_topic first c v named within topic) (
      ap (λ r. r.1)
        (recalled_topic second c' first.topic v (rw same named) (rw same within) blank (
          ground (
            arith,
            same,
            lookup-insert first.topic_alias second.topic_alias first.topic c.topic_aliases,
          ))))

-- An error leaves the table as it was.
resolve_publish_topic-refused :
    (pkt : PublishPacket) (c : Client) (e : Result.Error)
    → (resolve_publish_topic pkt c).1 ≡ Result.err e
    → (resolve_publish_topic pkt c).0 ≡ c
unfolding resolve_publish_topic known_topic
resolve_publish_topic-refused pkt c e failed = ground arith
