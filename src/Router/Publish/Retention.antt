-- ===== src/Router/Publish/Retention.antt =====
-- What `Publish` does to the retained messages and to their count.
use broker.Prelude.{
  ℕ, if◌then◌else◌, Bytes, [], ◌∷◌, Bool, true, false, ◌&&◌, none, some, bytes_eq, length,
  Option-cases, inl, inr, ◌≡◌, ◌≢◌, refl, arith, bytes_eq_instance,
}
use broker.Prelude.Maps.{
  lookup, lookup-insert, lookup-delete, delete_absent, Unique, insert-Unique, delete-Unique,
  length-insert_absent, length-insert_present, length-delete_present,
}
use broker.Prelude.Int.{pos, inc, dec}
use broker.Protocol.Topic.{is_empty}
use broker.Router.Engine.{Router, Retained}
use broker.Router.Engine.Routed.{IsRouted}
use broker.Router.Publish.{set_retained, retain_message, publish, get_retained}

-- What a topic retains after a publish: if the publish has the retain flag and goes to that topic,
-- its message, or nothing if the payload is empty; in every other case, what the topic retained
-- before.
pub get_retained-publish :
    (now : ℕ) (topic payload other : Bytes) (qos : ℕ) (retain : Bool) (r : Router)
    → get_retained other (publish now topic payload qos retain r).0 ≡ (
        if retain && bytes_eq topic other
        then if is_empty payload
          then none
          else some (record { topic = topic; payload = payload; qos = qos; timestamp = now })
        else get_retained other r)
unfolding get_retained publish retain_message set_retained
get_retained-publish now topic payload other qos false r = refl
get_retained-publish now topic [] other qos true r =
    lookup-delete {V = Retained} topic other r.retained
get_retained-publish now topic (b ∷ payload) other qos true r =
    lookup-insert topic other _ r.retained

-- The counter of the retained messages is their number, and no topic retains two.
pub record IsCounted (r : Router) : Type 0 where
  pub unique : Unique r.retained
  pub counted : r.retained_count ≡ pos (length r.retained)

-- A publish keeps the counter of the retained messages equal to their number, with no topic
-- retained twice, provided that an empty payload with the retain flag comes only for a topic that
-- retains a message.
pub publish-IsCounted :
    (now : ℕ) (topic payload : Bytes) (qos : ℕ) (retain : Bool) (r : Router)
    → (retain ≡ true → payload ≡ [] → get_retained topic r ≢ none)
    → IsCounted r
    → IsCounted (publish now topic payload qos retain r).0
unfolding publish retain_message set_retained get_retained inc dec
publish-IsCounted now topic payload qos false r known h = record {
  unique = h.unique;
  counted = h.counted;
}
publish-IsCounted now topic [] qos true r known h = elim (Option-cases (lookup topic r.retained)) [
  | inl missing ↦ absurd (known refl refl missing)
  | inr (msg, found) ↦ record {
    unique = delete-Unique topic r.retained h.unique;
    counted = rw (h.counted, ← length-delete_present topic msg r.retained h.unique found);
  }
]
publish-IsCounted now topic (b ∷ payload) qos true r known h =
    let msg : Retained = record {
      topic = topic;
      payload = b ∷ payload;
      qos = qos;
      timestamp = now;
    } in
    elim (Option-cases (lookup topic r.retained)) [
      | inl missing ↦ record {
        unique = insert-Unique topic msg r.retained h.unique;
        counted = ground (arith, missing, h.counted, length-insert_absent topic msg r.retained);
      }
      | inr (old, found) ↦ record {
        unique = insert-Unique topic msg r.retained h.unique;
        counted = ground (arith, found, h.counted, length-insert_present topic msg old r.retained);
      }
    ]

-- A publish with an empty payload and the retain flag, to a topic that retains nothing, leaves the
-- retained messages as they are and yet takes one off their counter.
pub publish-clear_absent :
    (now : ℕ) (topic : Bytes) (qos : ℕ) (r : Router)
    → get_retained topic r ≡ none
    → ((publish now topic [] qos true r).0.retained ≡ r.retained)
      × ((publish now topic [] qos true r).0.retained_count ≡ dec r.retained_count)
unfolding publish retain_message set_retained get_retained
publish-clear_absent now topic qos r missing = (delete_absent topic r.retained missing, refl)

-- A publish keeps the invariant of the router.
pub publish-IsRouted :
    (now : ℕ) (topic payload : Bytes) (qos : ℕ) (retain : Bool) (r : Router)
    → IsRouted r
    → IsRouted (publish now topic payload qos retain r).0
unfolding publish retain_message set_retained
publish-IsRouted now topic payload qos false r h = record { tidy = h.tidy }
publish-IsRouted now topic [] qos true r h = record { tidy = h.tidy }
publish-IsRouted now topic (b ∷ payload) qos true r h = record { tidy = h.tidy }
