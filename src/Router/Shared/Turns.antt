-- ===== src/Router/Shared/Turns.antt =====
-- The round-robin choice of `deliverShared`, internal/router/router.go.
use broker.Prelude.{
  ℕ, zero, suc, ◌+◌, ◌%◌, ◌≤◌, ◌<◌, Bytes, List, [], ◌∷◌, true, false, some, length, get_elem?,
  get_elem?-lt, bytes_eq, bytes_eq_iff, ◌≡◌, ap, ◌⊎◌, refl, arith, Bool-cases, inl, inr,
  bytes_eq_instance,
}
use native.Mathlib.Nat.{mod-lt}
use broker.Prelude.Maps.{lookup}
use broker.Router.Trie.{Subscriber, Subscribers}
use broker.Protocol.Topic.{is_empty}
use broker.Router.Segments.{topic_matches_filter}
use broker.Router.Engine.{SharedGroup, deliver_to}
use broker.Router.Shared.{
  bytes_le, insert_sorted, sort_strings, ids_of, u64, next_turn, turn_index, pick_member,
  serve_group,
}

length-insert_sorted : (s : Bytes) (ts : List Bytes) → length (insert_sorted s ts) ≡ suc (length ts)
unfolding insert_sorted
length-insert_sorted s [] = refl
length-insert_sorted s (t ∷ ts) = ground (arith, length-insert_sorted s ts)

length-sort_strings : (subs : Subscribers) → length (sort_strings (ids_of subs)) ≡ length subs
unfolding sort_strings
length-sort_strings [] = refl
length-sort_strings ((id, sub) ∷ subs) =
    omega (arith, length-insert_sorted id (sort_strings (ids_of subs)), length-sort_strings subs)

-- An element of the list is the given one or stands in the other list.
abbrev Either : Bytes → Bytes → List Bytes → Type 0
Either s x ts = (s ≡ x) ⊎ ((j : ℕ) × (get_elem? ts j ≡ some x))

cons-Either :
    (s x : Bytes) (ts : List Bytes) (i : ℕ) → get_elem? (s ∷ ts) i ≡ some x → Either s x ts
cons-Either s x ts zero h = inl (ground arith)
cons-Either s x ts (suc i) h = inr (i, h)

-- What stands in a sorted list is the new element or was there.
insert_sorted-source :
    (s x : Bytes) (ts : List Bytes) (i : ℕ)
    → get_elem? (insert_sorted s ts) i ≡ some x
    → Either s x ts
unfolding insert_sorted
insert_sorted-source s x [] i h = cons-Either s x [] i h
insert_sorted-source s x (t ∷ ts) i h = elim (Bool-cases (bytes_le s t)) [
  | inl first ↦ cons-Either s x (t ∷ ts) i (rw first at h)
  | inr later ↦ elim (cons-Either t x (insert_sorted s ts) i (rw later at h)) [
    | inl own ↦ inr (zero, ground arith)
    | inr (j, there) ↦ elim (insert_sorted-source s x ts j there) [
      | inl new ↦ inl new
      | inr (k, old) ↦ inr (suc k, old)
    ]
  ]
]

not_empty : (subs : Subscribers) → 1 ≤ length subs → is_empty subs ≡ false
not_empty [] h = absurd (omega arith)
not_empty (x ∷ subs) h = refl

next_turn-small : (g : SharedGroup) → g.rr + 1 < u64 → next_turn g ≡ g.rr + 1
unfolding next_turn
next_turn-small g small = omega arith

sort_strings-member :
    (subs : Subscribers) (x : Bytes) (i : ℕ)
    → get_elem? (sort_strings (ids_of subs)) i ≡ some x
    → (sub : Subscriber) × (lookup x subs ≡ some sub)
unfolding sort_strings lookup
sort_strings-member [] x i h = absurd cc
sort_strings-member ((id, sub) ∷ subs) x i h = elim (Bool-cases (bytes_eq id x)) [
  | inl own ↦ (sub, rw own)
  | inr other ↦ elim (insert_sorted-source id x (sort_strings (ids_of subs)) i h) [
    | inl same ↦ absurd (ground (arith, bytes_eq_iff id x))
    | inr (j, there) ↦ let (found, e) = sort_strings-member subs x j there in (found, rw other e)
  ]
]

turn_index-next_turn :
    (g : SharedGroup) (n : ℕ) → g.rr + 1 < u64 → turn_index (next_turn g) n ≡ g.rr % n
unfolding turn_index next_turn
turn_index-next_turn g n small = ap (λ (k : ℕ). k % n) (omega arith)

-- The members in the order of their turns.
abbrev pub members : SharedGroup → List Bytes
members g = sort_strings (ids_of g.subs)

-- For a shared group with at least one member, a counter that does not reach 2^64 and a topic that
-- its filter matches: the member at the place of the counter modulo the number of members, in the
-- order of the client identifiers, gets the message, nobody else does, and the counter moves on by
-- one.
pub serve_group-turn :
    (topic payload : Bytes) (qos : ℕ) (g : SharedGroup)
    → 1 ≤ length g.subs
    → g.rr + 1 < u64
    → topic_matches_filter topic g.topic_filter ≡ true
    → (id : Bytes) × (sub : Subscriber) × (get_elem? (members g) (g.rr % length g.subs) ≡ some id)
      × (lookup id g.subs ≡ some sub)
      × (serve_group topic payload qos g
          ≡ (record g { rr = g.rr + 1 }, deliver_to topic payload qos false sub))
unfolding serve_group pick_member
serve_group-turn topic payload qos g some_member small match =
    let (id, there) =
      get_elem?-lt (members g) (g.rr % length g.subs)
        (rw (length-sort_strings g.subs) (mod-lt g.rr some_member)) in
    let (sub, found) = sort_strings-member g.subs id (g.rr % length g.subs) there in
    let picked : pick_member g ≡ some sub =
      rw
        (
          length-sort_strings g.subs,
          turn_index-next_turn g (length g.subs) small,
          there,
          pick_member,
        )
        found in
    (id, sub, there, found, served sub picked)
  where
    served :
        (sub : Subscriber)
        → pick_member g ≡ some sub
        → serve_group topic payload qos g
          ≡ (record g { rr = g.rr + 1 }, deliver_to topic payload qos false sub)
    served sub picked = rw (match, not_empty g.subs some_member, picked, next_turn-small g small)
