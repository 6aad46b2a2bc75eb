-- ===== src/Router/Trie/Matching.antt =====
-- `matchNode` of internal/router/router.go in terms of the paths of a trie.
use broker.Prelude.{
  ℕ, Bytes, List, [], ◌∷◌, Option, none, some, ◌≡◌, ◌⊎◌, refl, arith, Option-cases, inl, inr,
  bytes_eq_instance,
}
use broker.Prelude.Maps.{lookup, Unique}
use broker.Router.Matches.{
  HashLast, Matches, both_end, multi_level, single_level, same_segment, hash_seg, plus_seg,
}
use broker.Router.Trie.{
  Node, node, Children, child_at, Subscriber, Subscribers, subscribers, merge_hash, match_node,
}
use broker.Router.Trie.Paths.{subs_at, subs_below, subs_at-cons}
use broker.Router.Trie.Merge.{AtLeast, merge-AtLeast, merge-AtLeast_source, merge-lookup}

-- A recursive call of `matchNode` on a child that may be missing.
abbrev pub visit : List Bytes → Option Node → Subscribers → Subscribers
visit segs none out = out
visit segs (some c) out = match_node segs c out

pub match_node-cons :
    (seg : Bytes) (segs : List Bytes) (ch : Children) (subs out : Subscribers)
    → match_node (seg ∷ segs) (node ch subs) out
      ≡ visit segs (child_at plus_seg ch) (visit segs (child_at seg ch) (merge_hash ch out))
unfolding match_node
match_node-cons seg segs ch subs out = ground arith

module _ (c : Bytes) (q : ℕ) where
  merge_hash-AtLeast :
      (ch : Children) (out : Subscribers) → AtLeast q c out → AtLeast q c (merge_hash ch out)
  merge_hash-AtLeast ch out h = elim (Option-cases (child_at hash_seg ch)) [
    | inl missing ↦ rw (missing, merge_hash) h
    | inr (n, found) ↦ rw (found, merge_hash) (merge-AtLeast (subscribers n) c q out h)
  ]

  visit-AtLeast :
      (segs : List Bytes)
      → ((n : Node) (out : Subscribers) → AtLeast q c out → AtLeast q c (match_node segs n out))
      → (o : Option Node) (out : Subscribers) → AtLeast q c out
      → AtLeast q c (visit segs o out)
  visit-AtLeast segs keep none out h = h
  visit-AtLeast segs keep (some n) out h = keep n out h

  -- Nothing is lost on the way.
  pub match_node-AtLeast :
      (segs : List Bytes) (n : Node) (out : Subscribers)
      → AtLeast q c out
      → AtLeast q c (match_node segs n out)
  match_node-AtLeast [] (node ch subs) out h =
      unfold match_node in merge-AtLeast subs c q (merge_hash ch out) (merge_hash-AtLeast ch out h)
  match_node-AtLeast (seg ∷ segs) (node ch subs) out h = rw (match_node-cons seg segs ch subs out) (
      visit-AtLeast segs (match_node-AtLeast segs) (child_at plus_seg ch) _ (
        visit-AtLeast segs (match_node-AtLeast segs) (child_at seg ch) _
          (merge_hash-AtLeast ch out h)))

  -- What the `#` child brought stays.
  hashed-AtLeast :
      (segs : List Bytes) (ch : Children) (subs out : Subscribers)
      → AtLeast q c (merge_hash ch out)
      → AtLeast q c (match_node segs (node ch subs) out)
  hashed-AtLeast [] ch subs out h =
      unfold match_node in merge-AtLeast subs c q (merge_hash ch out) h
  hashed-AtLeast (seg ∷ segs) ch subs out h = rw (match_node-cons seg segs ch subs out) (
      visit-AtLeast segs (match_node-AtLeast segs) (child_at plus_seg ch) _
        (visit-AtLeast segs (match_node-AtLeast segs) (child_at seg ch) _ h))

module _ (c : Bytes) (s : Subscriber) where
  merge_hash-found :
      (ch : Children) (out : Subscribers)
      → lookup c (subs_below [] (child_at hash_seg ch)) ≡ some s
      → AtLeast s.qos c (merge_hash ch out)
  unfolding lookup subs_at
  merge_hash-found ch out h = elim (Option-cases (child_at hash_seg ch)) [
    | inl missing ↦ ground (arith, missing)
    | inr (n, found) ↦
        rw (found, merge_hash)
          (merge-AtLeast_source (subscribers n) c s out (ground (arith, found)))
  ]

  visit-found :
      (segs p : List Bytes)
      → ((n : Node) (out : Subscribers)
          → lookup c (subs_at p n) ≡ some s
          → AtLeast s.qos c (match_node segs n out))
      → (o : Option Node) (out : Subscribers) → lookup c (subs_below p o) ≡ some s
      → AtLeast s.qos c (visit segs o out)
  unfolding lookup
  visit-found segs p find none out h = cc
  visit-found segs p find (some n) out h = find n out h

  -- A subscriber whose filter matches is found, or one of the same client with a higher QoS.
  pub match_node-found :
      {segs p : List Bytes} (m : Matches segs p) (n : Node) (out : Subscribers)
      → HashLast p
      → lookup c (subs_at p n) ≡ some s
      → AtLeast s.qos c (match_node segs n out)
  match_node-found both_end (node ch subs) out last h =
      unfold match_node subs_at in merge-AtLeast_source subs c s (merge_hash ch out) h
  match_node-found (multi_level {t} {f} {seg} e) (node ch subs) out last h =
      hashed-AtLeast c s.qos t ch subs out
        (merge_hash-found ch out (rw (← e, ← last.0 e, ← subs_at-cons seg f ch subs) h))
  match_node-found (single_level {t} {f} {s = x} {seg} e m) (node ch subs) out last h =
      rw (match_node-cons x t ch subs out) (
        visit-found t f (λ n out'. match_node-found m n out' last.1) (child_at plus_seg ch) _
          (rw (← e, ← subs_at-cons seg f ch subs) h))
  match_node-found (same_segment {t} {f} {s = x} {seg} e m) (node ch subs) out last h =
      rw (match_node-cons x t ch subs out) (
        visit-AtLeast c s.qos t (match_node-AtLeast c s.qos t) (child_at plus_seg ch) _ (
          visit-found t f (λ n out'. match_node-found m n out' last.1) (child_at x ch) _
            (rw (← e, ← subs_at-cons seg f ch subs) h)))

  -- Where an entry of the result comes from.
  abbrev CameFrom : List Bytes → Node → Subscribers → Type 0
  CameFrom segs n out =
      (lookup c out ≡ some s)
      ⊎ ((p : List Bytes) × Matches segs p × (lookup c (subs_at p n) ≡ some s))

  merge_hash-source :
      (ch : Children) (out : Subscribers)
      → ((p : List Bytes) → Unique (subs_below p (child_at hash_seg ch)))
      → lookup c (merge_hash ch out) ≡ some s
      → (lookup c out ≡ some s) ⊎ (lookup c (subs_below [] (child_at hash_seg ch)) ≡ some s)
  unfolding subs_at
  merge_hash-source ch out u h = elim (Option-cases (child_at hash_seg ch)) [
    | inl missing ↦ inl (rw (missing, merge_hash) at h)
    | inr (n, found) ↦
        let unique : Unique (subscribers n) = rw found at u [] in
        elim (merge-lookup (subscribers n) c s out unique (rw (found, merge_hash) at h)) [
          | inl before ↦ inl before
          | inr brought ↦ inr (rw found brought)
        ]
  ]

  -- The same for a call on a child that may be missing.
  abbrev Below : List Bytes → Option Node → Subscribers → Type 0
  Below segs o out =
      (lookup c out ≡ some s)
      ⊎ ((p : List Bytes) × Matches segs p × (lookup c (subs_below p o) ≡ some s))

  visit-source :
      (segs : List Bytes)
      → ((n : Node) (out : Subscribers)
          → ((p : List Bytes) → Unique (subs_at p n))
          → lookup c (match_node segs n out) ≡ some s
          → CameFrom segs n out)
      → (o : Option Node) (out : Subscribers) → ((p : List Bytes) → Unique (subs_below p o))
      → lookup c (visit segs o out) ≡ some s
      → Below segs o out
  visit-source segs find none out u h = inl h
  visit-source segs find (some n) out u h = find n out u h

  -- Whatever is found was there before, or stands at a path that the topic matches.
  pub match_node-source :
      (segs : List Bytes) (n : Node) (out : Subscribers)
      → ((p : List Bytes) → Unique (subs_at p n))
      → lookup c (match_node segs n out) ≡ some s
      → CameFrom segs n out
  match_node-source [] (node ch subs) out u h =
      let split : (lookup c (merge_hash ch out) ≡ some s) ⊎ (lookup c subs ≡ some s) =
        unfold match_node subs_at in merge-lookup subs c s (merge_hash ch out) (u []) h in
      elim split [
        | inr own ↦ inr ([], both_end, unfold subs_at in own)
        | inl hashed ↦
            elim (merge_hash-source ch out (λ p. rw subs_at-cons at (u (hash_seg ∷ p))) hashed) [
              | inl before ↦ inl before
              | inr multi ↦
                  inr (hash_seg ∷ [], multi_level refl, rw (subs_at-cons hash_seg [] ch subs) multi)
            ]
      ]
  match_node-source (seg ∷ segs) (node ch subs) out u h =
      elim (visit-source segs (match_node-source segs) (child_at plus_seg ch) _
        (λ p. rw subs_at-cons at (u (plus_seg ∷ p)))
        (rw (match_node-cons seg segs ch subs out) at h)) [
          | inr (p, m, own) ↦
              inr (plus_seg ∷ p, single_level refl m, rw (subs_at-cons plus_seg p ch subs) own)
          | inl exact ↦
              elim (visit-source segs (match_node-source segs) (child_at seg ch) _
                (λ p. rw subs_at-cons at (u (seg ∷ p))) exact) [
                  | inr (p, m, own) ↦
                      inr (seg ∷ p, same_segment refl m, rw (subs_at-cons seg p ch subs) own)
                  | inl hashed ↦
                      elim (merge_hash-source ch out (λ p. rw subs_at-cons at (u (hash_seg ∷ p)))
                        hashed) [
                          | inl before ↦ inl before
                          | inr multi ↦ inr (
                            hash_seg ∷ [],
                            multi_level refl,
                            rw (subs_at-cons hash_seg [] ch subs) multi,
                          )
                        ]
                ]
        ]
