-- ===== src/Router/Trie/Paths.antt =====
-- The view of a trie by path: the subscribers that stand at the end of a list of segments.
use broker.Prelude.{
  if◌then◌else◌, Bytes, List, [], ◌∷◌, Bool, true, false, ◌&&◌, Option, none, some, bytes_eq,
  bytes_eq_iff, bytes_eq_self, ◌≡◌, refl, ◌↔◌, arith,
}
use broker.Router.Trie.{
  Node, node, Children, no_child, child, child_at, put_child, delete_child, Subscribers,
  subscribers, new_node, or_new,
}

unfoldable pub subs_at : List Bytes → Node → Subscribers
unfolding child_at
subs_at [] n = subscribers n
subs_at (seg ∷ p) (node ch subs) = elim (child_at seg ch) [ none ↦ [] | some c ↦ subs_at p c ]

-- The same below a child that may be missing.
abbrev pub subs_below : List Bytes → Option Node → Subscribers
subs_below p none = []
subs_below p (some c) = subs_at p c

unfoldable pub path_eq : List Bytes → List Bytes → Bool
path_eq [] [] = true
path_eq [] (s ∷ q) = false
path_eq (s ∷ p) [] = false
path_eq (s ∷ p) (t ∷ q) = bytes_eq s t && path_eq p q

path_eq→eq : (p q : List Bytes) → path_eq p q ≡ true → p ≡ q
unfolding path_eq
path_eq→eq [] [] h = refl
path_eq→eq [] (t ∷ q) h = cc
path_eq→eq (s ∷ p) [] h = cc
path_eq→eq (s ∷ p) (t ∷ q) h = ground (arith, bytes_eq_iff s t, path_eq→eq p q)

path_eq_self : (p : List Bytes) → path_eq p p ≡ true
unfolding path_eq
path_eq_self [] = refl
path_eq_self (s ∷ p) = rw (bytes_eq_self s, path_eq_self p)

pub path_eq_iff : (p q : List Bytes) → (path_eq p q ≡ true) ↔ (p ≡ q)
path_eq_iff p q = (path_eq→eq p q, λ e. rw e (path_eq_self q))

pub child_at-put_child :
    (s t : Bytes) (c : Node) (ch : Children)
    → child_at t (put_child s c ch) ≡ (if bytes_eq s t then some c else child_at t ch)
unfolding child_at put_child
child_at-put_child s t c no_child = refl
child_at-put_child s t c (child u n ch) =
    ground
      (arith, bytes_eq_iff s t, bytes_eq_iff u s, bytes_eq_iff u t, child_at-put_child s t c ch)

pub child_at-delete_child :
    (s t : Bytes) (ch : Children)
    → child_at t (delete_child s ch) ≡ (if bytes_eq s t then none else child_at t ch)
unfolding child_at delete_child
child_at-delete_child s t no_child = ground arith
child_at-delete_child s t (child u n ch) =
    ground
      (arith, bytes_eq_iff s t, bytes_eq_iff u s, bytes_eq_iff u t, child_at-delete_child s t ch)

pub subs_at-cons :
    (seg : Bytes) (p : List Bytes) (ch : Children) (subs : Subscribers)
    → subs_at (seg ∷ p) (node ch subs) ≡ subs_below p (child_at seg ch)
unfolding subs_at
subs_at-cons seg p ch subs = ground arith

pub subs_at-new_node : (p : List Bytes) → subs_at p new_node ≡ []
unfolding subs_at
subs_at-new_node [] = refl
subs_at-new_node (s ∷ p) = refl

pub subs_at-or_new : (p : List Bytes) (o : Option Node) → subs_at p (or_new o) ≡ subs_below p o
subs_at-or_new p none = subs_at-new_node p
subs_at-or_new p (some c) = refl
