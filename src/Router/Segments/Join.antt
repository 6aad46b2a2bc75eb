-- ===== src/Router/Segments/Join.antt =====
-- The inverse of splitting at slashes, and the two functions `splitFilter`, of
-- internal/router/router.go and of internal/protocol/packet.go.
use broker.Prelude.{
  ℕ, ◌==◌, ==_iff, Bytes, List, [], ◌∷◌, ◌++◌, ◌≡◌, refl, sym, ap, ◌∙◌, append-nil, append_assoc,
  Bool-cases, inl, inr,
}
use broker.Protocol.Topic
use broker.Protocol.Topic.{is_empty, split_filter_loop}
use broker.Router.Segments.{cons_head, strings_split, split_filter}

abbrev pub join : List Bytes → Bytes
join [] = []
join (s ∷ []) = s
join (s ∷ t ∷ segs) = s ++ (b'/' ∷ join (t ∷ segs))

join-cons_head : (c : ℕ) (segs : List Bytes) → join (cons_head c segs) ≡ c ∷ join segs
join-cons_head c [] = refl
join-cons_head c (s ∷ []) = refl
join-cons_head c (s ∷ t ∷ segs) = refl

-- Behind a slash stands a further piece.
join-slash : (s : Bytes) → join ([] ∷ strings_split s) ≡ b'/' ∷ join (strings_split s)
unfolding strings_split
join-slash [] = refl
join-slash (c ∷ s) = elim (Bool-cases (c == b'/')) [
  | inl e ↦ rw (e)
  | inr n ↦ rw (n) (heads (strings_split s))
]
  where
    heads : (segs : List Bytes) → join ([] ∷ cons_head c segs) ≡ b'/' ∷ join (cons_head c segs)
    heads [] = refl
    heads (t ∷ segs) = refl

join-strings_split : (f : Bytes) → join (strings_split f) ≡ f
unfolding strings_split
join-strings_split [] = refl
join-strings_split (c ∷ f) = elim (Bool-cases (c == b'/')) [
  | inl e ↦
      rw e (
        join-slash f
        ∙ rw (join-strings_split f) (ap (λ (x : ℕ). x ∷ f) (sym ((==_iff c b'/').0 e))))
  | inr n ↦ rw n (join-cons_head c (strings_split f) ∙ rw (join-strings_split f))
]

pub split_filter-strings_split : (f : Bytes) → split_filter f ≡ strings_split f
unfolding split_filter
split_filter-strings_split [] = refl
split_filter-strings_split (c ∷ f) = refl

-- Nothing is lost: the pieces joined by slashes are the filter.
pub join-split_filter : (f : Bytes) → join (split_filter f) ≡ f
join-split_filter f = rw split_filter-strings_split (join-strings_split f)

pub split_filter_inj : (f g : Bytes) → split_filter f ≡ split_filter g → f ≡ g
split_filter_inj f g e = sym (join-split_filter f) ∙ ap join e ∙ join-split_filter g

-- The bytes read so far, put before the first piece.
abbrev prepend : Bytes → List Bytes → List Bytes
prepend segment [] = segment ∷ []
prepend segment (s ∷ segs) = (segment ++ s) ∷ segs

prepend-cons_head :
    (segment : Bytes) (c : ℕ) (segs : List Bytes)
    → prepend (segment ++ (c ∷ [])) segs ≡ prepend segment (cons_head c segs)
prepend-cons_head segment c [] = refl
prepend-cons_head segment c (s ∷ segs) =
    ap (λ (t : Bytes). t ∷ segs) (append_assoc segment (c ∷ []) s)

prepend-nil : (f : Bytes) → prepend [] (strings_split f) ≡ strings_split f
unfolding strings_split
prepend-nil [] = refl
prepend-nil (c ∷ f) = elim (Bool-cases (c == b'/')) [
  | inl e ↦ rw e
  | inr n ↦ rw n (heads (strings_split f))
]
  where
    heads : (segs : List Bytes) → prepend [] (cons_head c segs) ≡ cons_head c segs
    heads [] = refl
    heads (s ∷ segs) = refl

split_filter_loop-prepend :
    (f segment : Bytes) (segs : List Bytes)
    → split_filter_loop f segment segs ≡ segs ++ prepend segment (strings_split f)
unfolding split_filter_loop strings_split
split_filter_loop-prepend [] segment segs = rw append-nil
split_filter_loop-prepend (c ∷ f) segment segs = elim (Bool-cases (c == b'/')) [
  | inl e ↦ rw e (
      split_filter_loop-prepend f [] (segs ++ (segment ∷ []))
      ∙ rw (prepend-nil, append-nil) (append_assoc segs (segment ∷ []) (strings_split f)))
  | inr n ↦ rw n (
      split_filter_loop-prepend f (segment ++ (c ∷ [])) segs
      ∙ ap (◌++◌ segs) (prepend-cons_head segment c (strings_split f)))
]

-- The byte loop `splitFilter` of package protocol and the `splitFilter` of package router, which
-- calls `strings.Split`, compute the same segments of every filter.
pub split_filter_agree : (f : Bytes) → Topic.split_filter f ≡ split_filter f
unfolding Topic.split_filter
split_filter_agree f =
    split_filter_loop-prepend f [] [] ∙ prepend-nil f ∙ sym (split_filter-strings_split f)
