-- ===== src/Router/Matches.antt =====
-- What it means for a topic to match a filter, as a relation beside `matchSegs` of
-- internal/router/router.go.
use broker.Prelude.{
  Bytes, codes, List, [], ◌∷◌, true, bytes_eq, bytes_eq_iff, ◌≡◌, ◌↔◌, refl, arith, Bool-cases, inl,
  inr, ◌++◌, ◌⊎◌, ap, ◌∙◌,
}
use broker.Router.Segments.{match_segs}

abbrev pub hash_seg : Bytes
hash_seg = codes "#"

abbrev pub plus_seg : Bytes
plus_seg = codes "+"

pub data Matches : List Bytes → List Bytes → Type 0 where
  both_end : Matches [] []
  multi_level : {t f : List Bytes} {seg : Bytes} → seg ≡ hash_seg → Matches t (seg ∷ f)
  single_level :
      {t f : List Bytes} {s seg : Bytes} → seg ≡ plus_seg → Matches t f → Matches (s ∷ t) (seg ∷ f)
  same_segment :
      {t f : List Bytes} {s seg : Bytes} → seg ≡ s → Matches t f → Matches (s ∷ t) (seg ∷ f)

match_segs→Matches : (t f : List Bytes) → match_segs t f ≡ true → Matches t f
unfolding match_segs
match_segs→Matches [] [] h = both_end
match_segs→Matches (s ∷ t) [] h = cc
match_segs→Matches [] (seg ∷ f) h = multi_level ((bytes_eq_iff seg hash_seg).0 h)
match_segs→Matches (s ∷ t) (seg ∷ f) h = elim (Bool-cases (bytes_eq seg hash_seg)) [
  | inl e ↦ multi_level ((bytes_eq_iff seg hash_seg).0 e)
  | inr n ↦ elim (Bool-cases (bytes_eq seg plus_seg)) [
    | inl e ↦ single_level ((bytes_eq_iff seg plus_seg).0 e) (match_segs→Matches t f (ground arith))
    | inr m ↦ elim (Bool-cases (bytes_eq seg s)) [
      | inl e ↦ same_segment ((bytes_eq_iff seg s).0 e) (match_segs→Matches t f (ground arith))
      | inr o ↦ absurd (ground arith)
    ]
  ]
]

Matches→match_segs : {t f : List Bytes} → Matches t f → match_segs t f ≡ true
unfolding match_segs
Matches→match_segs both_end = refl
Matches→match_segs (multi_level {t} {f} {seg} e) = hashed t
  where
    hashed : (u : List Bytes) → match_segs u (seg ∷ f) ≡ true
    hashed [] = (bytes_eq_iff seg hash_seg).1 e
    hashed (s ∷ u) = ground (arith, bytes_eq_iff seg hash_seg)
Matches→match_segs (single_level {t} {f} {s} {seg} e m) =
    ground (arith, bytes_eq_iff seg plus_seg, Matches→match_segs m)
Matches→match_segs (same_segment {t} {f} {s} {seg} e m) =
    ground (arith, bytes_eq_iff seg s, Matches→match_segs m)

pub match_segs_iff : (t f : List Bytes) → (match_segs t f ≡ true) ↔ Matches t f
match_segs_iff t f = (match_segs→Matches t f, Matches→match_segs)

-- `#` stands last if it stands at all.
abbrev pub HashLast : List Bytes → Type 0
HashLast [] = Unit {0}
HashLast (seg ∷ p) = (seg ≡ hash_seg → p ≡ []) × HashLast p

-- As many segments on both sides, each `+` or equal.
pub data Takes : List Bytes → List Bytes → Type 0 where
  ends : Takes [] []
  takes :
      {t f : List Bytes} (s seg : Bytes)
      → (seg ≡ plus_seg) ⊎ (seg ≡ s)
      → Takes t f
      → Takes (s ∷ t) (seg ∷ f)

-- The filter takes the whole topic, or it ends with `#` and what is before that takes the start of
-- the topic.
abbrev pub Covers : List Bytes → List Bytes → Type 0
Covers t f =
    Takes t f
    ⊎ ((pre : List Bytes) × (front : List Bytes) × (back : List Bytes) × (f
          ≡ pre ++ (hash_seg ∷ []))
        × (t ≡ front ++ back)
        × Takes front pre)

one_more :
    {t f : List Bytes} (s seg : Bytes)
    → (seg ≡ plus_seg) ⊎ (seg ≡ s)
    → Covers t f
    → Covers (s ∷ t) (seg ∷ f)
one_more s seg one (inl m) = inl (takes s seg one m)
one_more s seg one (inr (pre, front, back, filter_is, topic_is, m)) = inr (
  seg ∷ pre,
  s ∷ front,
  back,
  ap (λ l. seg ∷ l) filter_is,
  ap (λ l. s ∷ l) topic_is,
  takes s seg one m,
)

Matches→Covers : {t f : List Bytes} → Matches t f → HashLast f → Covers t f
Matches→Covers both_end last = inl ends
Matches→Covers (multi_level {t} {f} {seg} e) last =
    inr ([], [], t, ap (λ l. seg ∷ l) (last.0 e) ∙ ap (λ s. s ∷ []) e, refl, ends)
Matches→Covers (single_level {s = s} {seg} e m) last =
    one_more s seg (inl e) (Matches→Covers m last.1)
Matches→Covers (same_segment {s = s} {seg} e m) last =
    one_more s seg (inr e) (Matches→Covers m last.1)

Takes→Matches : {t f : List Bytes} → Takes t f → Matches t f
Takes→Matches ends = both_end
Takes→Matches (takes s seg (inl e) m) = single_level e (Takes→Matches m)
Takes→Matches (takes s seg (inr e) m) = same_segment e (Takes→Matches m)

Takes→Matches_hash :
    {t f : List Bytes} (back : List Bytes) → Takes t f → Matches (t ++ back) (f ++ (hash_seg ∷ []))
Takes→Matches_hash back ends = multi_level refl
Takes→Matches_hash back (takes s seg (inl e) m) = single_level e (Takes→Matches_hash back m)
Takes→Matches_hash back (takes s seg (inr e) m) = same_segment e (Takes→Matches_hash back m)

Covers→Matches : {t f : List Bytes} → Covers t f → Matches t f
Covers→Matches (inl m) = Takes→Matches m
Covers→Matches (inr (pre, front, back, filter_is, topic_is, m)) =
    rw (filter_is, topic_is) (Takes→Matches_hash back m)

-- For a filter with `#` as its last segment if at all, `matchSegs` returns true exactly if the
-- filter has as many segments as the topic, each `+` or equal to the one of the topic, or ends
-- with `#` and has this relation before it to the start of the topic.
pub match_segs-Covers : (t f : List Bytes) → HashLast f → (match_segs t f ≡ true) ↔ Covers t f
match_segs-Covers t f last = (
  λ e. Matches→Covers (match_segs→Matches t f e) last,
  λ m. Matches→match_segs (Covers→Matches m),
)
