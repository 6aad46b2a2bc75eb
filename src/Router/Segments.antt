-- ===== src/Router/Segments.antt =====
-- `splitFilter`, `TopicMatchesFilter` and `matchSegs` of internal/router/router.go.
pub mod Join
use broker.Prelude.{
  ℕ, ◌==◌, if◌then◌else◌, Bytes, codes, List, [], ◌∷◌, Bool, true, false, not, ◌&&◌, bytes_eq,
}
use broker.Protocol.Topic.{is_empty}

-- Puts a byte before the first piece.
abbrev pub cons_head : ℕ → List Bytes → List Bytes
cons_head c [] = (c ∷ []) ∷ []
cons_head c (seg ∷ segs) = (c ∷ seg) ∷ segs

-- `strings.Split(s, "/")`
unfoldable pub strings_split : Bytes → List Bytes
strings_split [] = [] ∷ []
strings_split (c ∷ s) = if c == b'/' then [] ∷ strings_split s else cons_head c (strings_split s)

unfoldable pub split_filter : Bytes → List Bytes
unfolding strings_split
split_filter f = if is_empty f then [] ∷ [] else strings_split f

-- `matchSegs(t, f, ti, fi)`: the two indices move together, so that the lists stand for the tails
-- `t[ti:]` and `f[fi:]`.
unfoldable pub match_segs : List Bytes → List Bytes → Bool
match_segs t [] = is_empty t
match_segs [] (seg ∷ f) = bytes_eq seg (codes "#")
match_segs (s ∷ t) (seg ∷ f) =
    if bytes_eq seg (codes "#")
    then true
    else if not (bytes_eq seg (codes "+")) && not (bytes_eq seg s)
    then false
    else match_segs t f

unfoldable pub topic_matches_filter : Bytes → Bytes → Bool
unfolding split_filter match_segs bytes_eq
topic_matches_filter topic filter = match_segs (split_filter topic) (split_filter filter)
