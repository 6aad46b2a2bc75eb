-- ===== src/Protocol/Topic.antt =====
-- Topic names and topic filters: the validation section of internal/protocol/packet.go.
use broker.Prelude.{
  ℕ, suc, ◌+◌, ◌==◌, ltb, leb, if◌then◌else◌, Bytes, codes, List, [], ◌∷◌, ◌++◌, length, take, drop,
  Bool, true, false, not, ◌&&◌, ◌||◌, Option, none, some, bytes_eq,
}

-- `t == ""`, and `len(segs) == 0`
abbrev pub is_empty {ℓ} : {A : Type ℓ} → List A → Bool
is_empty [] = true
is_empty (x ∷ xs) = false

abbrev pub max_topic_len : ℕ
max_topic_len = 65535

-- `c == '+' || c == '#' || c == 0`
unfoldable pub is_forbidden : ℕ → Bool
is_forbidden c = c == b'+' || c == b'#' || c == 0

-- The byte loop of `ValidTopicName`, and that of the `default` case of `validTopicFilterSegments`.
unfoldable pub no_forbidden : Bytes → Bool
unfolding is_forbidden
no_forbidden [] = true
no_forbidden (c ∷ t) = if is_forbidden c then false else no_forbidden t

unfoldable pub valid_topic_name : Bytes → Bool
unfolding no_forbidden
valid_topic_name t = if length t == 0 || ltb max_topic_len (length t) then false else no_forbidden t

-- `strings.HasPrefix(f, p)`
unfoldable pub has_prefix : Bytes → Bytes → Bool
has_prefix f [] = true
has_prefix [] (c ∷ p) = false
has_prefix (b ∷ f) (c ∷ p) = (b == c) && has_prefix f p

-- `strings.IndexByte(s, c)`; `none` is -1.
unfoldable pub index_byte : Bytes → ℕ → Option ℕ
index_byte [] c = none
index_byte (b ∷ s) c =
    let later = index_byte s c in
    if b == c then some 0 else elim later [ none ↦ none | some i ↦ some (suc i) ]

-- The loop over the runes of the share name. The four characters are ASCII, which UTF-8 never uses
-- inside a longer sequence, so that the bytes decide.
unfoldable pub valid_share_name : Bytes → Bool
unfolding is_forbidden
valid_share_name [] = true
valid_share_name (c ∷ s) = if is_forbidden c || c == b'/' then false else valid_share_name s

abbrev pub share_prefix : Bytes
share_prefix = codes "$share/"

-- What `ParseSharedTopicFilter` does once the slash of `rest` is known to be at `i`.
unfoldable pub split_share : Bytes → ℕ → Option (Bytes × Bytes)
unfolding valid_share_name has_prefix
split_share rest i =
    if i == 0 || leb (length rest) (i + 1)
    then none
    else if is_empty (take i rest) || is_empty (drop (i + 1) rest)
    then none
    else if not (valid_share_name (take i rest))
    then none
    else if has_prefix (drop (i + 1) rest) share_prefix
    then none
    else some (take i rest, drop (i + 1) rest)

unfoldable pub parse_shared_topic_filter : Bytes → Option (Bytes × Bytes)
unfolding has_prefix index_byte split_share
parse_shared_topic_filter f =
    if leb (length f) (length share_prefix + 1) || not (has_prefix f share_prefix)
    then none
    else elim (index_byte (drop (length share_prefix) f) b'/') [
      | none ↦ none
      | some i ↦ split_share (drop (length share_prefix) f) i
    ]

-- `splitFilter` of packet.go: the loop over the bytes. `segment` is `f[start:i]`.
unfoldable pub split_filter_loop : Bytes → Bytes → List Bytes → List Bytes
split_filter_loop [] segment segs = segs ++ (segment ∷ [])
split_filter_loop (c ∷ f) segment segs =
    split_filter_loop f (if c == b'/' then [] else segment ++ (c ∷ []))
      (if c == b'/' then segs ++ (segment ∷ []) else segs)

unfoldable pub split_filter : Bytes → List Bytes
unfolding split_filter_loop
split_filter f = split_filter_loop f [] []

-- One round of `validTopicFilterSegments`; `last` is `i == len(segs)-1`.
unfoldable pub valid_segment : Bytes → Bool → Bool
unfolding no_forbidden bytes_eq
valid_segment seg last =
    if bytes_eq seg (codes "#")
    then last
    else if bytes_eq seg (codes "+")
    then true
    else no_forbidden seg

unfoldable pub valid_topic_filter_segments : List Bytes → Bool
unfolding valid_segment
valid_topic_filter_segments [] = true
valid_topic_filter_segments (seg ∷ segs) =
    if valid_segment seg (is_empty segs) then valid_topic_filter_segments segs else false

unfoldable pub valid_topic_filter : Bytes → Bool
unfolding has_prefix parse_shared_topic_filter split_filter valid_topic_filter_segments
valid_topic_filter f =
    if length f == 0 || ltb max_topic_len (length f)
    then false
    else if has_prefix f share_prefix
    then elim (parse_shared_topic_filter f) [
      | some (share, inner) ↦ valid_topic_filter_segments (split_filter inner)
      | none ↦ false
    ]
    else valid_topic_filter_segments (split_filter f)
