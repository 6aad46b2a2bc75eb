-- ===== src/Session/Store/Resumed.antt =====
-- What `GetOrCreate` of internal/session/session.go hands out.
use broker.Prelude.{
  ℕ, zero, suc, ◌<◌, Bytes, List, [], ◌∷◌, ◌++◌, Bool, true, false, if◌then◌else◌, Option, none,
  some, length, get_elem?, get_elem?-lt, length-append, ◌||◌, bytes_eq, bytes_eq_self, ◌≡◌, refl,
  arith, Bool-cases, Option-cases, inl, inr, bytes_eq_instance,
}
use broker.Prelude.Maps.{lookup, lookup-insert}
use broker.Session.{Session, new}
use broker.Session.Store.{Store, create, resumable, get_or_create}

-- The session that a client identifier leads to.
unfoldable pub session_of : Bytes → Store → Option Session
session_of client_id st = elim (lookup client_id st.data_of) [
  | none ↦ none
  | some p ↦ get_elem? st.heap p
]

-- A stored session that a client may take over: none on a clean start, else a persistent one.
unfoldable pub offered : Bool → Option Session → Option Session
offered clean none = none
offered clean (some s) = if clean || s.clean_session then none else some s

abbrev pub or_new : ℕ → Bytes → Bool → Option Session → Session
or_new now client_id clean none = new now client_id clean
or_new now client_id clean (some s) = s

abbrev pub is_some : Option Session → Bool
is_some none = false
is_some (some s) = true

-- Every pointer of the store leads to a session.
pub record IsAllocated (st : Store) : Type 0 where
  pub below : (id : Bytes) (p : ℕ) → lookup id st.data_of ≡ some p → p < length st.heap

get_elem?-append_last :
    (xs : List Session) (s : Session) → get_elem? (xs ++ (s ∷ [])) (length xs) ≡ some s
get_elem?-append_last [] s = refl
get_elem?-append_last (x ∷ xs) s = get_elem?-append_last xs s

get_elem?-append_below :
    (xs : List Session) (s : Session) (p : ℕ)
    → p < length xs
    → get_elem? (xs ++ (s ∷ [])) p ≡ get_elem? xs p
get_elem?-append_below [] s p h = absurd (omega arith)
get_elem?-append_below (x ∷ xs) s zero h = refl
get_elem?-append_below (x ∷ xs) s (suc p) h = get_elem?-append_below xs s p (omega arith)

session_of-create :
    (now : ℕ) (id : Bytes) (clean : Bool) (st : Store)
    → session_of id (create now id clean st).0 ≡ some (new now id clean)
unfolding session_of create
session_of-create now id clean st =
    rw (lookup-insert id id (length st.heap) st.data_of, bytes_eq_self id, session_of)
      (get_elem?-append_last st.heap (new now id clean))

session_of-create_other :
    (now : ℕ) (id j : Bytes) (clean : Bool) (st : Store)
    → IsAllocated st
    → bytes_eq id j ≡ false
    → session_of j (create now id clean st).0 ≡ session_of j st
unfolding session_of create
session_of-create_other now id j clean st ok other = elim (Option-cases (lookup j st.data_of)) [
  | inl missing ↦ rw (lookup-insert id j (length st.heap) st.data_of, other, session_of, missing)
  | inr (p, found) ↦
      rw (lookup-insert id j (length st.heap) st.data_of, other, session_of, found)
        (get_elem?-append_below st.heap (new now id clean) p (ok.below j p found))
]

create-IsAllocated :
    (now : ℕ) (id : Bytes) (clean : Bool) (st : Store)
    → IsAllocated st
    → IsAllocated (create now id clean st).0
unfolding create
create-IsAllocated now id clean st ok = record {
  below = λ j p found. ground (
    arith,
    lookup-insert id j (length st.heap) st.data_of,
    length-append st.heap (new now id clean ∷ []),
    ok.below j p,
  );
}

-- What `GetOrCreate` does to a session that is offered or not.
abbrev pub Handed : ℕ → Bytes → Bool → Store → Store × ℕ × Bool → Type 0
Handed now id clean st (st', p, existed) =
    (session_of id st' ≡ some (or_new now id clean (offered clean (session_of id st))))
    × (existed ≡ is_some (offered clean (session_of id st)))
    × (lookup id st'.data_of ≡ some p)
    × ((j : Bytes) → bytes_eq id j ≡ false → session_of j st' ≡ session_of j st)
    × IsAllocated st'

create-Handed :
    (now : ℕ) (id : Bytes) (clean : Bool) (st : Store)
    → IsAllocated st
    → offered clean (session_of id st) ≡ none
    → Handed now id clean st (create now id clean st)
unfolding create
create-Handed now id clean st ok fresh = (
  rw fresh (session_of-create now id clean st),
  rw fresh refl,
  rw (lookup-insert id id (length st.heap) st.data_of) (rw (bytes_eq_self id) refl),
  λ j other. session_of-create_other now id j clean st ok other,
  create-IsAllocated now id clean st ok,
)

offered_clean : (o : Option Session) → offered true o ≡ none
unfolding offered
offered_clean none = refl
offered_clean (some s) = refl

resumable-missing :
    (id : Bytes) (st : Store)
    → IsAllocated st
    → resumable id st ≡ none
    → offered false (session_of id st) ≡ none
unfolding resumable session_of offered
resumable-missing id st ok h = elim (Option-cases (lookup id st.data_of)) [
  | inl missing ↦ rw (missing, session_of)
  | inr (p, found) ↦
      let (s, there) = get_elem?-lt st.heap p (ok.below id p found) in
      elim (Bool-cases s.clean_session) [
        | inl clean ↦ rw (found, session_of, there, clean)
        | inr kept ↦ absurd (ground (arith, found, there, kept))
      ]
]

resumable-found :
    (id : Bytes) (st : Store) (p : ℕ)
    → resumable id st ≡ some p
    → (s : Session) × (lookup id st.data_of ≡ some p)
      × (session_of id st ≡ some s)
      × (offered false (session_of id st) ≡ some s)
unfolding resumable session_of offered
resumable-found id st p h = elim (Option-cases (lookup id st.data_of)) [
  | inl missing ↦ absurd (ground (arith, missing))
  | inr (q, found) ↦ elim (Option-cases (get_elem? st.heap q)) [
    | inl dangling ↦ absurd (ground (arith, found, dangling))
    | inr (s, there) ↦ elim (Bool-cases s.clean_session) [
      | inl clean ↦ absurd (ground (arith, found, there, clean))
      | inr kept ↦ (
        s,
        ground (arith, found, there, kept),
        rw (found, session_of, there),
        rw (found, session_of, there, kept),
      )
    ]
  ]
]

-- In a store without dangling pointers, `GetOrCreate` gives the client the persistent session that
-- the store holds for it, and reports it as resumed, unless a clean start is asked for; otherwise
-- it gives a fresh session and reports it as new. The pointer that it returns is the one that is
-- stored, the sessions of the other clients are not touched, and no pointer dangles afterwards.
pub get_or_create-Handed :
    (now : ℕ) (id : Bytes) (clean : Bool) (st : Store)
    → IsAllocated st
    → Handed now id clean st (get_or_create now id clean st)
unfolding get_or_create
get_or_create-Handed now id true st ok = create-Handed now id true st ok (offered_clean _)
get_or_create-Handed now id false st ok = elim (Option-cases (resumable id st)) [
  | inl missing ↦
      rw (missing, get_or_create)
        (create-Handed now id false st ok (resumable-missing id st ok missing))
  | inr (p, found) ↦
      let (s, stored, there, taken) = resumable-found id st p found in
      rw (found, get_or_create, taken) (there, refl, stored, λ j other. refl, ok)
]
