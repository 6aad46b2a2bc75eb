-- ===== src/Session/Store.antt =====
-- `Store` of internal/session/session.go: a map from client identifiers to `*Session`. The sessions
-- that the pointers lead to are a heap, a list that only grows; a pointer is a position in it.
pub mod Resumed
use broker.Prelude.{
  ℕ, Bytes, List, [], ◌∷◌, ◌++◌, Bool, true, false, not, if◌then◌else◌, Option, none, some, length,
  get_elem?, bytes_eq_instance,
}
use broker.Prelude.Maps.{lookup, insert, delete}
use broker.Session.{Session, new}

pub record Store : Type 0 where
  pub data_of : List (Bytes × ℕ)
  pub heap : List Session

abbrev pub new_store : Store
new_store = record { data_of = []; heap = [] }

-- `s.data[clientID] = New(clientID, clean)`: the store, the pointer, and that it is new.
unfoldable pub create : ℕ → Bytes → Bool → Store → Store × ℕ × Bool
create now client_id clean st =
    let p = length st.heap in
    (
      record {
        data_of = insert client_id p st.data_of;
        heap = st.heap ++ (new now client_id clean ∷ []);
      },
      p,
      false,
    )

-- A stored session that a persistent client takes over. `none` in the heap would be a nil pointer.
unfoldable pub resumable : Bytes → Store → Option ℕ
resumable client_id st = elim (lookup client_id st.data_of) [
  | none ↦ none
  | some p ↦ elim (get_elem? st.heap p) [
    | none ↦ none
    | some existing ↦ if existing.clean_session then none else some p
  ]
]

unfoldable pub get_or_create : ℕ → Bytes → Bool → Store → Store × ℕ × Bool
unfolding create resumable
get_or_create now client_id clean st =
    if clean then create now client_id true st else elim (resumable client_id st) [
      | none ↦ create now client_id false st
      | some p ↦ (st, p, true)
    ]

unfoldable pub get : Bytes → Store → Option ℕ
get client_id st = lookup client_id st.data_of

unfoldable pub delete_session : Bytes → Store → Store
delete_session client_id st = record st { data_of = delete client_id st.data_of }

unfoldable pub count : Store → ℕ
count st = length st.data_of
