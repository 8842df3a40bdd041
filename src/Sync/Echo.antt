-- ===== src/Sync/Echo.antt =====
-- internal/sync/push.go: echoTracker, which knows the states that this client's own writes made.
pub mod Once
use beautiful_aerc.Prelude.{
  String, List, [], ◌∷◌, Option, none, some, Map, lookup, lookup_or, assign, erase, string_eq,
}
use beautiful_aerc.Backend.{ObjectKind}
use beautiful_aerc.Sync.Kinds.{kind_eq}

-- `byToken`; the ids of a token are a set, which is read by membership alone
abbrev pub Tracker : Type 0
Tracker = Map ObjectKind (Map String (List String))

unfoldable pub note : ObjectKind → String → List String → Tracker → Tracker
note kind token ids e = assign kind (assign token ids (lookup_or [] kind e)) e

-- The ids, none where the token is not known. A kind that has no tokens, which the code leaves
-- without a map, has an empty one here.
unfoldable pub consume : ObjectKind → String → Tracker → List String × Tracker
consume kind token e =
    let tokens = lookup_or [] kind e in
    (lookup_or [] token tokens, assign kind (erase token tokens) e)
