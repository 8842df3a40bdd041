-- ===== src/Sync/Echo/Once.antt =====
-- What echoTracker of internal/sync/push.go gives back of what it was told.
use beautiful_aerc.Prelude.MapLaws.{lookup_or-assign, lookup_or-erase}
use beautiful_aerc.Prelude.{
  String, List, [], lookup_or, assign, erase, string_eq, ◌==◌, ==-refl, ◌≡◌, refl, ap, ◌∙◌, Bool,
  true, false, ◌&&◌, if◌then◌else◌, inl, inr, Bool-cases, ==→≡,
}
use beautiful_aerc.Backend.{ObjectKind}
use beautiful_aerc.Sync.Kinds.{kind_eq}
use beautiful_aerc.Sync.Echo.{Tracker, note, consume}

-- the ids that a tracker has for a token of a kind
abbrev pub known : ObjectKind → String → Tracker → List String
known kind token e = lookup_or [] token (lookup_or [] kind e)

known-note :
    (k kind : ObjectKind) (t token : String) (ids : List String) (e : Tracker)
    → known k t (note kind token ids e) ≡ (if kind == k && token == t then ids else known k t e)
unfolding note
known-note k kind t token ids e = elim (Bool-cases (kind == k)) [
  | inr other ↦
      rw (lookup_or-assign [] kind k (assign token ids (lookup_or [] kind e)) e, other) refl
  | inl same ↦
      rw
        (
          lookup_or-assign [] kind k (assign token ids (lookup_or [] kind e)) e,
          same,
          lookup_or-assign [] token t ids (lookup_or [] kind e),
        )
        (ap (λ j. if token == t then ids else known j t e) (==→≡ kind k same))
]

left_by-consume :
    (k kind : ObjectKind) (t token : String) (e : Tracker)
    → known k t (consume kind token e).1 ≡ (if kind == k && token == t then [] else known k t e)
unfolding consume
left_by-consume k kind t token e = elim (Bool-cases (kind == k)) [
  | inr other ↦ rw (lookup_or-assign [] kind k (erase token (lookup_or [] kind e)) e, other) refl
  | inl same ↦
      rw
        (
          lookup_or-assign [] kind k (erase token (lookup_or [] kind e)) e,
          same,
          lookup_or-erase [] token t (lookup_or [] kind e),
        )
        (ap (λ j. if token == t then [] else known j t e) (==→≡ kind k same))
]

own_case :
    (kind : ObjectKind) (token : String) (x y : List String)
    → (if kind == kind && token == token then x else y) ≡ x
own_case kind token x y = rw (==-refl kind, ==-refl token) refl

twice :
    (b : Bool) (x y : List String) → (if b then [] else if b then x else y) ≡ (if b then [] else y)
twice true x y = refl
twice false x y = refl

-- What is noted for a kind and a token is given back once: consuming it gives the ids that were
-- noted last, consuming it again gives none, and what is known of another kind or token stays.
pub consume-note :
    (kind k : ObjectKind) (token t : String) (ids : List String) (e : Tracker)
    → let noted = note kind token ids e in
      let left = (consume kind token noted).1 in
      ((consume kind token noted).0 ≡ ids)
      × ((consume kind token left).0 ≡ [])
      × ((consume k t left).0 ≡ (if kind == k && token == t then [] else (consume k t e).0))
unfolding consume
consume-note kind k token t ids e =
    let noted = note kind token ids e in
    let same = kind == k && token == t in
    (
      known-note kind kind token token ids e ∙ own_case kind token ids (known kind token e),
      left_by-consume kind kind token token noted ∙ own_case kind token [] (known kind token noted),
      left_by-consume k kind t token noted
          ∙ ap (λ x. if same then [] else x) (known-note k kind t token ids e)
          ∙ twice same ids (known k t e),
    )
