-- ===== src/Jmap/Events/Reader/Resume.antt =====
-- The id that a reconnect resends, in `next` of jmap/eventstream.go.
use beautiful_aerc.Prelude.{
  List, [], ◌∷◌, Bool, true, false, not, ◌&&◌, ltb, ◌≡◌, refl, ap, ◌∙◌, arith, length, Bool-cases,
  inl, inr,
}
use beautiful_aerc.Jmap.Events.{Bytes}
use beautiful_aerc.Jmap.Events.Reader.{
  max_event_bytes, EventReader, Next, dispatched, Fields, is_empty, is_data, same_bytes, cut,
  trim_space, has_nul, event_field, data_field, id_field, take_field, line_of, read_next,
}

-- no line of these ends an event
abbrev pub none_blank : Bool → List Bytes → Bool
none_blank started [] = true
none_blank started (raw ∷ lines) =
    not (is_empty (line_of (record { started = started; id_buffer = []; last_id = [] }) raw))
    && none_blank true lines

abbrev pub is_event : Next → Bool
is_event (dispatched e) = true
is_event _ = false

last_id-take_field :
    (line : Bytes) (f : Fields) (r : EventReader)
    → ((take_field line f r).1.last_id ≡ r.last_id) × ((take_field line f r).1.started ≡ r.started)
unfolding take_field
last_id-take_field line f r = elim (Bool-cases (same_bytes (cut line).0 event_field)) [
  | inl named ↦ rw (take_field, named) (refl, refl)
  | inr unnamed ↦ elim (Bool-cases (same_bytes (cut line).0 data_field)) [
    | inl payload ↦ rw (take_field, unnamed, payload) (refl, refl)
    | inr other ↦
        elim (Bool-cases
          (same_bytes (cut line).0 id_field && not (has_nul (trim_space (cut line).1)))) [
            | inl id ↦ rw (take_field, unnamed, other, id) (refl, refl)
            | inr ignored ↦ rw (take_field, unnamed, other, ignored) (refl, refl)
          ]
  ]
]

-- However many fields arrive, and ids among them: without a blank line after them, at the end of a
-- broken stream or at data above the bound, `next` gives no event, and the id that a reconnect
-- resends is the one from before.
pub last_id-read_next :
    (lines : List Bytes) (f : Fields) (r : EventReader)
    → none_blank r.started lines ≡ true
    → ((read_next f r lines).1.last_id ≡ r.last_id) × (is_event (read_next f r lines).0 ≡ false)
unfolding read_next
last_id-read_next [] f r h = (refl, refl)
last_id-read_next (raw ∷ lines) f r h =
    let line = line_of r raw in
    let begun : EventReader = record r { started = true } in
    let (same, begun_still) = last_id-take_field line f begun in
    let t = take_field line f begun in
    let full : is_empty line ≡ false = ground (arith, h) in
    elim (Bool-cases (is_data line && ltb max_event_bytes (length t.0.payload))) [
      | inl over ↦ rw (read_next, full, over) (same, refl)
      | inr fits ↦
          rw (read_next, full, fits)
            (let ih =
                last_id-read_next lines t.0 t.1
                  (ap (λ b. none_blank b lines) begun_still ∙ ground (arith, h)) in
              (ih.0 ∙ same, ih.1))
    ]
