-- ===== src/Jmap/Events/Reader/RoundTrip.antt =====
-- An event of jmap/eventstream.go, written by the server and read by `next`.
use mathlib.Core.List.{append_assoc, append-nil}
use beautiful_aerc.Prelude.{
  ℕ, ◌+◌, ◌≤◌, List, [], ◌∷◌, ◌++◌, map, length, Bool, true, false, ltb, nat_eq, ◌≡◌, refl, sym, ap,
  ◌∙◌, arith, length-append,
}
use beautiful_aerc.Jmap.Events.{Bytes}
use beautiful_aerc.Jmap.Events.Reader.{
  max_event_bytes, EventReader, dispatched, Fields, no_fields, is_empty, trim_newline, has_nul,
  event_field, data_field, id_field, take_field, event_of, read_next, next,
}

-- a field on its line: the name, a colon, a space, the value
abbrev pub field_line : Bytes → Bytes → Bytes
field_line field value = field ++ (58 ∷ 32 ∷ value)

abbrev pub data_lines : List Bytes → List Bytes
data_lines ds = map (field_line data_field) ds

-- an event, with the lines of its data, up to its blank line
abbrev pub event_lines : Bytes → Bytes → List Bytes → List Bytes → List Bytes
event_lines id name ds rest =
    field_line id_field id ∷ field_line event_field name ∷ (data_lines ds ++ [] ∷ rest)

-- lines parted by newlines, and the bytes that they take with a newline each
abbrev pub join_lines : List Bytes → Bytes
join_lines [] = []
join_lines (d ∷ []) = d
join_lines (d ∷ e ∷ ds) = d ++ 10 ∷ join_lines (e ∷ ds)

abbrev pub ended_lines : List Bytes → Bytes
ended_lines [] = []
ended_lines (d ∷ ds) = (d ++ 10 ∷ []) ++ ended_lines ds

trim_newline-append : (xs : Bytes) → trim_newline (xs ++ 10 ∷ []) ≡ xs
trim_newline-append [] = refl
trim_newline-append (x ∷ []) = refl
trim_newline-append (x ∷ y ∷ ys) = ap (λ t. x ∷ t) (trim_newline-append (y ∷ ys))

ended-join : (d : Bytes) (ds : List Bytes) → ended_lines (d ∷ ds) ≡ join_lines (d ∷ ds) ++ 10 ∷ []
ended-join d [] = append-nil (d ++ 10 ∷ [])
ended-join d (e ∷ ds) =
    append_assoc d (10 ∷ []) (ended_lines (e ∷ ds))
    ∙ ap (λ t. d ++ 10 ∷ t) (ended-join e ds)
    ∙ sym (append_assoc d (10 ∷ join_lines (e ∷ ds)) (10 ∷ []))

-- a reader past its first line
abbrev pub opened : Bytes → Bytes → EventReader
opened id last = record { started = true; id_buffer = id; last_id = last }

within : (n : ℕ) → n ≤ max_event_bytes → ltb max_event_bytes n ≡ false
within n h = ground arith

module _ (name id last : Bytes) where
  abbrev gathered : Bytes → Fields
  gathered acc = record { name = name; payload = acc }

  data_step :
      (d acc : Bytes) (lines : List Bytes)
      → length (acc ++ (d ++ 10 ∷ [])) ≤ max_event_bytes
      → read_next (gathered acc) (opened id last) (field_line data_field d ∷ lines)
        ≡ read_next (gathered (acc ++ (d ++ 10 ∷ []))) (opened id last) lines
  unfolding read_next take_field
  data_step d acc lines h = rw (read_next, within (length (acc ++ (d ++ 10 ∷ []))) h) refl

  reads_data :
      (ds rest : List Bytes) (acc : Bytes)
      → length acc + length (ended_lines ds) ≤ max_event_bytes
      → read_next (gathered acc) (opened id last) (data_lines ds ++ [] ∷ rest)
        ≡ read_next (gathered (acc ++ ended_lines ds)) (opened id last) ([] ∷ rest)
  reads_data [] rest acc h =
      ap (λ t. read_next (gathered t) (opened id last) ([] ∷ rest)) (sym (append-nil acc))
  reads_data (d ∷ ds) rest acc h =
      let line = d ++ 10 ∷ [] in
      let parts = length-append line (ended_lines ds) in
      let grown = length-append acc line in
      data_step d acc (data_lines ds ++ [] ∷ rest) (omega (arith, h, parts, grown))
      ∙ reads_data ds rest (acc ++ line) (omega (arith, h, parts, grown))
      ∙ ap (λ t. read_next (gathered t) (opened id last) ([] ∷ rest))
          (append_assoc acc line (ended_lines ds))

  blank :
      (acc : Bytes) (rest : List Bytes)
      → is_empty acc ≡ false
      → read_next (gathered acc) (opened id last) ([] ∷ rest)
        ≡ (dispatched (event_of (gathered acc)), opened id id, rest)
  unfolding read_next
  blank acc rest h = rw (read_next, h) refl

not_empty : (d : Bytes) (ds : List Bytes) → is_empty (ended_lines (d ∷ ds)) ≡ false
not_empty [] ds = refl
not_empty (x ∷ d) ds = refl

id_taken :
    (id : Bytes) (f : Fields) (r : EventReader)
    → has_nul id ≡ false
    → take_field (field_line id_field id) f r ≡ (f, record r { id_buffer = id })
unfolding take_field
id_taken id f r h = rw (take_field, h) refl

-- the id and the name, on the first lines of a stream or further on
head_lines :
    (id name buffer last : Bytes) (started : Bool) (lines : List Bytes)
    → has_nul id ≡ false
    → next
        (record { started = started; id_buffer = buffer; last_id = last })
        (field_line id_field id ∷ field_line event_field name ∷ lines)
      ≡ read_next (record { name = name; payload = [] }) (opened id last) lines
unfolding next read_next take_field
head_lines id name buffer last true lines h =
    ap (λ t. read_next t.0 t.1 (field_line event_field name ∷ lines))
      (id_taken id no_fields (opened buffer last) h)
head_lines id name buffer last false lines h =
    ap (λ t. read_next t.0 t.1 (field_line event_field name ∷ lines))
      (id_taken id no_fields (opened buffer last) h)

-- An event that a server writes as its id, its name and the lines of its data, with a blank line after
-- them, is what `next` returns, and the rest of the stream is left: where the name is not empty, the
-- id holds no NUL, the data has a line and is within the bound, its lines come back parted by
-- newlines, and the id is the point from which a later connection resumes.
pub next-event_lines :
    (id name d : Bytes) (ds rest : List Bytes) (r : EventReader)
    → has_nul id ≡ false
    → is_empty name ≡ false
    → length (ended_lines (d ∷ ds)) ≤ max_event_bytes
    → next r (event_lines id name (d ∷ ds) rest) ≡ (
      dispatched (record { name = name; payload = join_lines (d ∷ ds) }),
      record { started = true; id_buffer = id; last_id = id },
      rest,
    )
next-event_lines id name d ds rest r h k b =
    head_lines id name r.id_buffer r.last_id r.started (data_lines (d ∷ ds) ++ [] ∷ rest) h
    ∙ reads_data name id r.last_id (d ∷ ds) rest [] (omega (arith, b))
    ∙ blank name id r.last_id (ended_lines (d ∷ ds)) rest (not_empty d ds)
    ∙ rw k (
        ap (λ t. (dispatched (record { name = name; payload = t }), opened id id, rest))
          (ap trim_newline (ended-join d ds) ∙ trim_newline-append (join_lines (d ∷ ds))))
