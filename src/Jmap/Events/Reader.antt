-- ===== src/Jmap/Events/Reader.antt =====
-- jmap/eventstream.go: `next` of the event reader, over the lines that are still to come.
pub mod RoundTrip
pub mod Resume
use beautiful_aerc.Prelude.{
  ℕ, zero, suc, ◌^◌, List, [], ◌∷◌, ◌++◌, length, Bool, true, false, not, ◌&&◌, ◌||◌, ltb, ◌==◌,
  nat_eq, if◌then◌else◌,
}
use beautiful_aerc.Jmap.Events.{Bytes}

pub record Event : Type 0 where
  pub name : Bytes
  pub payload : Bytes

abbrev pub max_event_bytes : ℕ
max_event_bytes = 2 ^ 24

pub record EventReader : Type 0 where
  pub started : Bool
  pub id_buffer : Bytes
  pub last_id : Bytes

-- what `next` returns: an event, errEventTooLong, or io.EOF
pub data Next : Type 0 where
  dispatched : Event → Next
  event_too_long ended : Next

-- the variables of `next`; the data ends with the newline of its last line
pub record Fields : Type 0 where
  pub name : Bytes
  pub payload : Bytes

abbrev pub no_fields : Fields
no_fields = record { name = []; payload = [] }

abbrev pub same_bytes : Bytes → Bytes → Bool
same_bytes [] [] = true
same_bytes (x ∷ xs) (y ∷ ys) = (x == y) && same_bytes xs ys
same_bytes _ _ = false

abbrev pub is_empty : Bytes → Bool
is_empty [] = true
is_empty (x ∷ xs) = false

-- strings.Cut at a colon, without whether there was one
abbrev pub cut : Bytes → Bytes × Bytes
cut [] = ([], [])
cut (x ∷ xs) = let (before, after) = cut xs in if x == 58 then ([], xs) else (x ∷ before, after)

-- strings.TrimPrefix of a space, and of the byte order mark
abbrev pub trim_space : Bytes → Bytes
trim_space [] = []
trim_space (x ∷ xs) = if x == 32 then xs else x ∷ xs

abbrev pub trim_mark : Bytes → Bytes
trim_mark (a ∷ b ∷ c ∷ xs) = if (a == 239) && (b == 187) && (c == 191) then xs else a ∷ b ∷ c ∷ xs
trim_mark xs = xs

-- strings.TrimSuffix of a newline
abbrev pub trim_newline : Bytes → Bytes
trim_newline [] = []
trim_newline (x ∷ []) = if x == 10 then [] else x ∷ []
trim_newline (x ∷ y ∷ ys) = x ∷ trim_newline (y ∷ ys)

-- strings.ContainsRune of NUL
abbrev pub has_nul : Bytes → Bool
has_nul [] = false
has_nul (x ∷ xs) = (x == 0) || has_nul xs

-- "event", "data", "id" and "message"
abbrev pub event_field : Bytes
event_field = 101 ∷ 118 ∷ 101 ∷ 110 ∷ 116 ∷ []

abbrev pub data_field : Bytes
data_field = 100 ∷ 97 ∷ 116 ∷ 97 ∷ []

abbrev pub id_field : Bytes
id_field = 105 ∷ 100 ∷ []

abbrev pub message_name : Bytes
message_name = 109 ∷ 101 ∷ 115 ∷ 115 ∷ 97 ∷ 103 ∷ 101 ∷ []

abbrev pub is_data : Bytes → Bool
is_data line = same_bytes (cut line).0 data_field

-- the switch over a field: a comment, `retry` and any other field leave all as it is
unfoldable pub take_field : Bytes → Fields → EventReader → Fields × EventReader
take_field line f r =
    let (field, rest) = cut line in
    let value = trim_space rest in
    if same_bytes field event_field
    then (record f { name = value }, r)
    else if same_bytes field data_field
    then (record f { payload = f.payload ++ (value ++ 10 ∷ []) }, r)
    else if same_bytes field id_field && not (has_nul value)
    then (f, record r { id_buffer = value })
    else (f, r)

-- the event of a blank line
abbrev pub event_of : Fields → Event
event_of f = record {
  name = if is_empty f.name then message_name else f.name;
  payload = trim_newline f.payload;
}

abbrev pub commit : EventReader → EventReader
commit r = record r { last_id = r.id_buffer }

-- the line, less the mark that only the first one may have
abbrev pub line_of : EventReader → Bytes → Bytes
line_of r raw = if r.started then raw else trim_mark raw

unfoldable pub read_next : Fields → EventReader → List Bytes → Next × EventReader × List Bytes
unfolding take_field
read_next f r [] = (ended, r, [])
read_next f r (raw ∷ lines) =
    let line = line_of r raw in
    let begun : EventReader = record r { started = true } in
    let (f', r') = take_field line f begun in
    elim (is_empty line) [
      | true ↦ elim (is_empty f.payload) [
        | true ↦ read_next no_fields (commit begun) lines
        | false ↦ (dispatched (event_of f), commit begun, lines)
      ]
      | false ↦ elim (is_data line && ltb max_event_bytes (length f'.payload)) [
        | true ↦ (event_too_long, r', lines)
        | false ↦ read_next f' r' lines
      ]
    ]

unfoldable pub next : EventReader → List Bytes → Next × EventReader × List Bytes
unfolding read_next
next r lines = read_next no_fields r lines
