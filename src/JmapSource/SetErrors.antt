-- ===== src/JmapSource/SetErrors.antt =====
-- internal/backend/jmapsource/errors.go: the failure of one object of a set call, from its type.
use beautiful_aerc.Prelude.{
  String, Option, none, some, Bool-cases, inl, inr, ◌==◌, string_eq, ◌≡◌, refl, if◌then◌else◌,
}
use beautiful_aerc.Uerr.{
  Class, auth, not_found, server, throttled, Err, plain, wrapped, sentinel, failure,
  mailbox_name_exists, is,
}

-- jmapSetErrorClass
unfoldable pub jmap_set_error_class : String → Option Class
jmap_set_error_class type =
    if type == "notFound"
    then some not_found
    else if type == "forbidden"
    then some auth
    else if type == "rateLimit"
    then some throttled
    else none

abbrev or_server : Option Class → Class
or_server (some class) = class
or_server none = server

-- `class` of backend.Failure
unfoldable pub mutation_class : String → Class
unfolding jmap_set_error_class
mutation_class type = or_server (jmap_set_error_class type)

unfoldable pub classify_mutation_failure : String → Err
unfolding mutation_class
classify_mutation_failure type = failure (mutation_class type) (plain type)

abbrev pub mailbox_name_conflict : String
mailbox_name_conflict = "alreadyExists"

-- `name_text` is the text of backend.ErrMailboxNameExists, `with_type` that of "%s: %w" by fmt.Errorf.
unfoldable pub classify_mailbox_create_failure : String → (String → String) → String → Err
unfolding classify_mutation_failure
classify_mailbox_create_failure name_text with_type type =
    if type == mailbox_name_conflict
    then failure (mutation_class type)
        (wrapped (with_type type) (sentinel mailbox_name_exists name_text))
    else classify_mutation_failure type

-- A refused create is the name conflict that a caller looks for exactly under the type of one.
name_exists_lem :
    (name_text : String) (with_type : String → String) (type : String)
    → is mailbox_name_exists (classify_mailbox_create_failure name_text with_type type)
      ≡ (type == mailbox_name_conflict)
unfolding classify_mailbox_create_failure is
name_exists_lem name_text with_type type = elim (Bool-cases (type == mailbox_name_conflict)) [
  | inl same ↦ rw same refl
  | inr other ↦ rw other refl
]
