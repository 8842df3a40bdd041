-- ===== src/Uerr.antt =====
-- internal/uerr/uerr.go: the classes of a failure, and the walk that finds the class of an error.
-- An `error` is a value of `Err`: the errors that the modelled code builds or compares against.
pub mod Classes
use Prim.Native.String.{◌++◌ as append}
use beautiful_aerc.Prelude.{
  ℕ, ◌==◌, nat_eq, String, Option, none, some, Bool, false, true, ◌||◌, List,
}

pub data Class : Type 0 where
  auth auth_refresh_failed not_found connection server throttled : Class
  schema_version store_local instance_locked local_io : Class

pub Class-discrete : Discrete Class
Class-discrete = hlevel

-- `==` of two classes
abbrev pub class_index : Class → ℕ
class_index auth = 0
class_index auth_refresh_failed = 1
class_index not_found = 2
class_index connection = 3
class_index server = 4
class_index throttled = 5
class_index schema_version = 6
class_index store_local = 7
class_index instance_locked = 8
class_index local_io = 9

abbrev pub same_class : Class → Class → Bool
same_class a b = class_index a == class_index b

-- Class.String
unfoldable pub class_string : Class → String
class_string auth = "auth"
class_string auth_refresh_failed = "auth-refresh-failed"
class_string not_found = "not-found"
class_string connection = "connection"
class_string server = "server"
class_string throttled = "throttled"
class_string schema_version = "schema-version"
class_string store_local = "store-local"
class_string instance_locked = "instance-locked"
class_string local_io = "local-io"

unfoldable pub sentence : Class → String
sentence auth = "Sign-in was rejected"
sentence auth_refresh_failed = "Sign-in expired and could not refresh"
sentence not_found = "That item is no longer there"
sentence connection = "Couldn't reach the server"
sentence server = "The server reported a problem"
sentence throttled = "The server asked us to slow down"
sentence schema_version = "This store needs a newer version of poplar"
sentence store_local = "Poplar could not open its store"
sentence instance_locked = "Poplar is already running"
sentence local_io = "Poplar could not write its output"

-- The errors that code compares against by identity.
pub data Sentinel : Type 0 where
  mailbox_name_exists ambiguous_mailbox canceled state_reset state_not_advancing : Sentinel

abbrev pub same_sentinel : Sentinel → Sentinel → Bool
same_sentinel mailbox_name_exists mailbox_name_exists = true
same_sentinel ambiguous_mailbox ambiguous_mailbox = true
same_sentinel canceled canceled = true
same_sentinel state_reset state_reset = true
same_sentinel state_not_advancing state_not_advancing = true
same_sentinel _ _ = false

-- `uerr op ids class message cause` is an `Error`, `failure class cause` a `backend.Failure`;
-- `wrapped` is `fmt.Errorf` with one `%w`, and `joined` is `errors.Join` of two errors.
pub data Err : Type 0 where
  plain : String → Err
  sentinel : Sentinel → String → Err
  wrapped : String → Err → Err
  joined : Err → Err → Err
  uerr : String → List String → Class → String → Err → Err
  failure : Class → Err → Err

-- `err.Error()`
unfoldable pub error_text : Err → String
error_text (plain s) = s
error_text (sentinel _ s) = s
error_text (wrapped s _) = s
error_text (joined a b) = append (error_text a) (append "\n" (error_text b))
error_text (uerr _ _ _ message _) = message
error_text (failure _ cause) = error_text cause

-- `errors.Is(err, target)`: the error itself, then what it unwraps to, depth first.
unfoldable pub is : Sentinel → Err → Bool
is t (plain _) = false
is t (sentinel s _) = same_sentinel s t
is t (wrapped _ e) = is t e
is t (joined a b) = is t a || is t b
is t (uerr _ _ _ _ cause) = is t cause
is t (failure _ cause) = is t cause

-- What a caller reads off a `Classified` value: `ClassCause()` and `Error()`.
pub record Classified : Type 0 where
  pub class : Class
  pub cause : Err
  pub text : String

abbrev first {ℓ} : {A : Type ℓ} → Option A → Option A → Option A
first none b = b
first (some a) b = some a

unfoldable pub peel : Err → Option Classified
unfolding error_text
peel (plain _) = none
peel (sentinel _ _) = none
peel (wrapped _ e) = peel e
peel (joined a b) = first (peel a) (peel b)
peel (uerr _ _ class message cause) = some (record { class = class; cause = cause; text = message })
peel (failure class cause) = some (record { class = class; cause = cause; text = error_text cause })

-- ClassifyErr
unfoldable pub classify_err : Err → Class → Class × Err
unfolding peel
classify_err e fallback = elim (peel e) [ none ↦ (fallback, e) | some c ↦ (c.class, c.cause) ]

-- A line of the log, as `New` writes it.
pub record LogLine : Type 0 where
  pub op : String
  pub ids : List String
  pub class : Class
  pub cause : Err

-- `New` returns the error and writes one line.
unfoldable pub new : String → List String → Class → Err → Err
unfolding sentence
new op ids class cause = uerr op ids class (sentence class) cause
