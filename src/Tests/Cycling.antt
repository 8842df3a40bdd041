-- ===== src/Tests/Cycling.antt =====
-- Sync cycles at concrete values: two pages of changes, and a reset over two pages of the baseline.
use Prim.Native.Char.{Char}
use beautiful_aerc.Prelude.{
  pos, String, List, [], ◌∷◌, none, some, true, false, ok, err, ◌≡◌, refl, arith,
}
use beautiful_aerc.Uerr.{sentinel, state_reset}
use beautiful_aerc.Backend.{message}
use beautiful_aerc.Store.Mail.{MailDb, MessageRow, server, local}
use beautiful_aerc.Store.Mail.Message.{upsert_message}
use beautiful_aerc.Sync.Records.{Record, message_fields, store_flags, first_address}
use beautiful_aerc.Sync.Bulk.{World, active}
use beautiful_aerc.Sync.Cycle.{ChangeSet, Answer, full_resync, sync_kind}
use beautiful_aerc.Sync.Cycle.Synced.{Synced, sync_kind-Synced}
use beautiful_aerc.Sync.Cycle.Invariant.{Sound, sync_kind-Sound}
use beautiful_aerc.Sync.Cycle.Converged.{Mirrors, full_resync-converges}

abbrev normal : String → List Char
normal s = []

-- two messages of the server's and a draft of this client's
abbrev stored_mail : MailDb
stored_mail =
    let row : MessageRow = record {
      id = 1;
      account_id = 7;
      server_id = some "m1";
      blob_id = "";
      thread_key = "";
      received_at = pos 0;
      subject = "";
      from_addr = "";
      flags = 0;
      size = 0;
      has_attachment = false;
      origin = server;
      mailbox_ids = [];
    } in
    record {
      mailboxes = [];
      messages =
          row
          ∷ record row { id = 3; server_id = some "m2" }
          ∷ record row { id = 4; origin = local; server_id = none }
          ∷ [];
      links = [];
    }

abbrev world : World
world = record {
  store = record {
    db = record { mail = stored_mail; states = [] };
    revision = 0;
    log = [];
    faults = [];
  };
  echo = [];
  looks = active ∷ [];
}

abbrev letter : String → Record
letter id = record {
  id = id;
  fields = message_fields (record {
    blob_id = "b";
    thread_key = "t";
    subject = "Hello";
    sender = [];
    mailbox_ids = [];
    received_at = pos 1700;
    size = 900;
    has_attachment = false;
    flags = 0;
  });
}

abbrev page : List Record → List String → String → ChangeSet
page created destroyed token = record {
  created = created;
  updated = [];
  destroyed = destroyed;
  new_token = token;
  has_more = false;
}

-- the pages of the baseline, and those of a cycle
abbrev listing : List Answer
listing =
    ok (record (page (letter "m1" ∷ []) [] "s1") { has_more = true })
    ∷ ok (page (letter "m3" ∷ []) [] "s2")
    ∷ []

abbrev cycle : List Answer
cycle =
    ok (record (page (letter "m5" ∷ []) ("m2" ∷ []) "s1") { has_more = true })
    ∷ err (sentinel state_reset "backend: state reset")
    ∷ listing

sync_kind-Synced_example :
    Synced normal 7 message world cycle
      (sync_kind normal 7 message cycle world).0
      (sync_kind normal 7 message cycle world).1.store.db
sync_kind-Synced_example = sync_kind-Synced normal 7 message cycle world

abbrev empty : MailDb
empty = record { mailboxes = []; messages = []; links = [] }

abbrev empty-Sound : Sound empty
empty-Sound = (
  record {
    mailbox_ids_distinct = tt;
    message_ids_distinct = tt;
    mailboxes_keyed = tt;
    messages_keyed = tt;
    joins = λ i k. refl;
  },
  tt,
)

abbrev empty_world : World
empty_world = record world {
  store = record (world.store) { db = record { mail = empty; states = [] } };
}

sync_kind-Sound_example : Sound (sync_kind normal 7 message cycle empty_world).1.store.db.mail
sync_kind-Sound_example = sync_kind-Sound normal 7 message cycle empty_world empty-Sound

abbrev resynced : (full_resync normal 7 message listing world).0 ≡ ok tt
unfolding full_resync upsert_message store_flags first_address
resynced = refl

full_resync-converges_example :
    Mirrors normal 7 listing world.store.db (full_resync normal 7 message listing world).1.store.db
full_resync-converges_example =
    full_resync-converges normal 7 listing world (omega arith, (omega arith, (omega arith, tt)))
      resynced
