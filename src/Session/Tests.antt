-- ===== src/Session/Tests.antt =====
-- Sessions in cookies and in files, with small stand-ins for cryptography and gob.
use aah.Prelude.{In, ℕ, ◌≡◌, refl, true, false, [], ◌∷◌, ◌++◌, none, some, arith, if◌then◌else◌}
use aah.Prelude.Integers.{pos, negsuc}
use aah.Text.{Text, codes, text_eq}
use aah.Cookie.{no_key}
use aah.Cookie.StandIn.{stand_in, stand_in-Lawful, stand_in-not_blank}
use aah.Session.{Session, Value, nil, string, get, set, get_flash, set_flash, flash_key_prefix}
use aah.Session.Manager.{
  Gob, Manager, Moment, Result, got, failed, Response, value, deleted, save_session, get_session,
  is_cleared, encode_session, encode_id, decode_to_string, LawfulStorer,
}
use aah.Session.RoundTrip.{Readable, Kept, get_session-save_session, get_session-cleared}
use aah.Session.FileStore.Cleanup.{HasExpired, content-cleanup}
use aah.Session.FileStore.{
  Disk, FileStore, file_store, file_store-Lawful, content, cleanup, save, delete,
}

abbrev one_visit : Session
one_visit = record {
  id = codes "x1";
  values = (codes "n", string (codes "v")) ∷ [];
  is_new = true;
  is_authenticated = true;
  created_time = some 100;
  max_age = pos 0;
}

-- gob for the one session and id of the tests
abbrev gob_one : Gob
gob_one = record {
  session_bytes = λ s. some (codes "S");
  session_of = λ b. if text_eq b (codes "S") then some one_visit else none;
  id_bytes = λ s. some s;
  id_of = λ b. some b;
}

one_visit-Readable : Readable gob_one one_visit
unfolding text_eq
one_visit-Readable = record {
  bytes = codes "S";
  written = refl;
  read = refl;
  full = λ e. cc e;
  id_text = codes "x1";
  id_written = refl;
  id_read = refl;
  id_full = λ e. cc e;
}

abbrev manager : Text → Manager
manager store_name = record {
  mode = codes "stateful";
  store_name = store_name;
  path = codes "/";
  cookie_mgr = record {
    name = codes "s";
    max_age = pos 60;
    key = record { sign = codes "k"; enc = codes "e" };
    old_key = no_key;
    max_cookie_size = 4096;
  };
}

abbrev at : ℕ → Moment
at now = record { iv = codes "i"; now = now }

abbrev empty_disk : Disk
empty_disk = record { files = []; read_only = false }

abbrev directory : FileStore
directory = record { path = codes "/s"; file_prefix = codes "aah"; join = λ d n. d ++ b'/' ∷ n }

abbrev sent : Response Disk
sent =
    save_session stand_in gob_one (file_store directory) (manager (codes "file")) (at 100) (at 100)
      empty_disk one_visit

get_session-save_session_example :
    Kept stand_in stand_in-Lawful stand_in-not_blank gob_one
      (file_store directory)
      (file_store-Lawful directory)
      (manager (codes "file"))
      130
      sent
      one_visit
unfolding save_session save text_eq aah.Cookie.encode
get_session-save_session_example =
    get_session-save_session stand_in stand_in-Lawful stand_in-not_blank gob_one
      (file_store directory) (file_store-Lawful directory) (manager (codes "file")) 130 (at 100)
      (at 100) empty_disk one_visit sent refl one_visit-Readable refl refl
      (omega arith, omega arith) (omega arith, omega arith) refl refl

abbrev cleared_visit : Session
cleared_visit = record one_visit { max_age = negsuc 0 }

abbrev one_file : Disk
one_file = record {
  files = (codes "/s/aah_x1", codes "old") ∷ (codes "/s/aah_x2", codes "two") ∷ [];
  read_only = false;
}

abbrev other_file : Disk
other_file = record { files = (codes "/s/aah_x2", codes "two") ∷ []; read_only = false }

abbrev id_cookie : Result Text → Text
id_cookie (got v) = v
id_cookie (failed _) = []

abbrev the_cookie : Text
the_cookie = id_cookie (encode_id stand_in gob_one (manager (codes "file")) (at 100) (codes "x1"))

get_session-cleared_example :
    (save_session stand_in gob_one
        (file_store directory)
        (manager (codes "file"))
        (at 100)
        (at 100)
        one_file
        cleared_visit
      ≡ record { store = other_file; cookie = some deleted; error = none })
    × (get_session stand_in gob_one
          (file_store directory)
          (manager (codes "file"))
          130
          other_file
          (some the_cookie)
        ≡ (other_file, none))
unfolding text_eq delete encode_id aah.Session.Manager.is_cookie_store decode_to_string
    aah.Cookie.decode aah.Cookie.encode
get_session-cleared_example =
    get_session-cleared stand_in stand_in-Lawful stand_in-not_blank gob_one (file_store directory)
      (file_store-Lawful directory) (manager (codes "file")) 130 (at 100) (at 100) one_file
      other_file cleared_visit the_cookie refl refl refl refl

content-cleanup_example :
    ((c : Text)
      → In {A = Text × Text} (codes "/s/aah_x1", c) one_file.files
      → HasExpired stand_in gob_one (manager (codes "file")) 500 c
      → content
          (cleanup stand_in gob_one (manager (codes "file")) 500 one_file).0.files
          (codes "/s/aah_x1")
        ≡ none)
    × (((c : Text)
          → In {A = Text × Text} (codes "/s/aah_x1", c) one_file.files
          → HasExpired stand_in gob_one (manager (codes "file")) 500 c
          → ⊥)
        → content
            (cleanup stand_in gob_one (manager (codes "file")) 500 one_file).0.files
            (codes "/s/aah_x1")
          ≡ content one_file.files (codes "/s/aah_x1"))
content-cleanup_example =
    content-cleanup stand_in gob_one (manager (codes "file")) 500 one_file (codes "/s/aah_x1") refl

file_store-Lawful_example : LawfulStorer Disk (file_store directory)
file_store-Lawful_example = file_store-Lawful directory

-- files whose session expired are removed, and none of them is counted
abbrev full_disk : Disk
full_disk = sent.store

cleaned : cleanup stand_in gob_one (manager (codes "file")) 500 full_disk ≡ (empty_disk, 0)
unfolding cleanup save_session save text_eq aah.Cookie.encode aah.Cookie.decode
cleaned = refl

kept : cleanup stand_in gob_one (manager (codes "file")) 130 full_disk ≡ (full_disk, 0)
unfolding cleanup save_session save text_eq aah.Cookie.encode aah.Cookie.decode
kept = refl
