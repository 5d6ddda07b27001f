-- ===== src/Session/FileStore.antt =====
-- security/session/file_store.go: sessions as files of a directory. A disk is its files with their
-- contents, and `read_only` makes every write and removal fail. The name of a session's file is
-- the text that filepath.Join makes of the directory, the prefix and the id.
pub mod Cleanup
use mathlib.Core.Path.{subst}
use aah.Prelude.{
  ◌+◌, ◌≡◌, refl, sym, ap, ◌∙◌, Bool, true, false, ◌&&◌, ◌||◌, List, [], ◌∷◌, ◌++◌, Option, none,
  some, inl, inr, In, ◌↔◌, if◌then◌else◌, Bool-cases, ℕ, arith,
}
use aah.Text.{Text, text_eq}
use aah.Text.Equality.{text_eq_refl, text_eq_iff}
use aah.Cookie.{
  Primitives, value_is_too_large, value_is_invalid, invaild_timestamp, timestamp_is_too_new,
  timestamp_is_expired, sign_verification_is_failed, base64_decode, unable_to_decrypt,
}
use aah.Session.Manager.{
  Storer, LawfulStorer, Gob, Manager, Result, got, failed, gob_error, store_error, cookie_error,
  decode_to_session,
}

pub record Disk : Type 0 where
  pub files : List (Text × Text)
  pub read_only : Bool

abbrev pub content : List (Text × Text) → Text → Option Text
content [] name = none
content ((n, c) ∷ fs) name = if text_eq n name then some c else content fs name

-- ioutil.WriteFile on a file that may exist
abbrev pub write_file : List (Text × Text) → Text → Text → List (Text × Text)
write_file [] name c = (name, c) ∷ []
write_file ((n, d) ∷ fs) name c =
    let rest = write_file fs name c in if text_eq n name then (n, c) ∷ fs else (n, d) ∷ rest

-- os.Remove
abbrev pub remove_file : List (Text × Text) → Text → List (Text × Text)
remove_file [] name = []
remove_file ((n, d) ∷ fs) name =
    let rest = remove_file fs name in if text_eq n name then rest else (n, d) ∷ rest

abbrev pub is_file : Disk → Text → Bool
is_file d name = elim (content d.files name) [ none ↦ false | some _ ↦ true ]

-- `join` is filepath.Join; a store is its path and its file prefix
pub record FileStore : Type 0 where
  pub path : Text
  pub file_prefix : Text
  pub join : Text → Text → Text

abbrev pub session_file : FileStore → Text → Text
session_file f id = f.join f.path (f.file_prefix ++ b'_' ∷ id)

module _ (f : FileStore) where
  unfoldable pub read : Disk → Text → Text
  read d id = elim (content d.files (session_file f id)) [ none ↦ [] | some c ↦ c ]

  unfoldable pub save : Disk → Text → Text → Disk × Bool
  save d id value =
      if d.read_only
      then (d, true)
      else (record d { files = write_file d.files (session_file f id) value }, false)

  -- a file that does not exist is no error, whatever the disk
  unfoldable pub delete : Disk → Text → Disk × Bool
  delete d id = elim (content d.files (session_file f id)) [
    | none ↦ (d, false)
    | some _ ↦
        if d.read_only
        then (d, true)
        else (record d { files = remove_file d.files (session_file f id) }, false)
  ]

  unfoldable pub is_exists : Disk → Text → Bool
  is_exists d id = is_file d (session_file f id)

  abbrev pub file_store : Storer Disk
  file_store = record { read = read; save = save; delete = delete; is_exists = is_exists }

abbrev pub is_expired : {A : Type 0} → Result A → Bool
is_expired (failed (cookie_error timestamp_is_expired)) = true
is_expired _ = false

-- one file of the loop of `Cleanup`, and `cnt`: os.Remove on a file that is there gives nil or an
-- error, and os.IsNotExist is false for both
unfoldable pub clean_file : Primitives → Gob → Manager → ℕ → Text → Text → Disk × ℕ → Disk × ℕ
unfolding decode_to_session
clean_file prim gob m now name c (d, cnt) =
    if is_expired (decode_to_session prim gob m now c)
    then (
      (if d.read_only then d else record d { files = remove_file d.files name }),
      (if is_file d name then cnt else cnt + 1),
    )
    else (d, cnt)

unfoldable pub cleanup_files :
    Primitives → Gob → Manager → ℕ → List (Text × Text) → Disk × ℕ → Disk × ℕ
unfolding clean_file
cleanup_files prim gob m now [] x = x
cleanup_files prim gob m now ((n, c) ∷ fs) x =
    cleanup_files prim gob m now fs (clean_file prim gob m now n c x)

unfoldable pub cleanup : Primitives → Gob → Manager → ℕ → Disk → Disk × ℕ
unfolding cleanup_files
cleanup prim gob m now d = cleanup_files prim gob m now d.files (d, 0)

same_name : (n a b : Text) → text_eq n a ≡ true → text_eq n b ≡ text_eq a b
same_name n a b e = rw ((text_eq_iff n a).0 e) refl

content-write_file :
    (fs : List (Text × Text)) (name c : Text) → content (write_file fs name c) name ≡ some c
content-write_file [] name c = rw (text_eq_refl name) refl
content-write_file ((n, d) ∷ fs) name c = elim (Bool-cases (text_eq n name)) [
  | inl e ↦ rw (e, e) refl
  | inr e ↦ rw (e, e, content-write_file fs name c) refl
]

pub content-remove_file :
    (fs : List (Text × Text)) (name other : Text)
    → content (remove_file fs name) other ≡ (if text_eq name other then none else content fs other)
content-remove_file [] name other = ground arith
content-remove_file ((n, d) ∷ fs) name other = elim (Bool-cases (text_eq n name)) [
  | inl e ↦ rw (e, content-remove_file fs name other, same_name n name other e) (ground arith)
  | inr e ↦ elim (Bool-cases (text_eq n other)) [
    | inl g ↦ rw (e, g, apart e g) refl
    | inr g ↦ rw (e, g, content-remove_file fs name other) refl
  ]
]
  where
    apart : text_eq n name ≡ false → text_eq n other ≡ true → text_eq name other ≡ false
    apart e g = elim (Bool-cases (text_eq name other)) [
      | inr h ↦ h
      | inl h ↦
          let k : text_eq n name ≡ true =
            (text_eq_iff n name).1
              ((text_eq_iff n other).0 g ∙ sym ((text_eq_iff name other).0 h)) in
          absurd (cc (e, k))
    ]

abbrev pub disk : List (Text × Text) → Bool → Disk
disk fs read_only = record { files = fs; read_only = read_only }

-- the state of a result
state_eq : {x y : Disk} {a b : Bool} → ◌≡◌ {A = Disk × Bool} (x, a) (y, b) → x ≡ y
state_eq h = ap (λ (z : Disk × Bool). z.0) h

error_eq : {x y : Disk} {a b : Bool} → ◌≡◌ {A = Disk × Bool} (x, a) (y, b) → a ≡ b
error_eq h = ap (λ (z : Disk × Bool). z.1) h

saved :
    (f : FileStore) (fs : List (Text × Text)) (b : Bool) (d' : Disk) (id v : Text)
    → save f (disk fs b) id v ≡ (d', false)
    → read f d' id ≡ v
unfolding save read
saved f fs true d' id v h = cc (error_eq h)
saved f fs false d' id v h =
    subst (λ (x : Disk). read f x id ≡ v) (state_eq h)
      (rw (read, content-write_file fs (session_file f id) v) refl)

removed :
    (f : FileStore) (fs : List (Text × Text)) (b : Bool) (d' : Disk) (id : Text)
    → (o : Option Text) → content fs (session_file f id) ≡ o
    → delete f (disk fs b) id ≡ (d', false)
    → read f d' id ≡ []
unfolding delete read
removed f fs b d' id none e h =
    subst (λ (x : Disk). read f x id ≡ []) (state_eq (rw (delete, e) at h)) (rw (read, e) refl)
removed f fs true d' id (some c) e h = cc (error_eq (rw (delete, e) at h))
removed f fs false d' id (some c) e h =
    subst (λ (x : Disk). read f x id ≡ []) (state_eq (rw (delete, e) at h))
      (rw
        (
          read,
          content-remove_file fs (session_file f id) (session_file f id),
          text_eq_refl (session_file f id),
        )
        refl)

-- The file store keeps the laws of a store: what was saved without an error is read, and what was
-- deleted without an error is read as the empty text.
pub file_store-Lawful : (f : FileStore) → LawfulStorer Disk (file_store f)
file_store-Lawful f = record {
  read-save = λ d d' id v h. saved f d.files d.read_only d' id v h;
  read-delete =
      λ d d' id h. removed f d.files d.read_only d' id (content d.files (session_file f id)) refl h;
}
