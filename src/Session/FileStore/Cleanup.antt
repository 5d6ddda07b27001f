-- ===== src/Session/FileStore/Cleanup.antt =====
-- What `Cleanup` of security/session/file_store.go leaves on a disk.
use aah.Prelude.{
  ◌≡◌, refl, ap, ◌∙◌, Bool, true, false, ◌&&◌, ◌||◌, List, [], ◌∷◌, none, inl, inr, In, ◌↔◌,
  if◌then◌else◌, Bool-cases, ℕ, arith,
}
use aah.Text.{Text, text_eq}
use aah.Text.Equality.{text_eq_iff}
use aah.Cookie.{
  Primitives, value_is_too_large, value_is_invalid, invaild_timestamp, timestamp_is_too_new,
  timestamp_is_expired, sign_verification_is_failed, base64_decode, unable_to_decrypt,
}
use aah.Session.Manager.{
  Gob, Manager, Result, got, failed, gob_error, store_error, cookie_error, decode_to_session,
}
use aah.Session.FileStore.{
  Disk, disk, content, remove_file, content-remove_file, is_expired, clean_file, cleanup_files,
  cleanup,
}

-- whether a file of this name among these holds an expired session
abbrev pub expired_in : Primitives → Gob → Manager → ℕ → List (Text × Text) → Text → Bool
expired_in prim gob m now [] name = false
expired_in prim gob m now ((n, c) ∷ fs) name =
    (text_eq n name && is_expired (decode_to_session prim gob m now c))
    || expired_in prim gob m now fs name

clean_file-content :
    (prim : Primitives) (gob : Gob) (m : Manager) (now : ℕ) (n c : Text) (fs : List (Text × Text))
    (cnt : ℕ) (name : Text)
    → (fs' : List (Text × Text)) × (cnt' : ℕ) × (clean_file prim gob m now n c (disk fs false, cnt)
        ≡ (disk fs' false, cnt'))
      × (content fs' name ≡ (
          if text_eq n name && is_expired (decode_to_session prim gob m now c)
          then none
          else content fs name))
unfolding clean_file
clean_file-content prim gob m now n c fs cnt name =
    elim (Bool-cases (is_expired (decode_to_session prim gob m now c))) [
      | inl e ↦
          rw (clean_file, e)
            (remove_file fs n, _, refl, content-remove_file fs n name ∙ ground arith)
      | inr e ↦ rw (clean_file, e) (fs, cnt, refl, ground arith)
    ]

cleanup_files-content :
    (prim : Primitives) (gob : Gob) (m : Manager) (now : ℕ) (name : Text)
    (visited fs : List (Text × Text)) (cnt : ℕ)
    → content (cleanup_files prim gob m now visited (disk fs false, cnt)).0.files name
      ≡ (if expired_in prim gob m now visited name then none else content fs name)
unfolding cleanup_files
cleanup_files-content prim gob m now name [] fs cnt = refl
cleanup_files-content prim gob m now name ((n, c) ∷ visited) fs cnt =
    let (fs', cnt', e, h) = clean_file-content prim gob m now n c fs cnt name in
    rw (cleanup_files, e, cleanup_files-content prim gob m now name visited fs' cnt', h)
      (ground arith)

content-cleanup_files :
    (prim : Primitives) (gob : Gob) (m : Manager) (now : ℕ) (d : Disk) (name : Text)
    → d.read_only ≡ false
    → content (cleanup prim gob m now d).0.files name
      ≡ (if expired_in prim gob m now d.files name then none else content d.files name)
unfolding cleanup
content-cleanup_files prim gob m now d name h =
    ap
      (λ (b : Bool).
        content (cleanup_files prim gob m now d.files (disk d.files b, 0)).0.files name)
      h
    ∙ cleanup_files-content prim gob m now name d.files d.files 0

-- reading the content as a session ends in the error for an expired timestamp
abbrev pub HasExpired : Primitives → Gob → Manager → ℕ → Text → Type 0
HasExpired prim gob m now c =
    decode_to_session prim gob m now c ≡ failed (cookie_error timestamp_is_expired)

is_expired_iff :
    {A : Type 0} (r : Result A)
    → (is_expired r ≡ true) ↔ (r ≡ failed (cookie_error timestamp_is_expired))
is_expired_iff (got a) = (λ h. cc h, λ e. cc e)
is_expired_iff (failed (cookie_error timestamp_is_expired)) = (λ h. refl, λ e. refl)
is_expired_iff (failed gob_error) = (λ h. cc h, λ e. cc e)
is_expired_iff (failed store_error) = (λ h. cc h, λ e. cc e)
is_expired_iff (failed (cookie_error value_is_too_large)) = (λ h. cc h, λ e. cc e)
is_expired_iff (failed (cookie_error value_is_invalid)) = (λ h. cc h, λ e. cc e)
is_expired_iff (failed (cookie_error invaild_timestamp)) = (λ h. cc h, λ e. cc e)
is_expired_iff (failed (cookie_error timestamp_is_too_new)) = (λ h. cc h, λ e. cc e)
is_expired_iff (failed (cookie_error sign_verification_is_failed)) = (λ h. cc h, λ e. cc e)
is_expired_iff (failed (cookie_error base64_decode)) = (λ h. cc h, λ e. cc e)
is_expired_iff (failed (cookie_error unable_to_decrypt)) = (λ h. cc h, λ e. cc e)

expired_in-true :
    (prim : Primitives) (gob : Gob) (m : Manager) (now : ℕ) (fs : List (Text × Text))
    (name c : Text)
    → In {A = Text × Text} (name, c) fs
    → HasExpired prim gob m now c
    → expired_in prim gob m now fs name ≡ true
expired_in-true prim gob m now [] name c i h = elim i [ ]
expired_in-true prim gob m now ((n, d) ∷ fs) name c (inl e) h =
    let same = ap (λ (x : Text × Text). x.0) e in
    let content_same = ap (λ (x : Text × Text). x.1) e in
    rw
      (
        (text_eq_iff n name).1 same,
        content_same,
        (is_expired_iff (decode_to_session prim gob m now c)).1 h,
      )
      refl
expired_in-true prim gob m now ((n, d) ∷ fs) name c (inr i) h =
    rw (expired_in-true prim gob m now fs name c i h) (ground arith)

expired_in-false :
    (prim : Primitives) (gob : Gob) (m : Manager) (now : ℕ) (fs : List (Text × Text)) (name : Text)
    → ((c : Text) → In {A = Text × Text} (name, c) fs → HasExpired prim gob m now c → ⊥)
    → expired_in prim gob m now fs name ≡ false
expired_in-false prim gob m now [] name h = refl
expired_in-false prim gob m now ((n, d) ∷ fs) name h =
    let rest = expired_in-false prim gob m now fs name (λ c i. h c (inr i)) in
    elim (Bool-cases (text_eq n name)) [
      | inr e ↦ rw (e, rest) refl
      | inl e ↦ elim (Bool-cases (is_expired (decode_to_session prim gob m now d))) [
        | inr f ↦ rw (e, f, rest) refl
        | inl f ↦ absurd (
            h d (inl (ap (λ (x : Text). (x, d)) ((text_eq_iff n name).0 e)))
              ((is_expired_iff (decode_to_session prim gob m now d)).0 f))
      ]
    ]

-- On a disk that can be written, `Cleanup` removes a file where reading its content as a session ends in
-- the error for an expired timestamp, and leaves every other file as it is, also one whose content
-- cannot be read for another reason.
pub content-cleanup :
    (prim : Primitives) (gob : Gob) (m : Manager) (now : ℕ) (d : Disk) (name : Text)
    → d.read_only ≡ false
    → ((c : Text)
        → In {A = Text × Text} (name, c) d.files
        → HasExpired prim gob m now c
        → content (cleanup prim gob m now d).0.files name ≡ none)
      × (((c : Text) → In {A = Text × Text} (name, c) d.files → HasExpired prim gob m now c → ⊥)
          → content (cleanup prim gob m now d).0.files name ≡ content d.files name)
content-cleanup prim gob m now d name h =
    let seen = content-cleanup_files prim gob m now d name h in
    (
      λ c i e. seen ∙ rw (expired_in-true prim gob m now d.files name c i e) refl,
      λ none_there. seen ∙ rw (expired_in-false prim gob m now d.files name none_there) refl,
    )
