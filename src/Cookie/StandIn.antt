-- ===== src/Cookie/StandIn.antt =====
-- Small stand-ins for cryptography, base64 and numbers, on which the code runs in tests. A byte is
-- written as two, so that no pipe and no blank text is written.
use aah.Prelude.{
  ℕ, ◌≡◌, ◌≢◌, refl, ap, inl, inr, true, false, [], ◌∷◌, ◌++◌, none, some, arith, if◌then◌else◌,
  ◌==◌, Option, Bool-cases, ==_iff,
}
use aah.Prelude.Integers.{ℤ, pos}
use aah.Text.{Text, is_space, is_str_empty, trim_space, trim_left, trim_right, cons_trimmed, is_nil}
use aah.Text.Split.{Lacks}
use aah.Cookie.{Primitives, pipe}
use aah.Cookie.Laws.{Lawful}

abbrev write_byte : ℕ → Text → Text
write_byte c s = if c == pipe then 1 ∷ 0 ∷ s else 0 ∷ c ∷ s

abbrev write : Text → Text
write [] = []
write (c ∷ s) = write_byte c (write s)

abbrev read_byte : ℕ → ℕ → ℕ
read_byte tag c = if tag == 1 then pipe else c

abbrev prepend : ℕ → Option Text → Option Text
prepend c none = none
prepend c (some s) = some (c ∷ s)

abbrev read : Text → Option Text
read [] = some []
read (tag ∷ []) = none
read (tag ∷ c ∷ s) = prepend (read_byte tag c) (read s)

abbrev number : Option Text → Option ℤ
number (some (n ∷ [])) = some (pos n)
number _ = none

abbrev pub stand_in : Primitives
stand_in = record {
  mac = λ key value. key ++ value;
  ctr = λ key iv value. value;
  base64 = write;
  unbase64 = read;
  decimal = λ n. write (n ∷ []);
  parse_int = λ s. number (read s);
  block_size = 1;
}

read-write : (s : Text) → read (write s) ≡ some s
read-write [] = refl
read-write (c ∷ s) = elim (Bool-cases (c == pipe)) [
  | inl e ↦ rw (e, read-write s) (ap (λ d. some (d ∷ s)) (pipe_eq e))
  | inr e ↦ rw (e, read-write s) refl
]
  where
    pipe_eq : (c == pipe) ≡ true → pipe ≡ c
    pipe_eq e = ground (arith, ==_iff c pipe)

write-Lacks : (s : Text) → Lacks pipe (write s)
write-Lacks [] = tt
write-Lacks (c ∷ s) = elim (Bool-cases (c == pipe)) [
  | inl e ↦ rw e (refl, (refl, write-Lacks s))
  | inr e ↦ rw e (refl, (e, write-Lacks s))
]

pub stand_in-Lawful : Lawful stand_in
stand_in-Lawful = record {
  unbase64-base64 = read-write;
  base64-Lacks = write-Lacks;
  parse_int-decimal = λ n. ap number (read-write (n ∷ []));
  decimal-Lacks = λ n. write-Lacks (n ∷ []);
  ctr-ctr = λ key iv b. refl;
  length-ctr = λ key iv b. refl;
}

not_blank : (c : ℕ) (s : Text) → is_space c ≡ false → is_str_empty (c ∷ s) ≡ false
unfolding is_str_empty trim_space trim_left trim_right
not_blank c s h = rw (is_str_empty, trim_space, trim_left, h, trim_right) (kept (trim_right s))
  where
    kept : (t : Text) → is_nil (cons_trimmed c t) ≡ false
    kept [] = rw h refl
    kept (d ∷ t) = refl

pub stand_in-not_blank : (b : Text) → b ≢ [] → is_str_empty (stand_in.base64 b) ≡ false
unfolding is_space
stand_in-not_blank [] ne = absurd (ne refl)
stand_in-not_blank (c ∷ b) ne = elim (Bool-cases (c == pipe)) [
  | inl e ↦ rw e (not_blank 1 (0 ∷ write b) refl)
  | inr e ↦ rw e (not_blank 0 (c ∷ write b) refl)
]
