-- ===== src/Authz/Info/Remove.antt =====
-- What `RemovePermission` leaves.
use mathlib.Core.Path.{subst}
use aah.Prelude.{
  ◌≡◌, refl, ◌↔◌, inl, inr, false, List, [], ◌∷◌, ◌++◌, map, map-append, In-append, some, arith,
  if◌then◌else◌, Bool-cases, In, In-append_left, In-append_right,
}
use aah.Prelude.Outcome.{returns}
use aah.Authz.Permission.{Permission, equals}
use aah.Authz.Info.{AuthorizationInfo, keep_each, keep_all, remove_permission}

-- the stored permissions that one argument keeps
abbrev pub keep_unequal : Permission → List Permission → List Permission
keep_unequal p [] = []
keep_unequal p (s ∷ ss) = if equals p s then keep_unequal p ss else s ∷ keep_unequal p ss

keep_all_single :
    (p : Permission) (ss : List Permission)
    → keep_all (some p ∷ []) (map some ss) ≡ returns (map some (keep_unequal p ss))
unfolding keep_all keep_each
keep_all_single p [] = refl
keep_all_single p (s ∷ ss) = ground (arith, keep_all_single p ss)

-- Removing one permission keeps, in order, the stored ones that it does not equal, and the roles.
pub remove_permission_single :
    (a : AuthorizationInfo) (p : Permission) (ss : List Permission)
    → a.permissions ≡ map some ss
    → remove_permission a (some p ∷ [])
      ≡ returns (record a { permissions = map some (keep_unequal p ss) })
unfolding remove_permission
remove_permission_single a p ss h = rw (h, keep_all_single p ss) refl

-- the copies of one stored permission that several arguments keep
abbrev survivors : List Permission → Permission → List Permission
survivors [] s = []
survivors (p ∷ ps) s = if equals p s then survivors ps s else s ∷ survivors ps s

abbrev survivors_all : List Permission → List Permission → List Permission
survivors_all ps [] = []
survivors_all ps (s ∷ ss) = survivors ps s ++ survivors_all ps ss

-- an argument that the permission does not equal
abbrev pub Unequal : List Permission → Permission → Type 0
Unequal ps s = (p : Permission) × In p ps × (equals p s ≡ false)

keep_each-survivors :
    (ps : List Permission) (s : Permission)
    → keep_each (map some ps) (some s) ≡ returns (map some (survivors ps s))
unfolding keep_each
keep_each-survivors [] s = refl
keep_each-survivors (p ∷ ps) s = ground (arith, keep_each-survivors ps s)

keep_all-survivors :
    (ps ss : List Permission)
    → keep_all (map some ps) (map some ss) ≡ returns (map some (survivors_all ps ss))
unfolding keep_all
keep_all-survivors ps [] = refl
keep_all-survivors ps (s ∷ ss) =
    rw (keep_each-survivors ps s, keep_all-survivors ps ss) (rw map-append refl)

survivors_same : (ps : List Permission) (s t : Permission) → In t (survivors ps s) → s ≡ t
survivors_same [] s t m = elim m [ ]
survivors_same (p ∷ ps) s t m = ground (arith, survivors_same ps s t)

survivors-Unequal : (ps : List Permission) (s t : Permission) → In t (survivors ps s) → Unequal ps s
survivors-Unequal [] s t m = elim m [ ]
survivors-Unequal (p ∷ ps) s t m = elim (Bool-cases (equals p s)) [
  | inl e ↦ let (q, k, f) = survivors-Unequal ps s t (rw e at m) in (q, inr k, f)
  | inr e ↦ (p, inl refl, e)
]

In-survivors :
    (ps : List Permission) (s q : Permission) → In q ps → equals q s ≡ false → In s (survivors ps s)
In-survivors [] s q k f = elim k [ ]
In-survivors (p ∷ ps) s q (inl e) f = rw (e, f) (inl refl)
In-survivors (p ∷ ps) s q (inr k) f = ground (arith, In-survivors ps s q k f)

survivors_all_to :
    (ps ss : List Permission) (t : Permission) → In t (survivors_all ps ss) → In t ss × Unequal ps t
survivors_all_to ps [] t m = elim m [ ]
survivors_all_to ps (s ∷ ss) t m = elim (In-append t (survivors ps s) (survivors_all ps ss) m) [
  | inl k ↦
      let same = survivors_same ps s t k in
      (inl same, subst (Unequal ps) same (survivors-Unequal ps s t k))
  | inr k ↦ let (n, u) = survivors_all_to ps ss t k in (inr n, u)
]

survivors_all_from :
    (ps ss : List Permission) (t : Permission) → In t ss → Unequal ps t → In t (survivors_all ps ss)
survivors_all_from ps [] t m u = elim m [ ]
survivors_all_from ps (s ∷ ss) t (inl e) (q, k, f) =
    In-append_left t (survivors ps s) (survivors_all ps ss) (rw e (In-survivors ps t q k f))
survivors_all_from ps (s ∷ ss) t (inr m) u =
    In-append_right t (survivors ps s) (survivors_all ps ss) (survivors_all_from ps ss t m u)

-- Removing several permissions at once leaves exactly the stored ones that some argument does not
-- equal: with no argument none is left, and with two that differ each keeps what the other removes.
pub remove_permission_survivors :
    (a : AuthorizationInfo) (ps ss : List Permission)
    → a.permissions ≡ map some ss
    → (rs : List Permission) × (remove_permission a (map some ps)
        ≡ returns (record a { permissions = map some rs }))
      × ((s : Permission) → In s rs ↔ (In s ss × Unequal ps s))
unfolding remove_permission
remove_permission_survivors a ps ss h = (
  survivors_all ps ss,
  rw (h, keep_all-survivors ps ss) refl,
  λ s. (survivors_all_to ps ss s, λ (m, u). survivors_all_from ps ss s m u),
)
