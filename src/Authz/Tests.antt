-- ===== src/Authz/Tests.antt =====
-- Runs of security/authz on small inputs, and the theorems about it at such inputs.
use aah.Prelude.{
  ℕ, ◌≡◌, refl, ◌↔◌, true, false, ◌++◌, List, [], ◌∷◌, none, some, arith, All, ◌==◌, if◌then◌else◌,
}
use aah.Prelude.Outcome.{returns, ◌>>=◌}
use aah.Text.{Text, codes, is_str_empty, split}
use aah.Authz.Permission.{
  Parts, Permission, Parsed, ok, err, improper_format, implies, equals, new_permission,
  new_permission_cs, render, string,
}
use aah.Authz.Permission.Order.{Grants, implies_iff, implies_trans}
use aah.Authz.Permission.Parse.{NotBlank, ReadsAll, folded, new_permission_cs_iff}
use aah.Authz.Permission.RoundTrip.{new_permission_cs-render-new_permission_cs}
use aah.Authz.Pool.{PoolStep, draw, put_back}
use aah.Authz.Info.{AuthorizationInfo, merge, remove_permission, is_permitted_p}
use aah.Authz.Info.Permitted.{is_permitted_p-merge}
use aah.Authz.Slices.{Store, Slice, view, merge_roles}
use aah.Authz.Slices.Aliasing.{merge_roles_twice}

abbrev printer : Permission
printer = record { parts = (codes "printer" ∷ []) ∷ (codes "print" ∷ codes "query" ∷ []) ∷ [] }

abbrev printing : Permission
printing = record {
  parts = (codes "printer" ∷ []) ∷ (codes "print" ∷ []) ∷ (codes "epson" ∷ []) ∷ [];
}

abbrev scanner : Permission
scanner = record { parts = (codes "scanner" ∷ []) ∷ [] }

parse_printer : new_permission (codes " Printer:print, query ") ≡ ok printer
unfolding new_permission is_str_empty split aah.Text.lower_byte
parse_printer = refl

parse_blank_part : new_permission (codes "printer::epson") ≡ err improper_format
unfolding new_permission is_str_empty split aah.Text.lower_byte
parse_blank_part = refl

-- A part of dividers only is accepted, and every permission with the part before it implies it.
parse_dividers :
    new_permission (codes "printer:,") ≡ ok (record { parts = (codes "printer" ∷ []) ∷ [] ∷ [] })
unfolding new_permission is_str_empty split aah.Text.lower_byte
parse_dividers = refl

string-printer : string printer ≡ codes "permission(printer:print,query)"
unfolding string aah.Text.join
string-printer = refl

printer-implies : implies printer printing ≡ true
unfolding implies aah.Authz.Permission.contains aah.Text.text_eq aah.Authz.Permission.contains_all
printer-implies = refl

-- `Equals` is not symmetric.
equals_one_way :
    (equals printer (record { parts = (codes "printer" ∷ []) ∷ (codes "print" ∷ []) ∷ [] }) ≡ true)
    × (equals (record { parts = (codes "printer" ∷ []) ∷ (codes "print" ∷ []) ∷ [] }) printer
        ≡ false)
unfolding equals aah.Authz.Permission.contains_all aah.Authz.Permission.contains aah.Text.text_eq
equals_one_way = (refl, refl)

implies_iff_example : (implies printer printing ≡ true) ↔ Grants printer.parts printing.parts
implies_iff_example = implies_iff printer printing

printing-implies : implies printing printing ≡ true
unfolding implies aah.Authz.Permission.contains aah.Text.text_eq aah.Authz.Permission.contains_all
printing-implies = refl

implies_trans_example : implies printer printing ≡ true
implies_trans_example = implies_trans printer printing printing printer-implies printing-implies

new_permission_cs_iff_example :
    (new_permission_cs (codes "a:b") true
      ≡ ok (record { parts = (codes "a" ∷ []) ∷ (codes "b" ∷ []) ∷ [] }))
    ↔ ((is_str_empty (codes "a:b") ≡ false)
        × All NotBlank (split b':' (folded (codes "a:b") true))
        × ReadsAll
            (split b':' (folded (codes "a:b") true))
            ((codes "a" ∷ []) ∷ (codes "b" ∷ []) ∷ []))
new_permission_cs_iff_example =
    new_permission_cs_iff (codes "a:b") true
      (record { parts = (codes "a" ∷ []) ∷ (codes "b" ∷ []) ∷ [] })

parse_folded : new_permission_cs (codes "Printer:print,query") false ≡ ok printer
unfolding new_permission_cs is_str_empty split aah.Text.lower_byte
parse_folded = refl

new_permission_cs-render-new_permission_cs_example :
    new_permission_cs (render printer.parts) true ≡ ok printer
new_permission_cs-render-new_permission_cs_example =
    new_permission_cs-render-new_permission_cs (codes "Printer:print,query") false printer
      parse_folded ((λ e. cc e), ((λ e. cc e), tt))

abbrev pool_use : List PoolStep
pool_use = put_back (some printer ∷ none ∷ some scanner ∷ []) ∷ draw (codes "a::") true ∷ []

abbrev ann : AuthorizationInfo
ann = record { roles = codes "user" ∷ []; permissions = some printer ∷ [] }

abbrev bob : AuthorizationInfo
bob = record { roles = codes "admin" ∷ []; permissions = some scanner ∷ [] }

abbrev both : AuthorizationInfo
both = record {
  roles = codes "user" ∷ codes "admin" ∷ [];
  permissions = some printer ∷ some scanner ∷ [];
}

merge-both : merge ann bob ≡ returns both
unfolding merge
merge-both = refl

is_permitted_p-merge_example :
    (is_permitted_p both (some scanner) ≡ (
      is_permitted_p ann (some scanner) >>= λ granted.
      if granted then returns true else is_permitted_p bob (some scanner)))
    × (both.roles ≡ ann.roles ++ bob.roles)
is_permitted_p-merge_example = is_permitted_p-merge ann bob both scanner merge-both

ann_permitted : is_permitted_p ann (some printer) ≡ returns true
unfolding is_permitted_p implies aah.Authz.Permission.contains aah.Text.text_eq
    aah.Authz.Permission.contains_all
ann_permitted = refl

ann_denied : is_permitted_p ann (some scanner) ≡ returns false
unfolding is_permitted_p implies aah.Authz.Permission.contains aah.Text.text_eq
    aah.Authz.Permission.contains_all
ann_denied = refl

-- Removing both of two permissions at once removes neither.
remove_both_keeps : remove_permission both (some printer ∷ some scanner ∷ []) ≡ returns both
unfolding remove_permission equals aah.Authz.Permission.contains_all aah.Authz.Permission.contains
    aah.Text.text_eq
remove_both_keeps = refl

-- address 0 has room for one role more; 1 and 2 hold one role each
abbrev roles_store : Store
roles_store = record {
  array = λ a.
      if a == 0
      then codes "user" ∷ [] ∷ []
      else if a == 1
      then codes "audit" ∷ []
      else codes "admin" ∷ [];
  next = 3;
}

abbrev one_role : ℕ → Slice
one_role a = record { address = a; len = 1 }

merge_roles_twice_example :
    let (st₁, merged₁) = merge_roles roles_store (one_role 0) (one_role 1) [] in
    view (merge_roles st₁ (one_role 0) (one_role 2) []).0 merged₁
    ≡ view roles_store (one_role 0) ++ view roles_store (one_role 2)
merge_roles_twice_example =
    merge_roles_twice roles_store (one_role 0) (one_role 1) (one_role 2) [] []
      (omega arith, omega arith) (omega arith, omega arith) (omega arith, omega arith) (omega arith)
      refl (omega arith)
