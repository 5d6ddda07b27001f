-- ===== src/Authz/Pool.antt =====
-- security/authz/authz.go: the pool of permissions. `sync.Pool` may hand out any pooled value or
-- a new one; the model hands out the last one that was put back.
use aah.Prelude.{◌≡◌, refl, ap, Bool, List, [], ◌∷◌, Option, none, some, All}
use aah.Text.{Text}
use aah.Authz.Permission.{Permission, Parsed, parse_into, new_permission_cs, Parts}

abbrev pub PermissionPool : Type 0
PermissionPool = List Permission

-- the `New` function of the pool
abbrev pub fresh : Permission
fresh = record { parts = [] }

unfoldable pub acquire_permission : PermissionPool → Permission × PermissionPool
acquire_permission [] = (fresh, [])
acquire_permission (p ∷ pool) = (p, pool)

unfoldable pub reset : Permission → Permission
reset p = record p { parts = [] }

-- the loop of `releasePermission`; `none` is a nil pointer
unfoldable pub release_permission : PermissionPool → List (Option Permission) → PermissionPool
unfolding reset
release_permission pool [] = pool
release_permission pool (none ∷ ps) = release_permission pool ps
release_permission pool (some p ∷ ps) = release_permission (reset p ∷ pool) ps

-- `NewPermissioncs` with the pool that it draws on. A permission that is not returned is dropped.
unfoldable pub new_permission_pooled : PermissionPool → Text → Bool → Parsed × PermissionPool
unfolding acquire_permission parse_into
new_permission_pooled pool permission case_sensitive =
    let (p, rest) = acquire_permission pool in (parse_into p permission case_sensitive, rest)

-- every pooled permission is as new
abbrev pub IsReset : PermissionPool → Type 0
IsReset pool = All (λ (p : Permission). p.parts ≡ []) pool

-- Releasing permissions, nil pointers among them, keeps every pooled permission without parts.
pub release_permission-IsReset :
    (pool : PermissionPool) (ps : List (Option Permission))
    → IsReset pool
    → IsReset (release_permission pool ps)
unfolding release_permission
release_permission-IsReset pool [] h = h
release_permission-IsReset pool (none ∷ ps) h = release_permission-IsReset pool ps h
release_permission-IsReset pool (some p ∷ ps) h =
    release_permission-IsReset (reset p ∷ pool) ps (refl, h)

-- one permission drawn and parsed, or several put back
pub data PoolStep : Type 0 where
  draw : Text → Bool → PoolStep
  put_back : List (Option Permission) → PoolStep

unfoldable pub run_step : PermissionPool → PoolStep → PermissionPool
unfolding new_permission_pooled release_permission
run_step pool (draw s cs) = (new_permission_pooled pool s cs).1
run_step pool (put_back ps) = release_permission pool ps

unfoldable pub run_steps : PermissionPool → List PoolStep → PermissionPool
unfolding run_step
run_steps pool [] = pool
run_steps pool (step ∷ steps) = run_steps (run_step pool step) steps

run_step-IsReset :
    (pool : PermissionPool) (step : PoolStep) → IsReset pool → IsReset (run_step pool step)
unfolding run_step
run_step-IsReset [] (draw s cs) h = tt
run_step-IsReset (p ∷ pool) (draw s cs) h = h.1
run_step-IsReset pool (put_back ps) h = release_permission-IsReset pool ps h

run_steps-IsReset :
    (pool : PermissionPool) (steps : List PoolStep) → IsReset pool → IsReset (run_steps pool steps)
unfolding run_steps
run_steps-IsReset pool [] h = h
run_steps-IsReset pool (step ∷ steps) h =
    run_steps-IsReset (run_step pool step) steps (run_step-IsReset pool step h)

pooled_of_IsReset :
    (pool : PermissionPool) (s : Text) (cs : Bool)
    → IsReset pool
    → (new_permission_pooled pool s cs).0 ≡ new_permission_cs s cs
unfolding new_permission_pooled new_permission_cs
pooled_of_IsReset [] s cs h = refl
pooled_of_IsReset (p ∷ pool) s cs h =
    ap (λ (ps : List Parts). parse_into (record { parts = ps }) s cs) h.0

-- Whatever was drawn from the pool and put back before, `NewPermissioncs` answers as on a new
-- permission: no part of an earlier one is left in what it returns.
pub new_permission_pooled_lem :
    (steps : List PoolStep) (s : Text) (cs : Bool)
    → (new_permission_pooled (run_steps [] steps) s cs).0 ≡ new_permission_cs s cs
new_permission_pooled_lem steps s cs =
    pooled_of_IsReset (run_steps [] steps) s cs (run_steps-IsReset [] steps tt)
