-- ===== src/Policy.antt =====
-- crates/blitz-policy/src/policy.rs and the identities of crates/blitz-auth/src/identity.rs.
--
-- `id` is the random Uuid of an identity, an argument here. A set that the source turns into a
-- vector is a list without the duplicates.
pub mod Deny
use blitz_db.Prelude.{
  ℕ, String, Bool, true, false, not, ◌&&◌, ◌||◌, Option, none, some, List, [], ◌∷◌, ◌++◌, any,
  if◌then◌else◌, str_eq,
}
use blitz_db.Prelude.Map
use blitz_db.Prelude.Map.{Map, string_key}

pub data Permission : Type 0 where
  read write delete admin : Permission
  custom : String → Permission

unfoldable pub as_str : Permission → String
as_str read = "read"
as_str write = "write"
as_str delete = "delete"
as_str admin = "admin"
as_str (custom s) = s

-- The derived `==`.
unfoldable pub same_permission : Permission → Permission → Bool
same_permission read read = true
same_permission write write = true
same_permission delete delete = true
same_permission admin admin = true
same_permission (custom s) (custom t) = str_eq s t
same_permission _ _ = false

pub record Identity : Type 0 where
  pub id : ℕ
  pub subject : String
  pub roles : List String
  pub permissions : List Permission
  pub claims : Map String String

unfoldable pub new_identity : ℕ → String → Identity
new_identity uuid s = record { id = uuid; subject = s; roles = []; permissions = []; claims = [] }

unfoldable pub has_role : Identity → String → Bool
has_role i r = any (λ s. str_eq s r) i.roles

unfoldable pub with_role : Identity → String → Identity
with_role i r = record i { roles = i.roles ++ (r ∷ []) }

unfoldable pub with_permission : Identity → Permission → Identity
with_permission i p = record i { permissions = i.permissions ++ (p ∷ []) }

unfoldable pub has_permission : Identity → Permission → Bool
unfolding has_role
has_permission i p =
    if any (λ q. same_permission q p) i.permissions
    then true
    else if has_role i "admin"
    then true
    else false

unfoldable pub with_claim : Identity → String → String → Identity
with_claim i k v = record i { claims = Map.insert i.claims k v }

pub get_claim : Identity → String → Option String
get_claim i k = Map.get i.claims k

pub data Effect : Type 0 where
  allow deny : Effect

pub record PolicyRule : Type 0 where
  pub roles : List String
  pub resource : String
  pub permission : Permission
  pub effect : Effect

unfoldable pub allow_rule : List String → String → Permission → PolicyRule
allow_rule rs on p = record { roles = rs; resource = on; permission = p; effect = allow }

unfoldable pub deny_rule : List String → String → Permission → PolicyRule
deny_rule rs on p = record { roles = rs; resource = on; permission = p; effect = deny }

unfoldable pub is_allow : Effect → Bool
is_allow allow = true
is_allow deny = false

abbrev pub covers : PolicyRule → String → Bool
covers r resource = str_eq r.resource "*" || str_eq r.resource resource

abbrev pub role_matches : PolicyRule → Identity → Bool
role_matches r i = any (has_role i) r.roles

-- The three `continue`s of `check`.
unfoldable pub matches : Identity → String → Permission → PolicyRule → Bool
unfolding same_permission has_role
matches i resource p r =
    if not (covers r resource)
    then false
    else if not (same_permission r.permission p)
    then false
    else role_matches r i

-- The loop: whether a denying rule was met, and whether an allowing one was met before the `break`.
unfoldable pub scan_rules :
    Identity → String → Permission → List PolicyRule → Bool × Bool → Bool × Bool
scan_rules i resource p [] (denied, allowed) = (denied, allowed)
scan_rules i resource p (r ∷ rs) (denied, allowed) =
    let skipped = scan_rules i resource p rs (denied, allowed) in
    let permitted = scan_rules i resource p rs (denied, true) in
    if matches i resource p r
    then elim r.effect [ deny ↦ (true, allowed) | allow ↦ permitted ]
    else skipped

unfoldable pub verdict : Bool × Bool → Bool
verdict (denied, allowed) = if denied then false else if allowed then true else false

-- The policy engine is its list of rules; `check` never returns an error.
unfoldable pub check : List PolicyRule → Identity → String → Permission → Bool
unfolding scan_rules verdict
check rules i resource p = verdict (scan_rules i resource p rules (false, false))

unfoldable pub add_rule : List PolicyRule → PolicyRule → List PolicyRule
add_rule rules r = rules ++ (r ∷ [])

unfoldable pub insert_new : String → List String → List String
insert_new s set = if any (λ t. str_eq t s) set then set else s ∷ set

unfoldable pub allowed_resources : List PolicyRule → Identity → Permission → List String
unfolding insert_new
allowed_resources [] i p = []
allowed_resources (r ∷ rs) i p =
    let rest = allowed_resources rs i p in
    if not (is_allow r.effect)
    then rest
    else if not (same_permission r.permission p)
    then rest
    else if not (role_matches r i)
    then rest
    else insert_new r.resource rest

unfoldable pub insert_permission : Permission → List Permission → List Permission
unfolding same_permission
insert_permission p set = if any (λ q. same_permission q p) set then set else p ∷ set

-- The permissions of the rules that allow something on the resource to a role of the identity.
unfoldable pub permissions_for_resource : List PolicyRule → Identity → String → List Permission
unfolding insert_permission
permissions_for_resource [] i on = []
permissions_for_resource (r ∷ rs) i on =
    let rest = permissions_for_resource rs i on in
    if not (is_allow r.effect)
    then rest
    else if not (str_eq r.resource "*" || str_eq r.resource on)
    then rest
    else if not (role_matches r i)
    then rest
    else insert_permission r.permission rest
