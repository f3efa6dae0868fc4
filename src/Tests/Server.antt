-- ===== src/Tests/Server.antt =====
-- The server's rules at concrete requests.
use blitz_db.Prelude.{
  ◌≤◌, none, ℕ, suc, ◌+◌, ◌^◌, String, true, false, some, List, [], ◌∷◌, ok, ltb, leb,
  if◌then◌else◌, ◌≡◌, refl, ◌-◌, arith, subst, Bool-cases, ◌⊎◌, inl, inr, str_eq,
}
use blitz_db.Prelude.Map
use blitz_db.Prelude.Map.{Map, string_key, nat_key}
use blitz_db.Prelude.Order.{pos, negsuc, eq_bytes}
use blitz_db.Types.Value.{Value}
use blitz_db.Policy.{Identity, Permission, has_permission, has_role, same_permission}
use blitz_db.Protocol.Message.{Op}
use blitz_db.Protocol.Wire.{from_bits}
use blitz_db.Server.Access.{
  AccessConfig, Clock, Tokens, authorize, authorize_row, enforce_owner, owner_column, owns,
  is_subject, needed, permitted, resolve_token, register_session,
}
use blitz_db.Server.Access.Rows.{enforce_owner_sound, resolve-register_session}
use blitz_db.Server.Window.{apply_window, cursor_start, search}
use blitz_db.Server.Window.Pages.{IsSorted, next_window, apply_window-next_window}
use blitz_db.Server.Changes.{ChangeRecord, Changes, record_change}
use blitz_db.Server.Changes.Ordered.{ChangesValid, IsWindow, record_change-ChangesValid}
use blitz_db.Server.Ids.{compose_id}
use blitz_db.Server.Routing.{ShardSpec, shard_count, route_id, route_insert, route_id-route_insert}
use blitz_db.Server.Limits.{Limits, Admission, ip_acquire}
use blitz_db.Server.Limits.Bounds.{IsWithin, comes_from, Turn-IsWithin}
use blitz_db.Tests.Wire.{plain, wire}

abbrev writer : Identity
writer = record {
  id = 1;
  subject = "ann";
  roles = [];
  permissions = Permission.write ∷ [];
  claims = [];
}

abbrev owned : AccessConfig
owned = record { require_auth = true; row_owner = ("docs", "owner") ∷ []; rules = [] }

abbrev her_row : Map String (Value plain)
her_row = ("owner", Value.string (97 ∷ 110 ∷ 110 ∷ [])) ∷ []

passes : enforce_owner wire.as_bytes owned (some writer) Op.insert "docs" her_row ≡ ok tt
unfolding enforce_owner owner_column authorize_row authorize needed permitted has_permission
    same_permission has_role owns is_subject Map.get Map.contains_key eq_bytes
passes = refl

enforce_owner_sound_example :
    (authorize owned (some writer) Op.insert "docs" ≡ ok tt)
    × (Map.get her_row "owner" ≡ some (Value.string (wire.as_bytes "ann")))
enforce_owner_sound_example =
    enforce_owner_sound wire owned writer Op.insert "docs" "owner" her_row refl
      (unfold Map.get in refl) (unfold has_role in refl) passes

-- A clock in seconds that counts up to the year 10,000.
abbrev seconds : Clock
seconds = record {
  Instant = ℕ;
  is_after = λ a b. ltb b a;
  add_seconds = λ now z. elim z [
    | pos n ↦ if leb (now + n) 253_402_300_799 then some (now + n) else none
    | negsuc n ↦ if ltb n now then some (now - suc n) else none
  ];
}

abbrev no_tokens : Tokens seconds
no_tokens = record { sessions = []; identities = [] }

sixty : seconds.add_seconds 100 (from_bits 64 60) ≡ some 160
sixty = refl

resolve-register_session_example :
    (registered : Tokens seconds) × (register_session no_tokens 100 "t" writer 60 ≡ some registered)
    × ((k : String)
        → (resolve_token registered 150 k).0 ≡ (
            if str_eq "t" k
            then (if ltb 160 150 then Map.get no_tokens.identities "t" else some writer)
            else (resolve_token no_tokens 150 k).0))
resolve-register_session_example =
    resolve-register_session no_tokens 100 150 "t" writer 60 160 sixty

-- A lifetime of 2^64 - 1 seconds ends a second before it begins.
born_expired : seconds.add_seconds 100 (from_bits 64 (2 ^ 64 - 1)) ≡ some 99
born_expired = refl

-- The rows of a scan, downwards: 9, 8, 7, 6.
abbrev down : ℕ → ℕ
down i = 9 - i

down-IsSorted : IsSorted true down 4
down-IsSorted i j less inside = omega arith

apply_window-next_window_example :
    apply_window 4 false (next_window 5 true down 2) down ≡ (2, if leb (2 + 5) 4 then 2 + 5 else 4)
apply_window-next_window_example =
    apply_window-next_window 4 5 2 true down down-IsSorted (omega arith) (omega arith) (omega arith)

second_page : apply_window 4 false (next_window 5 true down 2) down ≡ (2, 4)
unfolding apply_window cursor_start search
second_page = refl

abbrev one_change : Changes
one_change = record {
  is_used = true;
  next_seq = 1;
  logs =
      ("docs", record { seq = 0; table = "docs"; op = "insert"; row_id = 1; ts_micros = 5 } ∷ [])
      ∷ [];
  is_push_used = false;
  hub = [];
  delivered = 0;
  dropped = 0;
}

one_change-ChangesValid : ChangesValid one_change
unfolding Map.get
one_change-ChangesValid = record {
  windows = λ t q found. kept t q (Bool-cases (str_eq "docs" t)) found;
}
  where
    kept :
        (t : String) (q : List ChangeRecord)
        → (str_eq "docs" t ≡ true) ⊎ (str_eq "docs" t ≡ false)
        → Map.get one_change.logs t ≡ some q
        → IsWindow 1 q
    kept t q (inl same) found =
        let stored : record { seq = 0; table = "docs"; op = "insert"; row_id = 1; ts_micros = 5 }
              ∷ []
            ≡ q =
          ground (arith, same, found) in
        subst (IsWindow 1) stored ((omega arith, omega arith, tt), omega arith)
    kept t q (inr other) found = ground (arith, other, found)

record_change-ChangesValid_example : ChangesValid (record_change one_change 6 "docs" "update" 1)
record_change-ChangesValid_example =
    record_change-ChangesValid one_change 6 "docs" "update" 1 (omega arith) one_change-ChangesValid

abbrev limits : Limits
limits = record { max_connections = 2; max_connections_per_ip = 1; shed_at_connections = none }

abbrev one_open : Admission
one_open = record { connections = 1; ips = (7, 1) ∷ [] }

one_open-IsWithin : IsWithin limits one_open
unfolding Map.get
one_open-IsWithin = record { all = omega arith; each = λ ip limited. ground arith }

Turn-IsWithin_example : IsWithin limits (ip_acquire limits one_open 7).1
Turn-IsWithin_example =
    Turn-IsWithin (comes_from one_open 7) (omega arith) (omega arith) one_open-IsWithin

abbrev shard_name : String → ℕ → String
shard_name base shard = "t_01"

abbrev two_shards : Map String ShardSpec
two_shards = ("t", record { shards = 2; column = "owner" }) ∷ []

two_shards-fit : shard_count {F = plain} wire (λ d. []) shard_name two_shards "t" ≤ 256
unfolding shard_count Map.get
two_shards-fit = omega arith

route_id-route_insert_example :
    route_id wire
      (λ d. [])
      shard_name
      two_shards
      "t"
      (compose_id (route_insert wire (λ d. []) shard_name two_shards "t" her_row).1 5)
    ≡ ((route_insert wire (λ d. []) shard_name two_shards "t" her_row).0, 5)
route_id-route_insert_example =
    route_id-route_insert wire (λ d. []) shard_name two_shards "t" her_row 5 two_shards-fit
      (omega arith)
