-- ===== src/Server/Access.antt =====
-- crates/blitz-server/src/server.rs: who may do what. `authorize` for a table, `authorize_row` for a
-- row with an owner, `enforce_owner` of crates/blitz-server/src/transport.rs, and the tokens of
-- sessions (crates/blitz-auth/src/session.rs). The clock is that of the crate chrono, a parameter.
pub mod Rows
use blitz_db.Prelude.{
  ℕ, String, Bool, true, false, not, Option, none, some, List, if◌then◌else◌, Result, ok, err,
}
use blitz_db.Prelude.Map
use blitz_db.Prelude.Map.{Map, string_key}
use blitz_db.Prelude.Order.{ℤ, eq_bytes}
use blitz_db.Types.Value.{Foreign, Value}
use blitz_db.Policy.{Identity, Permission, PolicyRule, custom, has_permission, has_role, check}
use blitz_db.Protocol.Message.{Op}
use blitz_db.Protocol.Wire.{from_bits}

-- The texts of the refusals.
pub data Refusal : Type 0 where
  authentication_required policy_denies row_owner_mismatch : Refusal

pub record AccessConfig : Type 0 where
  pub require_auth : Bool
  pub row_owner : Map String String
  pub rules : List PolicyRule

-- The permission that an operation takes; `Ping` and `Version` take none.
unfoldable pub needed : Op → Option Permission
needed Op.ping = none
needed Op.version = none
needed Op.insert = some Permission.write
needed Op.update = some Permission.write
needed Op.get = some Permission.read
needed Op.scan = some Permission.read
needed Op.find = some Permission.read
needed Op.subscribe = some Permission.read
needed Op.search_op = some Permission.read
needed Op.delete = some Permission.delete
needed Op.call = some (custom "call")
needed Op.job_submit = some (custom "job.submit")
needed Op.job_poll = some (custom "job.poll")
needed Op.proc_deploy = some (custom "proc.deploy")
needed Op.proc_list = some (custom "proc.list")
needed Op.proc_drop = some (custom "proc.drop")
needed Op.table_create = some (custom "table.create")

unfoldable pub permitted : AccessConfig → Identity → String → Permission → Result Refusal (Unit {0})
permitted c i table p =
    if has_permission i p
    then ok tt
    else if check c.rules i table p
    then ok tt
    else err policy_denies

unfoldable pub authorize : AccessConfig → Option Identity → Op → String → Result Refusal (Unit {0})
unfolding needed permitted
authorize c ident op table = if not c.require_auth then ok tt else elim (needed op) [
  | none ↦ ok tt
  | some p ↦ elim ident [ none ↦ err authentication_required | some i ↦ permitted c i table p ]
]

unfoldable pub owner_column : AccessConfig → String → Option String
owner_column c table = Map.get c.row_owner table

module _ {F : Foreign} (as_bytes : String → List ℕ) where
  -- `Some(Value::String(s)) if s == &id.subject`
  unfoldable pub is_subject : Identity → Option (Value F) → Bool
  is_subject i (some (Value.string t)) = eq_bytes t (as_bytes i.subject)
  is_subject i _ = false

  unfoldable pub owns : Option Identity → Option (Value F) → Result Refusal (Unit {0})
  unfolding is_subject
  owns none owner = err authentication_required
  owns (some i) owner =
      if has_role i "admin"
      then ok tt
      else if is_subject i owner
      then ok tt
      else err row_owner_mismatch

  unfoldable pub authorize_row :
      AccessConfig → Option Identity → Op → String → Option (Value F) → Result Refusal (Unit {0})
  unfolding authorize owns
  authorize_row c ident op table owner = elim (authorize c ident op table) [
    | err e ↦ err e
    | ok u ↦
        if not c.require_auth
        then ok tt
        else if not (Map.contains_key c.row_owner table)
        then ok tt
        else owns ident owner
  ]

  unfoldable pub enforce_owner :
      AccessConfig
      → Option Identity
      → Op
      → String
      → Map String (Value F)
      → Result Refusal (Unit {0})
  unfolding owner_column authorize_row
  enforce_owner c ident op table values = elim (owner_column c table) [
    | none ↦ ok tt
    | some col ↦ authorize_row c ident op table (Map.get values col)
  ]

-- What the sessions use of chrono: `>` of two instants, and an instant so many seconds on, none
-- where `Duration::seconds` or the addition panics.
pub record Clock : Type 1 where
  pub Instant : Type 0
  pub is_after : Instant → Instant → Bool
  pub add_seconds : Instant → ℤ → Option Instant

pub record Session (c : Clock) : Type 0 where
  pub identity : Identity
  pub expires_at : c.Instant

-- The sessions and the identities that stay.
pub record Tokens (c : Clock) : Type 0 where
  pub sessions : Map String (Session c)
  pub identities : Map String Identity

module _ {c : Clock} where
  unfoldable pub is_expired : c.Instant → Session c → Bool
  is_expired now s = c.is_after now s.expires_at

  unfoldable pub resolve_token : Tokens c → c.Instant → String → Option Identity × Tokens c
  unfolding is_expired
  resolve_token t now token = elim (Map.get t.sessions token) [
    | none ↦ (Map.get t.identities token, t)
    | some s ↦
        if is_expired now s
        then (Map.get t.identities token, record t { sessions = Map.remove t.sessions token })
        else (some s.identity, t)
  ]

  -- `ttl_secs as i64` reads the bits of the number as a signed one. None where it panics.
  unfoldable pub register_session : Tokens c → c.Instant → String → Identity → ℕ → Option (Tokens c)
  register_session t now token i ttl_secs = elim (c.add_seconds now (from_bits 64 ttl_secs)) [
    | none ↦ none
    | some e ↦ some (record t {
      sessions = Map.insert t.sessions token (record { identity = i; expires_at = e });
    })
  ]

  pub register_identity : Tokens c → String → Identity → Tokens c
  register_identity t token i = record t { identities = Map.insert t.identities token i }

  pub get_identity : Tokens c → String → Option Identity
  get_identity t token = Map.get t.identities token
