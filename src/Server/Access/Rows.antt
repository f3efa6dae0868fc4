-- ===== src/Server/Access/Rows.antt =====
-- What the checks promise: owners are told apart, and a session is good until it expires.
use blitz_db.Prelude.{
  ℕ, String, true, false, Option, none, some, if◌then◌else◌, str_eq, ok, ◌≡◌, refl, arith, eq_iff,
  Result-cases, Bool-cases, ◌⊎◌, inl, inr,
}
use blitz_db.Prelude.Map
use blitz_db.Prelude.Map.{Map, string_key, get-insert}
use blitz_db.Prelude.Order.{eq_bytes_sound}
use blitz_db.Types.Value.{Foreign, Value}
use blitz_db.Policy.{Identity, has_role}
use blitz_db.Protocol.Message.{Op}
use blitz_db.Protocol.Wire.{Wire, from_bits}
use blitz_db.Server.Access.{
  AccessConfig, Session, authorize, authorize_row, enforce_owner, owner_column, owns, is_subject,
  Clock, Tokens, is_expired, resolve_token, register_session,
}

module _ {F : Foreign} (w : Wire F) where
  owns_subject :
      (i : Identity) (owner : Option (Value F))
      → has_role i "admin" ≡ false
      → owns w.as_bytes (some i) owner ≡ ok tt
      → owner ≡ some (Value.string (w.as_bytes i.subject))
  unfolding owns is_subject
  owns_subject i none plain passed = ground (arith, plain, passed)
  owns_subject i (some (Value.string t)) plain passed =
      ground (arith, plain, passed, eq_bytes_sound t (w.as_bytes i.subject))
  owns_subject i (some v) plain passed = ground (arith, plain, passed)

  -- With authentication required and an owner column set for the table, an identity without the
  -- admin role passes `enforce_owner` only if it may do the operation on the table and the owner
  -- column of the row holds exactly its subject.
  pub enforce_owner_sound :
      (c : AccessConfig) (i : Identity) (op : Op) (table col : String)
      (values : Map String (Value F))
      → c.require_auth ≡ true
      → Map.get c.row_owner table ≡ some col
      → has_role i "admin" ≡ false
      → enforce_owner w.as_bytes c (some i) op table values ≡ ok tt
      → (authorize c (some i) op table ≡ ok tt)
        × (Map.get values col ≡ some (Value.string (w.as_bytes i.subject)))
  unfolding enforce_owner owner_column authorize_row Map.contains_key
  enforce_owner_sound c i op table col values auth owned plain passed =
      elim (Result-cases (authorize c (some i) op table)) [
        | inl (u, fine) ↦
            let own : owns w.as_bytes (some i) (Map.get values col) ≡ ok tt =
              ground (arith, auth, owned, fine, passed) in
            (fine, owns_subject i (Map.get values col) plain own)
        | inr (e, refused) ↦ ground (arith, owned, refused, passed)
      ]

-- If the clock can add the lifetime, read as an `i64`, to the present instant, then the session is
-- registered, and from then on its token resolves at any instant that is not after the end to the
-- identity it was registered for, and at a later one to what the lasting identities have under it,
-- while every other token resolves as before.
pub resolve-register_session :
    {c : Clock} (t : Tokens c) (now later : c.Instant) (token : String) (i : Identity)
    (ttl_secs : ℕ) (e : c.Instant)
    → c.add_seconds now (from_bits 64 ttl_secs) ≡ some e
    → (registered : Tokens c) × (register_session t now token i ttl_secs ≡ some registered)
      × ((k : String)
          → (resolve_token registered later k).0 ≡ (
              if str_eq token k
              then (if c.is_after later e then Map.get t.identities token else some i)
              else (resolve_token t later k).0))
unfolding resolve_token register_session is_expired
resolve-register_session {c} t now later token i ttl_secs e ends =
    let s : Session c = record { identity = i; expires_at = e } in
    (
      record t { sessions = Map.insert t.sessions token s },
      rw (ends, register_session) refl,
      λ k. resolved k (get-insert t.sessions token k s) (Bool-cases (str_eq token k)),
    )
  where
    resolved :
        (k : String)
        → (Map.get (Map.insert t.sessions token (record { identity = i; expires_at = e })) k ≡ (
            if str_eq token k
            then some (record { identity = i; expires_at = e })
            else Map.get t.sessions k))
        → (str_eq token k ≡ true) ⊎ (str_eq token k ≡ false)
        → (resolve_token
            (record t {
              sessions = Map.insert t.sessions token (record { identity = i; expires_at = e });
            })
            later
            k).0
          ≡ (if str_eq token k
              then (if c.is_after later e then Map.get t.identities token else some i)
              else (resolve_token t later k).0)
    resolved k stored (inl same) =
        let name : token ≡ k = (eq_iff token k).0 same in ground (arith, stored, same, name)
    resolved k stored (inr other) = ground (arith, stored, other)
