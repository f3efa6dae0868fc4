-- ===== src/Server/Changes.antt =====
-- crates/blitz-server/src/server.rs: the log of recent changes that subscribers poll, and the
-- streams that the changes are pushed to. The clock is an argument. A stream is its queue, which
-- holds 64 records, until its reader closes it.
pub mod Ordered
use blitz_db.Prelude.{
  ℕ, ◌+◌, ◌-◌, ◌%◌, ◌^◌, String, Bool, true, false, not, ◌&&◌, ◌||◌, Option, none, some, List, [],
  ◌∷◌, ◌++◌, map, keep, length, take, drop, leb, ltb, ◌==◌, if◌then◌else◌,
}
use blitz_db.Prelude.Map
use blitz_db.Prelude.Map.{Map, string_key}

pub record ChangeRecord : Type 0 where
  pub seq : ℕ
  pub table : String
  pub op : String
  pub row_id : ℕ
  pub ts_micros : ℕ

abbrev pub max_changes_per_table : ℕ
max_changes_per_table = 128

abbrev pub stream_depth : ℕ
stream_depth = 64

pub record Stream : Type 0 where
  pub id : ℕ
  pub is_closed : Bool
  pub queue : List ChangeRecord

pub record Changes : Type 0 where
  pub is_used : Bool
  pub next_seq : ℕ
  pub logs : Map String (List ChangeRecord)
  pub is_push_used : Bool
  pub hub : Map String (List Stream)
  pub delivered : ℕ
  pub dropped : ℕ

-- `while q.len() > MAX_CHANGES_PER_TABLE { q.pop_front(); }`
unfoldable pub trim : List ChangeRecord → List ChangeRecord
trim q = drop (length q - max_changes_per_table) q

unfoldable pub log_of : Changes → String → List ChangeRecord
log_of c table = elim (Map.get c.logs table) [ none ↦ [] | some q ↦ q ]

unfoldable pub streams_of : Changes → String → List Stream
streams_of c table = elim (Map.get c.hub table) [ none ↦ [] | some s ↦ s ]

-- Whether `try_send` takes the record.
unfoldable pub takes : Stream → Bool
takes s = not s.is_closed && ltb (length s.queue) stream_depth

unfoldable pub send : ChangeRecord → Stream → Stream
send r s = record s { queue = s.queue ++ (r ∷ []) }

-- Every stream is offered the record; one that does not take it is dropped from the hub.
unfoldable pub push : Changes → String → ChangeRecord → Changes
unfolding streams_of takes send
push c table r =
    if not c.is_push_used
    then c
    else let targets = streams_of c table in
      let live = keep takes targets in
      elim (Map.get c.hub table) [
        | none ↦ c
        | some s ↦ record c {
          hub = Map.insert c.hub table (map (send r) live);
          delivered = (c.delivered + length live) % 2 ^ 64;
          dropped = (c.dropped + (length targets - length live)) % 2 ^ 64;
        }
      ]

-- The record, and the log of its table with it.
unfoldable pub append_change : Changes → ℕ → String → String → ℕ → ChangeRecord × Changes
unfolding trim log_of
append_change c now table op row_id =
    let r : ChangeRecord = record {
      seq = c.next_seq;
      table = table;
      op = op;
      row_id = row_id;
      ts_micros = now;
    } in
    (
      r,
      record c {
        next_seq = (c.next_seq + 1) % 2 ^ 64;
        logs = Map.insert c.logs table (trim (log_of c table ++ (r ∷ [])));
      },
    )

unfoldable pub record_change : Changes → ℕ → String → String → ℕ → Changes
unfolding append_change push
record_change c now table op row_id =
    if not c.is_used
    then c
    else let (r, c') = append_change c now table op row_id in push c' table r

-- `limit.clamp(1, 1000)`
abbrev pub clamp_limit : ℕ → ℕ
clamp_limit n = if ltb n 1 then 1 else if ltb 1000 n then 1000 else n

unfoldable pub read_changes : Changes → String → ℕ → ℕ → List ChangeRecord × Changes
unfolding log_of
read_changes c table since limit = (
  take (clamp_limit limit) (keep (λ r. ltb since r.ts_micros) (log_of c table)),
  record c { is_used = true },
)

unfoldable pub push_subscribe : Changes → String → ℕ × Changes
unfolding streams_of
push_subscribe c table = (
  c.next_seq,
  record c {
    is_used = true;
    is_push_used = true;
    next_seq = (c.next_seq + 1) % 2 ^ 64;
    hub =
        Map.insert c.hub table
          (streams_of c table ++ (record { id = c.next_seq; is_closed = false; queue = [] } ∷ []));
  },
)

unfoldable pub push_unsubscribe : Changes → String → ℕ → Changes
push_unsubscribe c table sub = elim (Map.get c.hub table) [
  | none ↦ c
  | some s ↦ record c { hub = Map.insert c.hub table (keep (λ stream. not (stream.id == sub)) s) }
]
