-- ===== src/Durability/Recovered.antt =====
-- Recovery after a crash: the logs of the shards bring back what the server had.
use blitz_db.Prelude.{
  ℕ, String, true, none, List, [], keep, ok, ltb, ◌≡◌, refl, ap, ◌∙◌, arith, if◌then◌else◌,
}
use blitz_db.Prelude.Map
use blitz_db.Prelude.Map.{string_key, nat_key}
use blitz_db.Types.Value.{Foreign, Value}
use blitz_db.Types.Value.Laws.{value_ops}
use blitz_db.Core.Engine.{Engine, new_engine}
use blitz_db.Core.Engine.Valid.{Reach-EngineValid, here}
use blitz_db.Wal.Codec.{Bytes32, WalEntry}
use blitz_db.Durability.Payload.{Serde}
use blitz_db.Durability.Replay.{file_entries, replay_files, recover}
use blitz_db.Durability.Replay.Tables.{concat, is_of, apply_log, get-replay_files}
use blitz_db.Durability.Replay.Mirror.{Mirrors}
use blitz_db.Durability.Replay.History.{Served}
use blitz_db.Durability.Replay.Rebuild.{Served-Mirrors}
use blitz_db.Durability.Cluster.{shards_for_mode, route, shard_logs, route-lt, keep-shard_logs}

module _ {F : Foreign} (s : Serde F) (fresh hash : String → ℕ) where
  abbrev logs : List WalEntry → List (List WalEntry)
  logs xs = shard_logs s fresh hash shards_for_mode xs

  -- The logs of the shards, replayed one after the other, change a table as the entries did in the
  -- order of the writes.
  get-replay_logs :
      (after : ℕ) (e : Engine (Value F)) (xs : List WalEntry) (n : String)
      → Map.get (replay_files s fresh after e (logs xs)).1 n
        ≡ apply_log s fresh after n (Map.get e n) (keep (is_of s fresh n) xs)
  get-replay_logs after e xs n =
      get-replay_files s fresh after e (logs xs) n
      ∙ ap (apply_log s fresh after n (Map.get e n)) whole
    where
      whole : keep (is_of s fresh n) (concat (logs xs)) ≡ keep (is_of s fresh n) xs
      whole =
          let low = route-lt s fresh hash n in
          let hit : ltb (route hash shards_for_mode n) shards_for_mode ≡ true = ground arith in
          keep-shard_logs s fresh hash n shards_for_mode xs
          ∙ ap (λ b. if b then keep (is_of s fresh n) xs else []) hit

  -- A server that starts empty creates tables and inserts, updates and deletes rows whose ids are
  -- below 2^56 and whose values have a text that parses back to the JSON it was printed from; no
  -- update sets a value that is `==` to the old one without being the same. If the logs of the 16
  -- shards hold the entries of these writes, each in the shard of its table and in the order of the
  -- writes, then `recover` without a snapshot gives an engine in which each table has exactly the
  -- rows of the server, under the same ids, every value being what the round trip through JSON
  -- makes of it, and no unique columns.
  pub recover_rebuilds :
      (c : Bytes32) {f : Engine (Value F)} {xs : List WalEntry} (files : List (List ℕ))
      → Served s 0 new_engine xs f
      → file_entries s fresh c files ≡ shard_logs s fresh hash shards_for_mode xs
      → (replayed : ℕ) × (last : Engine (Value F)) × (recover s fresh c {E = Unit {0}} new_engine
            (ok none)
            files
          ≡ ok (0, 0, replayed, last))
        × ((n : String) → Mirrors s (Map.get f n) (Map.get last n))
  unfolding recover Map.get
  recover_rebuilds c {f} {xs} files run read =
      let outcome = replay_files s fresh 0 new_engine (file_entries s fresh c files) in
      (outcome.0, outcome.1, refl, mirror)
    where
      mirror :
          (n : String)
          → Mirrors s
              (Map.get f n)
              (Map.get (replay_files s fresh 0 new_engine (file_entries s fresh c files)).1 n)
      mirror n =
          rw (read, get-replay_logs 0 new_engine xs n)
            (Served-Mirrors s fresh run (Reach-EngineValid here) n none
              (record { rows = λ i. tt; plain = λ t absent. cc }))
