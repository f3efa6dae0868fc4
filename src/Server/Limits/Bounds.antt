-- ===== src/Server/Limits/Bounds.antt =====
-- However connections come and go, neither limit is passed.
use blitz_db.Prelude.{
  ℕ, ◌+◌, ◌-◌, ◌%◌, ◌^◌, ◌≤◌, ◌<◌, leb, ◌==◌, if◌then◌else◌, ◌≡◌, arith, Option-cases, Bool-cases,
  inl, inr,
}
use blitz_db.Prelude.Map
use blitz_db.Prelude.Map.{Map, nat_key, get-insert, get-remove}
use blitz_db.Server.Limits.{
  Limits, Admission, try_acquire_connection, release_connection, held_by, ip_acquire, ip_release,
}

-- A connection that comes or goes, admitted or not, in all and from an address.
pub data Turn (l : Limits) : Admission → Admission → Type 0 where
  comes : (a : Admission) → Turn l a (try_acquire_connection l a).1
  goes : (a : Admission) → Turn l a (release_connection a)
  comes_from : (a : Admission) (ip : ℕ) → Turn l a (ip_acquire l a ip).1
  goes_from : (a : Admission) (ip : ℕ) → Turn l a (ip_release a ip)

-- A limit of 0 for an address is no limit.
pub record IsWithin (l : Limits) (a : Admission) : Type 0 where
  pub all : a.connections ≤ l.max_connections
  pub each : (ip : ℕ) → 0 < l.max_connections_per_ip → held_by a ip ≤ l.max_connections_per_ip

held-insert :
    (a : Admission) (ip j n : ℕ)
    → held_by (record a { ips = Map.insert a.ips ip n }) j ≡ (if ip == j then n else held_by a j)
held-insert a ip j n = ground (arith, get-insert a.ips ip j n)

up_below : (n m : ℕ) → n < m → m < 2 ^ 64 → (n + 1) % 2 ^ 64 ≡ n + 1
up_below n m below room = omega arith

down_above : (n m : ℕ) → 0 < n → n ≤ m → m < 2 ^ 64 → (n + (2 ^ 64 - 1)) % 2 ^ 64 ≡ n - 1
down_above n m some_left within room = omega arith

-- A connection that comes or goes, in all or from an address, admitted or not and also where
-- nothing was taken, leaves the connections within the limit and, unless the limit of an address is
-- 0, which stands for none, those of each address within it, where they were so before; both limits
-- are below 2^64, at which the counters wrap.
pub Turn-IsWithin :
    {l : Limits} {a b : Admission}
    → Turn l a b
    → l.max_connections < 2 ^ 64
    → l.max_connections_per_ip < 2 ^ 64
    → IsWithin l a
    → IsWithin l b
unfolding try_acquire_connection release_connection ip_acquire ip_release
Turn-IsWithin {l} (comes a) room each_room h = record {
  all = ground (arith, h.all, up_below a.connections l.max_connections);
  each = λ ip. ground (arith, h.each ip);
}
Turn-IsWithin {l} (goes a) room each_room h = record {
  all = ground (arith, h.all, down_above a.connections l.max_connections);
  each = λ ip. ground (arith, h.each ip);
}
Turn-IsWithin {l} (comes_from a ip) room each_room h = record {
  all = ground (arith, h.all);
  each = λ j limited.
      let up = up_below (held_by a ip) l.max_connections_per_ip in
      let held = held-insert a ip j ((held_by a ip + 1) % 2 ^ 64) in
      ground (arith, h.each j limited, h.each ip limited, held, up);
}
Turn-IsWithin {l} (goes_from a ip) room each_room h = record {
  all = ground (arith, h.all);
  each = λ j limited. elim (Option-cases (Map.get a.ips ip)) [
    | inl absent ↦ ground (arith, absent, h.each j limited)
    | inr (n, present) ↦
        let kept : n ≤ l.max_connections_per_ip = ground (arith, present, h.each ip limited) in
        elim (Bool-cases (leb n 1)) [
          | inl last ↦ ground (arith, present, last, h.each j limited, get-remove a.ips ip j)
          | inr more ↦
              let lower = down_above n l.max_connections_per_ip in
              ground (
                arith,
                present,
                more,
                h.each j limited,
                lower,
                get-insert a.ips ip j ((n + (2 ^ 64 - 1)) % 2 ^ 64),
              )
        ]
  ];
}
