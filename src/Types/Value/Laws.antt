-- ===== src/Types/Value/Laws.antt =====
-- The laws of the tests on values: what the probe accepts, and that `cmp` is antisymmetric.
use blitz_db.Prelude.{ℕ, ◌<◌, ◌≤◌, ◌^◌, true, ◌≡◌, refl, arith, ==_iff, both}
use blitz_db.Prelude.Order.{
  reverse, and_then, eq_int_sound, eq_bool_sound, eq_bytes_sound, cmp_int_flip, cmp_bool_flip,
  cmp_bytes_flip, compare_flip,
}
use Prim.Native.Nat.{compare, Ordering}
use blitz_db.Types.Interface.{ValueOps}
use blitz_db.Types.Value.{
  Foreign, Value, Values, nil, cons, boolean, int8, int16, int32, int64, uint8, uint16, uint32,
  uint64, float32, float64, decimal, string, bytes, uuid, timestamp, date, json, array, null,
  value_eq, value_eq_items, same_hash, same_hash_items, probe, cmp, cmp_zip, len,
}
use blitz_db.Types.Value.Convert.{is_null, value_matches_type}

mutual
  unfolding same_hash value_eq

  probe_parts : {F : Foreign} (v w : Value F) → same_hash v w ≡ true → value_eq v w ≡ true → v ≡ w
  probe_parts (boolean a) (boolean b) h e = cc (eq_bool_sound a b h)
  probe_parts (int8 a) (int8 b) h e = cc (eq_int_sound a b h)
  probe_parts (int16 a) (int16 b) h e = cc (eq_int_sound a b h)
  probe_parts (int32 a) (int32 b) h e = cc (eq_int_sound a b h)
  probe_parts (int64 a) (int64 b) h e = cc (eq_int_sound a b h)
  probe_parts (uint8 a) (uint8 b) h e = cc ((==_iff a b).0 h)
  probe_parts (uint16 a) (uint16 b) h e = cc ((==_iff a b).0 h)
  probe_parts (uint32 a) (uint32 b) h e = cc ((==_iff a b).0 h)
  probe_parts (uint64 a) (uint64 b) h e = cc ((==_iff a b).0 h)
  probe_parts (float32 a) (float32 b) h e = cc ((==_iff a b).0 h)
  probe_parts (float64 a) (float64 b) h e = cc ((==_iff a b).0 h)
  probe_parts (decimal a) (decimal b) h e = cc (eq_bytes_sound a b h)
  probe_parts (string a) (string b) h e = cc (eq_bytes_sound a b h)
  probe_parts (bytes a) (bytes b) h e = cc (eq_bytes_sound a b h)
  probe_parts {F} (uuid a) (uuid b) h e = cc (F.uuids.eq_sound a b h)
  probe_parts {F} (timestamp a) (timestamp b) h e = cc (F.timestamps.eq_sound a b h)
  probe_parts {F} (date a) (date b) h e = cc (F.dates.eq_sound a b h)
  probe_parts {F} (json a) (json b) h e =
      cc (F.json_sound a b e (eq_bytes_sound (F.json_text a) (F.json_text b) h))
  probe_parts (array a) (array b) h e = cc (probe_items a b h e)
  probe_parts null null h e = refl
  probe_parts _ _ h e = cc

  probe_items :
      {F : Foreign} (vs ws : Values F)
      → same_hash_items vs ws ≡ true
      → value_eq_items vs ws ≡ true
      → vs ≡ ws
  probe_items nil nil h e = refl
  probe_items (cons v vs) (cons w ws) h e =
      let hs = both (same_hash v w) (same_hash_items vs ws) h in
      let es = both (value_eq v w) (value_eq_items vs ws) e in
      cc (probe_parts v w hs.0 es.0, probe_items vs ws hs.1 es.1)
  probe_items _ _ h e = cc

-- Two values that agree in what they feed to the hash and are `==` are the same value.
pub probe_lem : {F : Foreign} (v w : Value F) → probe v w ≡ true → v ≡ w
unfolding probe
probe_lem v w h = let (hash, eq) = both (same_hash v w) (value_eq v w) h in probe_parts v w hash eq

instance abbrev pub value_ops : {F : Foreign} → ValueOps (Value F)
value_ops = record {
  null = null;
  is_null = is_null;
  eq = value_eq;
  probe = probe;
  probe_sound = probe_lem;
  matches_type = value_matches_type;
}

and_then_flip : (a b : Ordering) → reverse (and_then a b) ≡ and_then (reverse a) (reverse b)
and_then_flip a b = ground arith

mutual
  unfolding cmp

  cmp_swap : {F : Foreign} (v w : Value F) → cmp w v ≡ reverse (cmp v w)
  cmp_swap {F} (boolean a) (boolean b) = cmp_bool_flip a b
  cmp_swap {F} (int8 a) (int8 b) = cmp_int_flip a b
  cmp_swap {F} (int16 a) (int16 b) = cmp_int_flip a b
  cmp_swap {F} (int32 a) (int32 b) = cmp_int_flip a b
  cmp_swap {F} (int64 a) (int64 b) = cmp_int_flip a b
  cmp_swap {F} (uint8 a) (uint8 b) = compare_flip a b
  cmp_swap {F} (uint16 a) (uint16 b) = compare_flip a b
  cmp_swap {F} (uint32 a) (uint32 b) = compare_flip a b
  cmp_swap {F} (uint64 a) (uint64 b) = compare_flip a b
  cmp_swap {F} (float32 a) (float32 b) = compare_flip a b
  cmp_swap {F} (float64 a) (float64 b) = compare_flip a b
  cmp_swap {F} (decimal a) (decimal b) = cmp_bytes_flip a b
  cmp_swap {F} (string a) (string b) = cmp_bytes_flip a b
  cmp_swap {F} (bytes a) (bytes b) = cmp_bytes_flip a b
  cmp_swap {F} (uuid a) (uuid b) = F.uuids.cmp_flip a b
  cmp_swap {F} (timestamp a) (timestamp b) = F.timestamps.cmp_flip a b
  cmp_swap {F} (date a) (date b) = F.dates.cmp_flip a b
  cmp_swap {F} (json a) (json b) = cmp_bytes_flip (F.json_text a) (F.json_text b)
  cmp_swap {F} (array a) (array b) = cc (
    cmp_zip_swap a b,
    compare_flip (len a) (len b),
    and_then_flip (cmp_zip a b) (compare (len a) (len b)),
  )
  cmp_swap null null = refl
  cmp_swap _ _ = refl

  cmp_zip_swap : {F : Foreign} (vs ws : Values F) → cmp_zip ws vs ≡ reverse (cmp_zip vs ws)
  cmp_zip_swap nil nil = refl
  cmp_zip_swap (cons v vs) (cons w ws) =
      cc (cmp_swap v w, cmp_zip_swap vs ws, and_then_flip (cmp v w) (cmp_zip vs ws))
  cmp_zip_swap _ _ = refl

-- Exchanging the two values reverses what `cmp` returns.
pub cmp_antisymmetric : {F : Foreign} (v w : Value F) → cmp w v ≡ reverse (cmp v w)
cmp_antisymmetric v w = cmp_swap v w

-- `cmp` puts every double whose sign bit is set after every double whose sign bit is clear.
pub cmp_float64_sign :
    (F : Foreign) (a b : ℕ)
    → 2 ^ 63 ≤ a
    → b < 2 ^ 63
    → cmp {F = F} (float64 a) (float64 b) ≡ Ordering.gt
unfolding cmp
cmp_float64_sign F a b h k = ground arith
