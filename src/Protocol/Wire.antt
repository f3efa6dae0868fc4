-- ===== src/Protocol/Wire.antt =====
-- What crates/blitz-protocol/src/codec.rs takes from other crates: UTF-8, `Uuid`, the dates of chrono
-- and the values of serde_json; and signed integers at their widths.
use blitz_db.Prelude.{
  ℕ, ◌-◌, ◌%◌, ◌^◌, ◌<◌, String, Bool, Option, some, List, length, if◌then◌else◌, ltb, ◌≡◌, arith,
}
use blitz_db.Prelude.Order.{ℤ, pos, negsuc}
use blitz_db.Types.Value.{Foreign}

-- Two's complement at `w` bits, as `put_i32_le` and `as u8` write it and `as i8` reads it.
abbrev pub to_bits : ℕ → ℤ → ℕ
to_bits w (pos n) = n % 2 ^ w
to_bits w (negsuc n) = 2 ^ w - 1 - n % 2 ^ w

abbrev pub from_bits : ℕ → ℕ → ℤ
from_bits w n = if ltb n (2 ^ (w - 1)) then pos n else negsuc (2 ^ w - 1 - n)

abbrev pub InRange : ℕ → ℤ → Type 0
InRange w (pos n) = n < 2 ^ (w - 1)
InRange w (negsuc n) = n < 2 ^ (w - 1)

pub from_bits-8 : (z : ℤ) → InRange 8 z → (to_bits 8 z < 256) × (from_bits 8 (to_bits 8 z) ≡ z)
from_bits-8 z h = ground arith

pub from_bits-16 :
    (z : ℤ) → InRange 16 z → (to_bits 16 z < 2 ^ 16) × (from_bits 16 (to_bits 16 z) ≡ z)
from_bits-16 z h = ground arith

pub from_bits-32 :
    (z : ℤ) → InRange 32 z → (to_bits 32 z < 2 ^ 32) × (from_bits 32 (to_bits 32 z) ≡ z)
from_bits-32 z h = ground arith

pub from_bits-64 :
    (z : ℤ) → InRange 64 z → (to_bits 64 z < 2 ^ 64) × (from_bits 64 (to_bits 64 z) ≡ z)
from_bits-64 z h = ground arith

-- A `serde_json::Value` taken apart. A number is what the first of `as_i64`, `as_u64` and `as_f64`
-- that answers gives.
mutual
  pub data JsonView : Type 0 where
    null : JsonView
    boolean : Bool → JsonView
    int : ℤ → JsonView
    uint : ℕ → JsonView
    float : ℕ → JsonView
    string : List ℕ → JsonView
    array : JsonItems → JsonView
    object : JsonFields → JsonView

  pub data JsonItems : Type 0 where
    nil : JsonItems
    cons : JsonView → JsonItems → JsonItems

  pub data JsonFields : Type 0 where
    end : JsonFields
    field : List ℕ → JsonView → JsonFields → JsonFields

pub record Wire (F : Foreign) : Type 0 where
  pub as_bytes : String → List ℕ
  pub from_utf8 : List ℕ → Option String
  pub from_utf8-as_bytes : (s : String) → from_utf8 (as_bytes s) ≡ some s
  pub uuid_bytes : F.Uuid → List ℕ
  pub uuid_from_slice : List ℕ → Option F.Uuid
  pub uuid_length : (u : F.Uuid) → length (uuid_bytes u) ≡ 16
  pub uuid_lem : (u : F.Uuid) → uuid_from_slice (uuid_bytes u) ≡ some u
  pub micros : F.Timestamp → ℤ
  pub from_micros : ℤ → Option F.Timestamp
  pub micros_fits : (t : F.Timestamp) → InRange 64 (micros t)
  pub days : F.Date → ℤ
  pub month : F.Date → ℕ
  pub day : F.Date → ℕ
  pub from_days : ℤ → Option F.Date
  pub days_fits : (d : F.Date) → InRange 32 (days d)
  pub month_fits : (d : F.Date) → month d < 13
  pub day_fits : (d : F.Date) → day d < 32
  pub from_days-days : (d : F.Date) → from_days (days d) ≡ some d
  pub view : F.Json → JsonView
  pub build : JsonView → F.Json
  pub build-view : (j : F.Json) → build (view j) ≡ j
