-- ===== src/Number.antt =====
-- src/number.rs: a JSON number, over the type that stands for `f64`.
use rjsonparser.Prelude.{Option, none, some, Bytes}
use rjsonparser.Prelude.Int.{ℤ}
use rjsonparser.Float.{Float}

pub data Number (F : Type 0) : Type 0 where
  i32_num : ℤ → Number F
  i64_num : ℤ → Number F
  f64_num : F → Number F
  big_int : Bytes → Number F

module _ {F : Type 0} where
  unfoldable pub as_i32 : Number F → Option ℤ
  as_i32 (i32_num v) = some v
  as_i32 _ = none

  unfoldable pub as_i64 : Number F → Option ℤ
  as_i64 (i32_num v) = some v
  as_i64 (i64_num v) = some v
  as_i64 _ = none

  unfoldable pub as_f64 : Float F → Number F → Option F
  as_f64 float (i32_num v) = some (float.of_int v)
  as_f64 float (i64_num v) = some (float.of_int v)
  as_f64 float (f64_num v) = some v
  as_f64 float (big_int s) = float.parse s
