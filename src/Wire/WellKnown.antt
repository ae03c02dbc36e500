-- ===== src/Wire/WellKnown.antt =====
-- `google.protobuf.Timestamp` and `Duration`.
use sepp_py.Common.{ℤ}

pub record Timestamp : Type 0 where
  pub seconds : ℤ
  pub nanos : ℤ

pub record Duration : Type 0 where
  pub seconds : ℤ
  pub nanos : ℤ
