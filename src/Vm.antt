-- ===== src/Vm.antt =====
-- The contract machine: blockchain/vm.go. A value of the stack is an `int64` or a `bool`; a type
-- assertion on the other kind panics. The machine's alternative stack is never used.
pub mod Ops
pub mod Run
pub mod Gas
pub mod Token
use neo_coin.Base.{ℕ, Bool, List, Option}
use neo_coin.Base.Int.{ℤ}
use neo_coin.Base.Bytes.{Bytes}
use neo_coin.Base.Dict.{Dict}

pub data Value : Type 0 where
  int : ℤ → Value
  bool : Bool → Value

-- `VM`; the top of the stack comes first.
pub record Vm : Type 0 where
  pub stack : List Value
  pub pc : ℕ
  pub code : Bytes
  pub storage : Dict Bytes Bytes
  pub gas_limit : ℤ
  pub gas_used : ℤ

pub data VmError : Type 0 where
  gas_limit_exceeded end_of_code stack_underflow division_by_zero : VmError
  verify_failed invalid_jump_target : VmError
  unknown_opcode : ℕ → VmError

-- `VMResult`; `none` is the empty error of a success.
pub record VmResult : Type 0 where
  pub data_bytes : Bytes
  pub gas : ℤ
  pub error : Option VmError

-- What one operation does: go on, return, or panic.
pub data Step : Type 0 where
  next : Vm → Step
  halt : VmResult → Step
  panic : Step
