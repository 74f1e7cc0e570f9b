-- ===== src/Vm/Ops.antt =====
-- The operations of `VM.Run` of blockchain/vm.go, each on the machine behind its opcode.
use neo_coin.Base.{
  ℕ, suc, ◌+◌, ◌*◌, Bool, false, not, ◌||◌, ◌==◌, if◌then◌else◌, Option, none, some, List, [], ◌∷◌,
  length, get_elem?,
}
use neo_coin.Base.Int.{
  ℤ, pos, negsuc, ◌+ℤ◌, ◌-ℤ◌, ◌*ℤ◌, quot_ℤ, to_i64, eq_ℤ, leb_ℤ, ltb_ℤ, pos_part,
}
use neo_coin.Base.Bytes.{Bytes, ascii, decimal_loop}
use neo_coin.Vm.{Value, int, bool, Vm, VmError, Step, next, halt, panic}

-- The opcodes that the switch handles; every other byte is unknown, also those that have a name.
pub data Opcode : Type 0 where
  nop push1 push2 dup drop swap add sub mul div equal verify return jump : Opcode
  unknown : ℕ → Opcode

unfoldable pub decode : ℕ → Opcode
decode op =
    if op == 0
    then nop
    else if op == 1
    then push1
    else if op == 2
    then push2
    else if op == 48
    then dup
    else if op == 50
    then drop
    else if op == 49
    then swap
    else if op == 64
    then add
    else if op == 65
    then sub
    else if op == 66
    then mul
    else if op == 67
    then div
    else if op == 96
    then equal
    else if op == 97
    then verify
    else if op == 240
    then return
    else if op == 225
    then jump
    else unknown op

-- A failure without gas.
abbrev pub fail : VmError → Step
fail e = halt (record { data_bytes = []; gas = pos 0; error = some e })

-- The machine with another stack, having paid.
abbrev pub pay : Vm → List Value → ℕ → Vm
pay vm st cost = record vm { stack = st; gas_used = to_i64 (vm.gas_used +ℤ pos cost) }

unfoldable pub exec_push1 : Vm → Step
exec_push1 vm = elim (get_elem? vm.code vm.pc) [
  | none ↦ fail VmError.end_of_code
  | some b ↦ next (record (pay vm (int (pos b) ∷ vm.stack) 3) { pc = suc vm.pc })
]

-- `int64(hi)<<8 | int64(lo)` on two bytes.
abbrev push2_of : Vm → Option ℕ → Option ℕ → Step
push2_of vm (some hi) (some lo) =
    next (record (pay vm (int (pos (hi * 256 + lo)) ∷ vm.stack) 5) { pc = suc (suc vm.pc) })
push2_of vm _ _ = fail VmError.end_of_code

unfoldable pub exec_push2 : Vm → Step
exec_push2 vm = push2_of vm (get_elem? vm.code vm.pc) (get_elem? vm.code (suc vm.pc))

unfoldable pub exec_dup : Vm → List Value → Step
exec_dup vm [] = fail VmError.stack_underflow
exec_dup vm (v ∷ st) = next (pay vm (v ∷ v ∷ st) 2)

unfoldable pub exec_drop : Vm → List Value → Step
exec_drop vm [] = fail VmError.stack_underflow
exec_drop vm (v ∷ st) = next (pay vm st 2)

unfoldable pub exec_swap : Vm → List Value → Step
exec_swap vm [] = fail VmError.stack_underflow
exec_swap vm (v ∷ []) = fail VmError.stack_underflow
exec_swap vm (b ∷ a ∷ st) = next (pay vm (a ∷ b ∷ st) 3)

-- ADD, SUB and MUL: `a` lies below `b`.
unfoldable pub exec_arith : (ℤ → ℤ → ℤ) → ℕ → Vm → List Value → Step
exec_arith f cost vm [] = fail VmError.stack_underflow
exec_arith f cost vm (v ∷ []) = fail VmError.stack_underflow
exec_arith f cost vm (int b ∷ int a ∷ st) = next (pay vm (int (to_i64 (f a b)) ∷ st) cost)
exec_arith f cost vm (v ∷ w ∷ st) = panic

unfoldable pub exec_div : Vm → List Value → Step
exec_div vm [] = fail VmError.stack_underflow
exec_div vm (v ∷ []) = fail VmError.stack_underflow
exec_div vm (int b ∷ int a ∷ st) =
    if eq_ℤ b (pos 0)
    then fail VmError.division_by_zero
    else next (pay vm (int (to_i64 (quot_ℤ a b)) ∷ st) 5)
exec_div vm (v ∷ w ∷ st) = panic

-- `a == b` of two interface values.
abbrev same_value : Value → Value → Bool
same_value (int a) (int b) = eq_ℤ a b
same_value (bool a) (bool b) = if a then b else not b
same_value (int a) (bool b) = false
same_value (bool a) (int b) = false

unfoldable pub exec_equal : Vm → List Value → Step
exec_equal vm [] = fail VmError.stack_underflow
exec_equal vm (v ∷ []) = fail VmError.stack_underflow
exec_equal vm (b ∷ a ∷ st) = next (pay vm (bool (same_value a b) ∷ st) 3)

unfoldable pub exec_verify : Vm → List Value → Step
exec_verify vm [] = fail VmError.stack_underflow
exec_verify vm (int a ∷ st) = panic
exec_verify vm (bool b ∷ st) = if b then next (pay vm st 5) else fail VmError.verify_failed

-- `%d` of an `int64`.
abbrev decimal_ℤ : ℤ → Bytes
decimal_ℤ (pos n) = decimal_loop 20 n []
decimal_ℤ (negsuc n) = b'-' ∷ decimal_loop 20 (suc n) []

abbrev returned_data : List Value → Bytes
returned_data [] = []
returned_data (int a ∷ st) = decimal_ℤ a
returned_data (bool b ∷ st) = if b then ascii "true" else ascii "false"

unfoldable pub exec_return : Vm → List Value → Step
exec_return vm st = halt (record { data_bytes = returned_data st; gas = vm.gas_used; error = none })

unfoldable pub exec_jump : Vm → List Value → Step
exec_jump vm [] = fail VmError.stack_underflow
exec_jump vm (bool b ∷ st) = panic
exec_jump vm (int target ∷ st) =
    if ltb_ℤ target (pos 0) || leb_ℤ (pos (length vm.code)) target
    then fail VmError.invalid_jump_target
    else next (record (pay vm st 5) { pc = pos_part target })

-- The switch.
unfoldable pub exec : Opcode → Vm → Step
unfolding exec_push1 exec_push2 exec_dup exec_drop exec_swap exec_arith exec_div exec_equal
    exec_verify exec_return exec_jump
exec nop vm = next (pay vm vm.stack 1)
exec push1 vm = exec_push1 vm
exec push2 vm = exec_push2 vm
exec dup vm = exec_dup vm vm.stack
exec drop vm = exec_drop vm vm.stack
exec swap vm = exec_swap vm vm.stack
exec add vm = exec_arith ◌+ℤ◌ 3 vm vm.stack
exec sub vm = exec_arith ◌-ℤ◌ 3 vm vm.stack
exec mul vm = exec_arith ◌*ℤ◌ 5 vm vm.stack
exec div vm = exec_div vm vm.stack
exec equal vm = exec_equal vm vm.stack
exec verify vm = exec_verify vm vm.stack
exec return vm = exec_return vm vm.stack
exec jump vm = exec_jump vm vm.stack
exec (unknown op) vm = fail (VmError.unknown_opcode op)
