-- ===== src/Tests/Machine.antt =====
-- The contract machine and a token on concrete values.
use neo_coin.Base.Bytes.{decimal_loop}
use neo_coin.Base.{◌≡◌, refl, arith, none, some, [], ◌∷◌}
use neo_coin.Base.Int.{pos, to_i64, ◌+ℤ◌, ◌-ℤ◌}
use neo_coin.Base.Bytes.{Bytes, ascii}
use neo_coin.Base.Dict.{bytes_key}
use neo_coin.Vm.{VmError}
use neo_coin.Vm.Run.{finished, new_vm, run}
use neo_coin.Vm.Ops.{decode, exec}
use neo_coin.Vm.Gas.{EndsWithin, run-new_vm}

-- PUSH1 7, PUSH1 9, SUB, RETURN.
abbrev program : Bytes
program = 1 ∷ 7 ∷ 1 ∷ 9 ∷ 65 ∷ 240 ∷ []

run-new_vm_example : EndsWithin 105 (run 102 (new_vm program [] (pos 100)))
run-new_vm_example = run-new_vm program [] 100 102 (omega arith) (omega arith)

subtracts :
    run 102 (new_vm program [] (pos 100))
    ≡ some (finished (record { data_bytes = ascii "-2"; gas = pos 9; error = none }))
unfolding run new_vm decode exec to_i64 ◌+ℤ◌ ◌-ℤ◌ decimal_loop
subtracts = refl

-- PUSH1 0, JUMP, for ever: the gas ends it.
loops :
    run 102 (new_vm (1 ∷ 0 ∷ 225 ∷ []) [] (pos 100))
    ≡ some (
        finished
          (record { data_bytes = []; gas = pos 104; error = some VmError.gas_limit_exceeded }))
unfolding run new_vm decode exec to_i64 ◌+ℤ◌ ◌-ℤ◌
loops = refl

-- An addition that exceeds its limit and is the last operation succeeds all the same.
overspends :
    run 10 (new_vm (1 ∷ 7 ∷ 1 ∷ 9 ∷ 64 ∷ []) [] (pos 6))
    ≡ some (finished (record { data_bytes = []; gas = pos 9; error = none }))
unfolding run new_vm decode exec to_i64 ◌+ℤ◌ ◌-ℤ◌
overspends = refl
