-- ===== src/Vm/Run.antt =====
-- The loop of `VM.Run` of blockchain/vm.go, on fuel.
use neo_coin.Base.{ℕ, zero, suc, leb, if◌then◌else◌, Option, none, some, [], length, get_or}
use neo_coin.Base.Int.{ℤ, pos, ltb_ℤ}
use neo_coin.Base.Bytes.{Bytes}
use neo_coin.Base.Dict.{Dict}
use neo_coin.Vm.{Vm, VmError, VmResult, Step, next, halt, panic}
use neo_coin.Vm.Ops.{decode, exec}

-- How a run ends.
pub data VmOutcome : Type 0 where
  finished : VmResult → VmOutcome
  panicked : VmOutcome

-- `NewVM`.
unfoldable pub new_vm : Bytes → Dict Bytes Bytes → ℤ → Vm
new_vm code storage gas_limit = record {
  stack = [];
  pc = 0;
  code = code;
  storage = storage;
  gas_limit = gas_limit;
  gas_used = pos 0;
}

-- One round behind the two tests of the loop.
unfoldable pub step : Vm → Step
unfolding decode exec
step vm = exec (decode (get_or vm.code vm.pc 0)) (record vm { pc = suc vm.pc })

-- `VM.Run`; `none` while it goes on.
unfoldable pub run : ℕ → Vm → Option VmOutcome
unfolding step
run zero vm = none
run (suc fuel) vm =
    if leb (length vm.code) vm.pc
    then some (finished (record { data_bytes = []; gas = vm.gas_used; error = none }))
    else if ltb_ℤ vm.gas_limit vm.gas_used
    then some (
        finished
          (record { data_bytes = []; gas = vm.gas_used; error = some VmError.gas_limit_exceeded }))
    else elim (step vm) [
      | next vm' ↦ run fuel vm'
      | halt r ↦ some (finished r)
      | panic ↦ some panicked
    ]
