-- ===== src/Vm/Gas.antt =====
-- Every program of the contract machine ends, and how much gas it may use: `VM.Run` of
-- blockchain/vm.go.
use mathlib.Core.Path.{subst}
use neo_coin.Base.{
  ℕ, zero, suc, ◌+◌, ◌^◌, ◌≤◌, ◌<◌, ◌≡◌, refl, ◌∙◌, arith, true, false, leb, Option, none, some,
  List, [], ◌∷◌, ◌||◌, ◌⊎◌, length, get_elem?, get_or, Bool-cases, Option-cases, inl, inr,
}
use neo_coin.Base.Int.{ℤ, pos, ◌+ℤ◌, ◌-ℤ◌, ◌*ℤ◌, ◌≤ℤ◌, to_i64, ltb_ℤ, leb_ℤ, eq_ℤ}
use neo_coin.Base.Bytes.{Bytes}
use neo_coin.Vm.{Value, int, bool, Vm, VmResult, Step, next, halt, panic}
use neo_coin.Vm.Ops.{
  Opcode, nop, push1, push2, dup, drop, swap, add, sub, mul, div, equal, verify, return, jump,
  unknown, decode, exec, exec_push1, exec_push2, exec_dup, exec_drop, exec_swap, exec_arith,
  exec_div, exec_equal, exec_verify, exec_return, exec_jump,
}
use neo_coin.Vm.Run.{VmOutcome, finished, panicked, new_vm, step, run}
use neo_coin.Base.Dict.{Dict}

-- What an operation does to the gas: it goes on having paid between 1 and 5, it returns with the gas
-- used so far or none, or it panics.
abbrev Spends : ℤ → ℤ → Step → Type 0
Spends used limit (next v) =
    (c : ℕ) × (1 ≤ c) × (c ≤ 5) × (v.gas_used ≡ to_i64 (used +ℤ pos c)) × (v.gas_limit ≡ limit)
Spends used limit (halt r) = (r.gas ≡ used) ⊎ (r.gas ≡ pos 0)
Spends used limit panic = Unit {0}

module _ (vm : Vm) where
  abbrev Pays : Step → Type 0
  Pays s = Spends vm.gas_used vm.gas_limit s

  push1-Pays : Pays (exec_push1 vm)
  unfolding exec_push1
  push1-Pays = elim (Option-cases (get_elem? vm.code vm.pc)) [
    | inl ends ↦ rw (ends, exec_push1) (inr refl)
    | inr (b, here) ↦ rw (here, exec_push1) (3, omega arith, omega arith, refl, refl)
  ]

  push2-Pays : Pays (exec_push2 vm)
  unfolding exec_push2
  push2-Pays = elim (Option-cases (get_elem? vm.code vm.pc)) [
    | inl ends ↦ rw ends (inr refl)
    | inr (b, here) ↦ elim (Option-cases (get_elem? vm.code (suc vm.pc))) [
      | inl ends ↦ rw here (rw ends (inr refl))
      | inr (c, there) ↦ rw here (rw there (5, omega arith, omega arith, refl, refl))
    ]
  ]

  dup-Pays : (st : List Value) → Pays (exec_dup vm st)
  unfolding exec_dup
  dup-Pays [] = inr refl
  dup-Pays (v ∷ st) = (2, omega arith, omega arith, refl, refl)

  drop-Pays : (st : List Value) → Pays (exec_drop vm st)
  unfolding exec_drop
  drop-Pays [] = inr refl
  drop-Pays (v ∷ st) = (2, omega arith, omega arith, refl, refl)

  swap-Pays : (st : List Value) → Pays (exec_swap vm st)
  unfolding exec_swap
  swap-Pays [] = inr refl
  swap-Pays (v ∷ []) = inr refl
  swap-Pays (v ∷ w ∷ st) = (3, omega arith, omega arith, refl, refl)

  arith-Pays :
      (f : ℤ → ℤ → ℤ) (c : ℕ) (st : List Value) → 1 ≤ c → c ≤ 5 → Pays (exec_arith f c vm st)
  unfolding exec_arith
  arith-Pays f c [] lo hi = inr refl
  arith-Pays f c (v ∷ []) lo hi = inr refl
  arith-Pays f c (int b ∷ int a ∷ st) lo hi = (c, lo, hi, refl, refl)
  arith-Pays f c (int b ∷ bool a ∷ st) lo hi = tt
  arith-Pays f c (bool b ∷ int a ∷ st) lo hi = tt
  arith-Pays f c (bool b ∷ bool a ∷ st) lo hi = tt

  div-Pays : (st : List Value) → Pays (exec_div vm st)
  unfolding exec_div
  div-Pays [] = inr refl
  div-Pays (v ∷ []) = inr refl
  div-Pays (int b ∷ int a ∷ st) = elim (Bool-cases (eq_ℤ b (pos 0))) [
    | inl zero_divisor ↦ rw zero_divisor (inr refl)
    | inr fine ↦ rw fine (5, omega arith, omega arith, refl, refl)
  ]
  div-Pays (int b ∷ bool a ∷ st) = tt
  div-Pays (bool b ∷ int a ∷ st) = tt
  div-Pays (bool b ∷ bool a ∷ st) = tt

  equal-Pays : (st : List Value) → Pays (exec_equal vm st)
  unfolding exec_equal
  equal-Pays [] = inr refl
  equal-Pays (v ∷ []) = inr refl
  equal-Pays (v ∷ w ∷ st) = (3, omega arith, omega arith, refl, refl)

  verify-Pays : (st : List Value) → Pays (exec_verify vm st)
  unfolding exec_verify
  verify-Pays [] = inr refl
  verify-Pays (int a ∷ st) = tt
  verify-Pays (bool true ∷ st) = (5, omega arith, omega arith, refl, refl)
  verify-Pays (bool false ∷ st) = inr refl

  jump-Pays : (st : List Value) → Pays (exec_jump vm st)
  unfolding exec_jump
  jump-Pays [] = inr refl
  jump-Pays (bool b ∷ st) = tt
  jump-Pays (int t ∷ st) = elim (Bool-cases (ltb_ℤ t (pos 0) || leb_ℤ (pos (length vm.code)) t)) [
    | inl outside ↦ rw outside (inr refl)
    | inr inside ↦ rw inside (5, omega arith, omega arith, refl, refl)
  ]

exec-Pays : (op : Opcode) (vm : Vm) → Pays vm (exec op vm)
unfolding exec exec_return
exec-Pays nop vm = (1, omega arith, omega arith, refl, refl)
exec-Pays push1 vm = push1-Pays vm
exec-Pays push2 vm = push2-Pays vm
exec-Pays dup vm = dup-Pays vm vm.stack
exec-Pays drop vm = drop-Pays vm vm.stack
exec-Pays swap vm = swap-Pays vm vm.stack
exec-Pays add vm = arith-Pays vm ◌+ℤ◌ 3 vm.stack (omega arith) (omega arith)
exec-Pays sub vm = arith-Pays vm ◌-ℤ◌ 3 vm.stack (omega arith) (omega arith)
exec-Pays mul vm = arith-Pays vm ◌*ℤ◌ 5 vm.stack (omega arith) (omega arith)
exec-Pays div vm = div-Pays vm vm.stack
exec-Pays equal vm = equal-Pays vm vm.stack
exec-Pays verify vm = verify-Pays vm vm.stack
exec-Pays return vm = inl refl
exec-Pays jump vm = jump-Pays vm vm.stack
exec-Pays (unknown op) vm = inr refl

step-Spends : (vm : Vm) → Spends vm.gas_used vm.gas_limit (step vm)
unfolding step
step-Spends vm = exec-Pays (decode (get_or vm.code vm.pc 0)) (record vm { pc = suc vm.pc })

Step-cases :
    (s : Step) → ((v : Vm) × (s ≡ next v)) ⊎ (((r : VmResult) × (s ≡ halt r)) ⊎ (s ≡ panic))
Step-cases (next v) = inl (v, refl)
Step-cases (halt r) = inr (inl (r, refl))
Step-cases panic = inr (inr refl)

-- A run that ends, having used no more gas than a bound.
abbrev pub EndsWithin : ℕ → Option VmOutcome → Type 0
EndsWithin bound none = ⊥
EndsWithin bound (some panicked) = Unit {0}
EndsWithin bound (some (finished r)) = r.gas ≤ℤ pos bound

pay-pos : (g c : ℕ) → g + c < 2 ^ 63 → to_i64 (pos g +ℤ pos c) ≡ pos (g + c)
unfolding to_i64 ◌+ℤ◌
pay-pos g c h = ground arith

after : ℕ → Step → Option VmOutcome
after fuel (next v) = run fuel v
after fuel (halt r) = some (finished r)
after fuel panic = some panicked

run-step :
    (fuel : ℕ) (vm : Vm)
    → leb (length vm.code) vm.pc ≡ false
    → ltb_ℤ vm.gas_limit vm.gas_used ≡ false
    → run (suc fuel) vm ≡ after fuel (step vm)
unfolding run after
run-step fuel vm inside paid = elim (Step-cases (step vm)) [
  | inl (v, is) ↦ rw (inside, run) (rw paid (rw is))
  | inr (inl (r, is)) ↦ rw (inside, run) (rw paid (rw is))
  | inr (inr is) ↦ rw (inside, run) (rw paid (rw is))
]

after-EndsWithin :
    (fuel l g : ℕ) {limit : ℤ} (s : Step)
    → limit ≡ pos l
    → l + 10 < 2 ^ 63
    → g ≤ l
    → l + 2 ≤ g + suc fuel
    → ((v : Vm) (h : ℕ)
        → v.gas_used ≡ pos h
        → v.gas_limit ≡ pos l
        → h ≤ l + 5
        → 1 ≤ fuel
        → l + 2 ≤ h + fuel
        → EndsWithin (l + 5) (run fuel v))
    → Spends (pos g) limit s
    → EndsWithin (l + 5) (after fuel s)
unfolding after
after-EndsWithin fuel l g (next v) limit small low enough go (c, lo, hi, pays, same) =
    go v (g + c) (pays ∙ pay-pos g c (omega arith)) (same ∙ limit) (omega arith) (omega arith)
      (omega arith)
after-EndsWithin fuel l g (halt r) limit small low enough go (inl at) = ground (arith, at)
after-EndsWithin fuel l g (halt r) limit small low enough go (inr at) = ground (arith, at)
after-EndsWithin fuel l g panic limit small low enough go h = tt

-- From any machine whose limit is `l` and that has used `g` of gas, at most 5 above the limit, the
-- loop ends within `l - g + 2` rounds.
run-EndsWithin :
    (fuel : ℕ) (vm : Vm) (g l : ℕ)
    → vm.gas_used ≡ pos g
    → vm.gas_limit ≡ pos l
    → g ≤ l + 5
    → l + 10 < 2 ^ 63
    → 1 ≤ fuel
    → l + 2 ≤ g + fuel
    → EndsWithin (l + 5) (run fuel vm)
unfolding run
run-EndsWithin zero vm g l used limit top small some_fuel enough = absurd (omega arith)
run-EndsWithin (suc fuel) vm g l used limit top small some_fuel enough =
    elim (Bool-cases (leb (length vm.code) vm.pc)) [
      | inl ends ↦ rw (ends, run) (ground (arith, used, top))
      | inr inside ↦ elim (Bool-cases (ltb_ℤ vm.gas_limit vm.gas_used)) [
        | inl over ↦ rw (inside, run) (rw over (ground (arith, used, top)))
        | inr paid ↦
            let low : g ≤ l = ground (arith, used, limit, paid) in
            rw (run-step fuel vm inside paid) (
              after-EndsWithin fuel l g (step vm) limit small low (omega arith)
                (λ v g' used' limit' top' some' enough'.
                  run-EndsWithin fuel v g' l used' limit' top' small some' enough')
                (subst (λ u. Spends u vm.gas_limit (step vm)) used (step-Spends vm)))
      ]
    ]

-- Every program, on any input, ends within two rounds more than its gas limit (which is not within
-- 10 of the largest `int64`), in a result or a panic; and a result reports at most 5 more than the
-- limit.
pub run-new_vm :
    (code : Bytes) (storage : Dict Bytes Bytes) (l fuel : ℕ)
    → l + 10 < 2 ^ 63
    → l + 2 ≤ fuel
    → EndsWithin (l + 5) (run fuel (new_vm code storage (pos l)))
unfolding new_vm
run-new_vm code storage l fuel small enough =
    run-EndsWithin fuel (new_vm code storage (pos l)) 0 l refl refl (omega arith) small
      (omega arith) (omega arith)
