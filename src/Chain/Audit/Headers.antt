-- ===== src/Chain/Audit/Headers.antt =====
-- The header tests of the audit and of a reorganisation, which agree on byte strings.
use neo_coin.Base.{ℕ, ◌≡◌, ap, arith, true, false, ◌==◌, Option, none, some, List, [], ◌∷◌}
use neo_coin.Base.Int.{ℤ}
use neo_coin.Base.Bytes.{Bytes, bytes_eq, bytes_eq_iff, hex_encode, IsByteList}
use neo_coin.Base.Result.{ok}
use neo_coin.Types.{Block, ConsensusParams}
use neo_coin.Address.{hex_decode}
use neo_coin.Address.Laws.{hex_decode-hex_encode}
use neo_coin.Difficulty.{expected_difficulty_bits}
use neo_coin.Chain.Path.{check_genesis, check_link, check_bits, check_header}
use neo_coin.Chain.Audit.{audit_bits, audit_header}

audit_bits-check_bits :
    (b : Block) (o : Option ℕ)
    → audit_bits b o ≡ ok tt
    → (b.difficulty_bits == 0) ≡ false
    → check_bits b o ≡ ok tt
audit_bits-check_bits b none h n = cc
audit_bits-check_bits b (some e) h n = ground arith

-- The audit's header tests imply those of a reorganisation.
pub audit_header-check_header :
    (p : ConsensusParams) (now : ℤ) (blocks : List Block) (i : ℕ) (prev : Option Block) (b : Block)
    → audit_header p now blocks i prev b ≡ ok tt
    → (b.difficulty_bits == 0) ≡ false
    → check_header p now blocks i prev b ≡ ok tt
unfolding audit_header check_genesis check_link
audit_header-check_header p now blocks i none b h n = ground arith
audit_header-check_header p now blocks i (some prev) b h n = ground (
  arith,
  audit_bits-check_bits b (expected_difficulty_bits p blocks i),
  bytes_eq_iff b.prev_hash prev.hash,
  bytes_eq_iff (hex_encode b.prev_hash) (hex_encode prev.hash),
)

-- The hashes of a block are byte strings.
abbrev pub AreBytes : List Block → Type 0
AreBytes [] = Unit {0}
AreBytes (b ∷ bs) = IsByteList b.prev_hash × IsByteList b.hash × AreBytes bs

abbrev pub IsPrevBytes : Option Block → Type 0
IsPrevBytes none = Unit {0}
IsPrevBytes (some prev) = IsByteList prev.hash

hex_encode_inj : (a b : Bytes) → IsByteList a → IsByteList b → hex_encode a ≡ hex_encode b → a ≡ b
hex_encode_inj a b u v e =
    cc (hex_decode-hex_encode a u, hex_decode-hex_encode b v, ap hex_decode e)

check_bits-audit_bits : (b : Block) (o : Option ℕ) → check_bits b o ≡ ok tt → audit_bits b o ≡ ok tt
check_bits-audit_bits b none h = cc
check_bits-audit_bits b (some e) h = ground arith

same_prev :
    (b prev : Block)
    → IsByteList b.prev_hash
    → IsByteList prev.hash
    → bytes_eq (hex_encode b.prev_hash) (hex_encode prev.hash) ≡ true
    → bytes_eq b.prev_hash prev.hash ≡ true
same_prev b prev u v e = (bytes_eq_iff b.prev_hash prev.hash).1 (
    hex_encode_inj b.prev_hash prev.hash u v
      ((bytes_eq_iff (hex_encode b.prev_hash) (hex_encode prev.hash)).0 e))

-- A reorganisation's header tests imply the audit's.
pub check_header-audit_header :
    (p : ConsensusParams) (now : ℤ) (blocks : List Block) (i : ℕ) (prev : Option Block) (b : Block)
    → IsByteList b.prev_hash
    → IsPrevBytes prev
    → check_header p now blocks i prev b ≡ ok tt
    → audit_header p now blocks i prev b ≡ ok tt
unfolding audit_header check_genesis check_link
check_header-audit_header p now blocks i none b u v h = ground arith
check_header-audit_header p now blocks i (some prev) b u v h =
    ground
      (arith, check_bits-audit_bits b (expected_difficulty_bits p blocks i), same_prev b prev u v)
