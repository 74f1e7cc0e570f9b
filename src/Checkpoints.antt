-- ===== src/Checkpoints.antt =====
-- blockchain/checkpoint.go: checkpoints by height, and their binary form. Times are nanoseconds,
-- and the zero time is 0. A division by an interval of 0 panics in Go, which is `none` where it can
-- happen.
pub mod Codec
pub mod Numbers
pub mod Entries
pub mod RoundTrip
use neo_coin.Base.{
  ℕ, ◌+◌, ◌-◌, ◌*◌, ◌/◌, Bool, true, false, not, ltb, leb, ◌==◌, ◌&&◌, if◌then◌else◌, Option, none,
  some, List, [], ◌∷◌, length, take,
}
use neo_coin.Base.Words.{sub64}
use neo_coin.Base.Bytes.{Bytes, hex_encode}
use neo_coin.Base.Dict.{Dict, ℕ_key, bytes_key, lookup, insert, erase}
use neo_coin.Base.Result.{Result, ok, err, ◌>>=◌, ◌>>◌, fail_if}

pub record Checkpoint : Type 0 where
  pub height : ℕ
  pub block_hash : Bytes
  pub block_hash_raw : Bytes
  pub timestamp : ℕ
  pub state_root : Bytes
  pub signature : Bytes
  pub validator : Bytes

pub record CheckpointSystem : Type 0 where
  pub checkpoints : Dict ℕ Checkpoint
  pub latest : ℕ
  pub interval : ℕ
  pub trusted_keys : Dict Bytes Bool

pub data CheckpointError : Type 0 where
  genesis_checkpoint missing_validator untrusted_validator data_too_short : CheckpointError

abbrev pub new_checkpoint_system : ℕ → CheckpointSystem
new_checkpoint_system interval = record {
  checkpoints = [];
  latest = 0;
  interval = interval;
  trusted_keys = [];
}

-- `AddTrustedValidator`.
unfoldable pub add_trusted_validator : Bytes → CheckpointSystem → CheckpointSystem
add_trusted_validator pub_key cs = record cs { trusted_keys = insert pub_key true cs.trusted_keys }

abbrev pub raised : ℕ → ℕ → ℕ
raised height latest = if ltb latest height then height else latest

-- `CreateCheckpoint`.
unfoldable pub create_checkpoint : ℕ → Bytes → Bytes → ℕ → CheckpointSystem → CheckpointSystem
create_checkpoint height block_hash state_root now cs =
    let cp : Checkpoint = record {
      height = height;
      block_hash = hex_encode block_hash;
      block_hash_raw = block_hash;
      timestamp = now;
      state_root = state_root;
      signature = [];
      validator = [];
    } in
    record cs { checkpoints = insert height cp cs.checkpoints; latest = raised height cs.latest }

-- A checkpoint replaces an older one only.
abbrev pub keep_newer : Checkpoint → Option Checkpoint → Dict ℕ Checkpoint → Dict ℕ Checkpoint
keep_newer cp none m = insert cp.height cp m
keep_newer cp (some existing) m =
    if ltb existing.timestamp cp.timestamp then insert cp.height cp m else m

-- `AddCheckpoint`.
unfoldable pub add_checkpoint : Checkpoint → CheckpointSystem → CheckpointSystem
add_checkpoint cp cs = record cs {
  checkpoints = keep_newer cp (lookup cp.height cs.checkpoints) cs.checkpoints;
  latest = raised cp.height cs.latest;
}

-- `GetCheckpoint`, and `GetLatestCheckpoint`, which reads it at the latest height.
unfoldable pub get_checkpoint : ℕ → CheckpointSystem → Option Checkpoint
get_checkpoint height cs = lookup height cs.checkpoints

abbrev pub is_present {ℓ} : {A : Type ℓ} → Option A → Bool
is_present none = false
is_present (some a) = true

abbrev pub is_true : Option Bool → Bool
is_true none = false
is_true (some b) = b

-- `VerifyCheckpoint`. Its last two lookups return nil either way; the second divides by the
-- interval.
unfoldable pub verify_checkpoint :
    Checkpoint → CheckpointSystem → Option (Result CheckpointError (Unit {0}))
verify_checkpoint cp cs =
    let checks_key = ltb 0 (length cs.trusted_keys) && ltb 0 (length cp.signature) in
    if cp.height == 0
    then some (err CheckpointError.genesis_checkpoint)
    else if checks_key && length cp.validator == 0
    then some (err CheckpointError.missing_validator)
    else if checks_key && not (is_true (lookup cp.validator cs.trusted_keys))
    then some (err CheckpointError.untrusted_validator)
    else if is_present (lookup (sub64 cp.height cs.interval) cs.checkpoints) && cs.interval == 0
    then none
    else some (ok tt)

-- `IsFinalized`.
unfoldable pub is_finalized : ℕ → CheckpointSystem → Option Bool
is_finalized height cs =
    if ltb cs.latest height
    then some false
    else if cs.interval == 0
    then none
    else if height / cs.interval * cs.interval == 0
    then some true
    else some (is_present (lookup (height / cs.interval * cs.interval) cs.checkpoints))

-- `GetFinalizedHeight`.
unfoldable pub get_finalized_height : CheckpointSystem → Option ℕ
get_finalized_height cs =
    if cs.latest == 0
    then some 0
    else if cs.interval == 0
    then none
    else some (cs.latest / cs.interval * cs.interval)

unfoldable pub erase_all : List ℕ → Dict ℕ Checkpoint → Dict ℕ Checkpoint
erase_all [] m = m
erase_all (h ∷ hs) m = erase_all hs (erase h m)

-- `PruneOldCheckpoints`, for the order in which the runtime visits the heights.
unfoldable pub prune_old_checkpoints : List ℕ → ℕ → CheckpointSystem → CheckpointSystem
unfolding erase_all
prune_old_checkpoints heights keep_count cs =
    if leb (length heights) keep_count then cs else record cs {
      checkpoints = erase_all (take (length heights - keep_count) heights) cs.checkpoints;
    }
