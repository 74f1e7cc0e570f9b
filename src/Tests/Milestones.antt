-- ===== src/Tests/Milestones.antt =====
-- Two checkpoints in their binary form.
use neo_coin.Base.{ℕ, ◌≡◌, refl, arith, ◌==◌, false, some, [], ◌∷◌, replicate, Bool-cases, inl, inr}
use neo_coin.Base.Words.{sub64}
use neo_coin.Base.Bytes.{Bytes, ascii, hex_encode}
use neo_coin.Base.Dict.{ℕ_key, lookup, insert, erase}
use neo_coin.Base.Result.{ok}
use neo_coin.Checkpoints.{
  CheckpointSystem, new_checkpoint_system, create_checkpoint, get_checkpoint, is_present,
  add_trusted_validator, verify_checkpoint, prune_old_checkpoints,
}
use neo_coin.Checkpoints.Codec.{binary_encode, binary_decode}
use neo_coin.Checkpoints.Entries.{FitsOption}
use neo_coin.Checkpoints.RoundTrip.{IsRead, binary_decode-binary_encode}

abbrev two_checkpoints : CheckpointSystem
unfolding create_checkpoint insert hex_encode
two_checkpoints =
    create_checkpoint 2 (replicate 32 7) (ascii "r") 90
      (create_checkpoint 1 (replicate 32 5) (ascii "st") 80 (new_checkpoint_system 1))

two_checkpoints-Fits : (k : ℕ) → FitsOption (get_checkpoint k two_checkpoints)
unfolding create_checkpoint insert hex_encode get_checkpoint lookup
two_checkpoints-Fits k = elim (Bool-cases (1 == k)) [
  | inl one ↦ rw one (record { hash_length = refl; root_length = omega arith })
  | inr not_one ↦ elim (Bool-cases (2 == k)) [
    | inl two ↦ rw not_one (rw two (record { hash_length = refl; root_length = omega arith }))
    | inr not_two ↦ rw not_one (rw not_two tt)
  ]
]

binary_decode-binary_encode_example :
    (bytes : Bytes) × (cs' : CheckpointSystem) × (binary_encode 4 two_checkpoints ≡ some bytes)
    × (binary_decode bytes (new_checkpoint_system 1) ≡ ok cs')
    × IsRead two_checkpoints cs'
unfolding create_checkpoint insert hex_encode
binary_decode-binary_encode_example =
    binary_decode-binary_encode two_checkpoints 1 4 (omega arith) (omega arith) two_checkpoints-Fits

-- Where the runtime visits the newer height first, the older checkpoint is the one that is kept.
prunes_newest :
    is_present (get_checkpoint 2 (prune_old_checkpoints (2 ∷ 1 ∷ []) 1 two_checkpoints)) ≡ false
unfolding create_checkpoint insert hex_encode get_checkpoint lookup prune_old_checkpoints erase
prunes_newest = refl

-- A checkpoint with no signature passes, whatever keys are trusted.
unsigned_passes :
    verify_checkpoint
      (record {
        height = 3;
        block_hash = [];
        block_hash_raw = [];
        timestamp = 0;
        state_root = [];
        signature = [];
        validator = ascii "nobody";
      })
      (add_trusted_validator (ascii "v") two_checkpoints)
    ≡ some (ok tt)
unfolding create_checkpoint insert hex_encode lookup add_trusted_validator verify_checkpoint sub64
unsigned_passes = refl
