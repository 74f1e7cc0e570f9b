-- ===== src/Checkpoints/Codec.antt =====
-- blockchain/checkpoint.go: `BinaryEncode` and `BinaryDecode`. The encoder's loop has fuel, since a
-- latest height of 2 ^ 64 - 1 makes the source's loop endless; the decoder's `data[offset:]` is the
-- rest of a list.
use neo_coin.Base.{
  ℕ, zero, suc, ◌/◌, ◌%◌, ◌^◌, ltb, leb, if◌then◌else◌, Option, none, some, [], ◌∷◌, ◌++◌, length,
  take, drop,
}
use neo_coin.Base.Words.{add64}
use neo_coin.Base.Bytes.{Bytes, hex_encode}
use neo_coin.Base.Dict.{Dict, ℕ_key, insert}
use neo_coin.Base.Result.{Result, ok, err}
use neo_coin.Header.{big_endian_value}
use neo_coin.Checkpoints.{Checkpoint, CheckpointSystem, CheckpointError, get_checkpoint}

-- `PutUint64` and `PutUint16` of encoding/binary, for 8 and 2 bytes.
unfoldable pub big_endian : ℕ → ℕ → Bytes
big_endian zero n = []
big_endian (suc k) n = big_endian k (n / 256) ++ (n % 256) ∷ []

-- One checkpoint's bytes; the length of the state root is cut to 16 bits.
abbrev pub encode_entry : ℕ → Option Checkpoint → Bytes
encode_entry h none = []
encode_entry h (some cp) =
    big_endian 8 h
    ++ (cp.block_hash_raw ++ (big_endian 2 (length cp.state_root % 2 ^ 16) ++ cp.state_root))

abbrev pub join : Bytes → Option Bytes → Option Bytes
join front none = none
join front (some rest) = some (front ++ rest)

-- The loop from height `h` to the latest; `none` is a loop that has not ended.
unfoldable pub encode_from : ℕ → ℕ → CheckpointSystem → Option Bytes
unfolding big_endian
encode_from zero h cs = none
encode_from (suc fuel) h cs =
    let rest = encode_from fuel (add64 h 1) cs in
    if leb h cs.latest then join (encode_entry h (get_checkpoint h cs)) rest else some []

-- `BinaryEncode`.
unfoldable pub binary_encode : ℕ → CheckpointSystem → Option Bytes
unfolding encode_from
binary_encode fuel cs = join (big_endian 8 cs.latest) (encode_from fuel 0 cs)

-- What the decoder makes of an entry.
abbrev pub decoded_checkpoint : ℕ → Bytes → Bytes → Checkpoint
decoded_checkpoint height block_hash state_root = record {
  height = height;
  block_hash = hex_encode block_hash;
  block_hash_raw = block_hash;
  timestamp = 0;
  state_root = state_root;
  signature = [];
  validator = [];
}

-- `data[offset : offset+n]` with the bytes behind it, if there are so many.
abbrev pub read_bytes : ℕ → Bytes → Option (Bytes × Bytes)
read_bytes n bytes = if ltb (length bytes) n then none else some (take n bytes, drop n bytes)

abbrev pub with_root : ℕ → Bytes → Option (Bytes × Bytes) → Option (Checkpoint × Bytes)
with_root height block_hash none = none
with_root height block_hash (some (state_root, rest)) =
    some (decoded_checkpoint height block_hash state_root, rest)

abbrev pub with_length : ℕ → Bytes → Option (Bytes × Bytes) → Option (Checkpoint × Bytes)
with_length height block_hash none = none
with_length height block_hash (some (length_bytes, rest)) =
    with_root height block_hash (read_bytes (big_endian_value 0 length_bytes) rest)

abbrev pub with_hash : ℕ → Option (Bytes × Bytes) → Option (Checkpoint × Bytes)
with_hash height none = none
with_hash height (some (block_hash, rest)) = with_length height block_hash (read_bytes 2 rest)

abbrev pub with_height : Option (Bytes × Bytes) → Option (Checkpoint × Bytes)
with_height none = none
with_height (some (height_bytes, rest)) =
    with_hash (big_endian_value 0 height_bytes) (read_bytes 32 rest)

-- One round of `BinaryDecode`; `none` is its `break`.
unfoldable pub read_entry : Bytes → Option (Checkpoint × Bytes)
read_entry bytes = if ltb (length bytes) 10 then none else with_height (read_bytes 8 bytes)

abbrev pub continue_with :
    (Bytes → Dict ℕ Checkpoint → Dict ℕ Checkpoint)
    → Option (Checkpoint × Bytes)
    → Dict ℕ Checkpoint
    → Dict ℕ Checkpoint
continue_with more none m = m
continue_with more (some (cp, rest)) m = more rest (insert cp.height cp m)

-- The loop of `BinaryDecode`, which takes less than one round for each byte.
unfoldable pub decode_entries : ℕ → Bytes → Dict ℕ Checkpoint → Dict ℕ Checkpoint
unfolding read_entry big_endian_value
decode_entries zero rest m = m
decode_entries (suc fuel) rest m = continue_with (decode_entries fuel) (read_entry rest) m

-- `BinaryDecode`.
unfoldable pub binary_decode : Bytes → CheckpointSystem → Result CheckpointError CheckpointSystem
unfolding decode_entries
binary_decode bytes cs =
    if ltb (length bytes) 8
    then err CheckpointError.data_too_short
    else ok (record cs {
      checkpoints = decode_entries (length bytes) (drop 8 bytes) cs.checkpoints;
      latest = big_endian_value 0 (take 8 bytes);
    })
