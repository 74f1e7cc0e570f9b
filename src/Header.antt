-- ===== src/Header.antt =====
-- Block headers and proof of work: blockchain/types.go (`TxRootLegacyForConsensus`,
-- `MerkleRootV2ForConsensus`, `HeaderBytesForConsensus`), `blockHeaderPreimageBinaryV1` of
-- blockchain/encoding_bin.go, blockchain/versions.go and blockchain/pow.go.
pub mod Mining
use neo_coin.Base.{
  ℕ, zero, suc, ◌+◌, ◌-◌, ◌*◌, ◌%◌, ◌^◌, Bool, true, false, not, ◌&&◌, ◌||◌, ltb, leb, ◌==◌,
  if◌then◌else◌, Option, none, some, List, [], ◌∷◌, ◌++◌, length, replicate,
}
use neo_coin.Base.Int.{ℤ, pos, negsuc, leb_ℤ}
use neo_coin.Base.Words.{add64}
use neo_coin.Base.Bytes.{Bytes, bytes_eq}
use neo_coin.Base.Result.{Result, ok, err, ◌>>=◌, ◌>>◌, fail_if}
use neo_coin.Types.{Error, Transaction, Block, ConsensusParams}
use neo_coin.Platform.{Platform, HeaderView}
use neo_coin.Encoding.{little_endian, decode_hex32}
use neo_coin.Merkle.{merkle_root}
use neo_coin.Tx.{tx_signing_hash, binary_encoding_active}

-- `blockVersionForHeight`.
unfoldable pub block_version_for_height : ConsensusParams → ℕ → ℕ
block_version_for_height p height =
    if p.merkle_enable && leb p.merkle_activation_height height then 2 else 1

-- The bits of an `int64`.
abbrev word_of : ℤ → ℕ
word_of (pos n) = n % 2 ^ 64
word_of (negsuc n) = 2 ^ 64 - 1 - n % 2 ^ 64

-- The big-endian number that `big.Int.SetBytes` reads.
unfoldable pub big_endian_value : ℕ → Bytes → ℕ
big_endian_value acc [] = acc
big_endian_value acc (b ∷ bs) = big_endian_value (acc * 256 + b) bs

module _ (P : Platform) (p : ConsensusParams) where
  -- The signing hashes of a block's transactions, in order.
  unfoldable pub tx_hashes : ℕ → List Transaction → Result Error (List Bytes)
  tx_hashes height [] = ok []
  tx_hashes height (t ∷ ts) = do
    h ← tx_signing_hash P t p height
    hs ← tx_hashes height ts
    ok (h ∷ hs)

  unfoldable pub concat : List Bytes → Bytes
  concat [] = []
  concat (h ∷ hs) = h ++ concat hs

  -- `TxRootLegacyForConsensus`.
  unfoldable pub tx_root_legacy : Block → Result Error Bytes
  unfolding tx_hashes concat
  tx_root_legacy b = do hs ← tx_hashes b.height b.transactions; ok (P.sha256 (concat hs))

  -- `MerkleRootV2ForConsensus`.
  unfoldable pub merkle_root_v2 : Block → Result Error Bytes
  unfolding tx_hashes
  merkle_root_v2 b = do leaves ← tx_hashes b.height b.transactions; merkle_root P leaves

  -- `switch b.Version`.
  unfoldable pub commitment_root : Block → Result Error Bytes
  unfolding tx_root_legacy merkle_root_v2
  commitment_root b = if b.version == 2 then merkle_root_v2 b else tx_root_legacy b

  -- `blockHeaderPreimageBinaryV1`. A previous hash that is empty is written as 32 zero bytes.
  unfoldable pub header_preimage_binary : Block → ℕ → Result Error Bytes
  unfolding commitment_root
  header_preimage_binary b nonce = do
    fail_if (leb_ℤ b.timestamp_unix (pos 0)) Error.invalid_timestamp
    fail_if (not (length b.prev_hash == 0) && not (length b.prev_hash == 32))
        Error.bad_prev_hash_length
    fail_if (not (length b.hash == 0) && not (length b.hash == 32)) Error.bad_hash_length
    elim (decode_hex32 b.miner_address) [
      | none ↦ err Error.invalid_miner_address
      | some miner ↦ do
        root ← commitment_root b
        let prev = if length b.prev_hash == 32 then b.prev_hash else replicate 32 0
        ok (
            1 ∷ little_endian 4 b.version
            ++ (little_endian 8 b.height
                ++ (little_endian 8 (word_of b.timestamp_unix)
                    ++ (prev
                        ++ (root
                            ++ (little_endian 4 b.difficulty_bits
                                ++ (miner ++ little_endian 8 nonce)))))))
    ]

  unfoldable pub header_view : Block → ℕ → Bytes → HeaderView
  header_view b nonce root = record {
    version = b.version;
    height = b.height;
    timestamp_unix = b.timestamp_unix;
    prev_hash = b.prev_hash;
    root = root;
    difficulty_bits = b.difficulty_bits;
    miner_address = b.miner_address;
    nonce = nonce;
  }

  -- `HeaderBytesForConsensus`.
  unfoldable pub header_bytes : Block → ℕ → Result Error Bytes
  unfolding header_preimage_binary header_view
  header_bytes b nonce =
      if binary_encoding_active p b.height then header_preimage_binary b nonce else (do
        root ← commitment_root b
        ok (
            if b.version == 2
            then P.json_header_v2 (header_view b nonce root)
            else P.json_header_v1 (header_view b nonce root)))

  -- `1 << uint(256 - b.DifficultyBits)`; the difference is a `uint32`.
  unfoldable pub target : Block → ℕ
  target b = 2 ^ ((256 + 2 ^ 32 - b.difficulty_bits) % 2 ^ 32)

  -- The hash of the header with a nonce, and whether it meets the target.
  unfoldable pub meets_target : Block → Bytes → Bool
  unfolding target
  meets_target b sum = ltb (big_endian_value 0 sum) (target b)

  -- `ProofOfWork.Run`, on fuel: `none` while the search goes on. The source's loop has no bound.
  unfoldable pub run_loop : ℕ → Block → ℕ → Option (Result Error (ℕ × Bytes))
  unfolding meets_target
  run_loop zero b nonce = none
  run_loop (suc fuel) b nonce =
      let rest = run_loop fuel b (add64 nonce 1) in
      elim (header_bytes b nonce) [
        | err e ↦ some (err e)
        | ok header ↦
            if meets_target b (P.sha256 header) then some (ok (nonce, P.sha256 header)) else rest
      ]

  unfoldable pub pow_run : ℕ → Block → Option (Result Error (ℕ × Bytes))
  unfolding run_loop
  pow_run fuel b = run_loop fuel b 0

  -- `ProofOfWork.Validate`.
  unfoldable pub pow_validate : Block → Result Error Bool
  unfolding meets_target
  pow_validate b = do
    header ← header_bytes b b.nonce
    ok (
        if not (length b.hash == 0) && not (bytes_eq b.hash (P.sha256 header))
        then false
        else meets_target b (P.sha256 header))
