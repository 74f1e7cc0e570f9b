-- ===== src/Mempool/Evict.antt =====
-- Adding, replacing and evicting: `AddWithTxID`, `ReplaceByFeeWithTxID`, `lowestFeeLocked`,
-- `evictWithDependentsLocked` and `evictBySenderNonceLocked` of blockchain/mempool.go.
use neo_coin.Base.{
  ℕ, ◌-◌, ◌^◌, Bool, true, false, not, ◌&&◌, ◌||◌, ltb, leb, ◌==◌, if◌then◌else◌, Option, none,
  some, List, [], ◌∷◌, ◌++◌, length,
}
use neo_coin.Base.Int.{ℤ, pos, leb_ℤ}
use neo_coin.Base.Bytes.{Bytes, bytes_eq, hex_encode}
use neo_coin.Base.Dict.{Dict, bytes_key, ℕ_key, lookup}
use neo_coin.Base.Result.{Result, ok, err, ◌>>=◌}
use neo_coin.Types.{Error, Transaction, ConsensusParams, MonetaryPolicy}
use neo_coin.Platform.{Platform}
use neo_coin.Tx.{from_address, signing_hash_legacy_json, tx_id_hex}
use neo_coin.Mempool.{Entry, Mempool, id_at, remove, put}
use neo_coin.Mempool.Spam.{AiFilter, check_spam}

abbrev pub lower_fee : Bytes → Option Entry → Bytes × ℕ → Bytes × ℕ
lower_fee id none best = best
lower_fee id (some e) best = if ltb e.tx.fee best.1 then (id, e.tx.fee) else best

-- The loop of `lowestFeeLocked`, from the best so far.
unfoldable pub lowest_from : List Bytes → Dict Bytes Entry → Bytes × ℕ → Bytes × ℕ
lowest_from [] entries best = best
lowest_from (id ∷ ids) entries best =
    lowest_from ids entries (lower_fee id (lookup id entries) best)

-- `lowestFeeLocked`.
unfoldable pub lowest_fee : List Bytes → Mempool → Bytes
unfolding lowest_from
lowest_fee order m = (lowest_from order m.entries ([], 2 ^ 64 - 1)).0

abbrev is_space : ℕ → Bool
is_space c = c == 32 || leb 9 c && leb c 13

-- `strings.TrimSpace(txid) == ""`, for ASCII spaces.
unfoldable pub is_blank : Bytes → Bool
is_blank [] = true
is_blank (c ∷ cs) = is_space c && is_blank cs

abbrev is_zero_ℤ : ℤ → Bool
is_zero_ℤ z = leb_ℤ z (pos 0) && leb_ℤ (pos 0) z

abbrev is_zero_policy : MonetaryPolicy → Bool
is_zero_policy p =
    p.initial_block_reward == 0
    && p.halving_interval == 0
    && p.miner_fee_share == 0
    && p.tail_emission == 0

-- `p == (ConsensusParams{})`.
unfoldable pub is_zero_params : ConsensusParams → Bool
is_zero_params p =
    not p.difficulty_enable
    && is_zero_ℤ p.target_block_time
    && is_zero_ℤ p.difficulty_window
    && p.difficulty_max_step == 0
    && p.min_difficulty_bits == 0
    && p.max_difficulty_bits == 0
    && p.genesis_difficulty_bits == 0
    && is_zero_ℤ p.median_time_past_window
    && is_zero_ℤ p.max_time_drift
    && p.max_block_size == 0
    && not p.merkle_enable
    && p.merkle_activation_height == 0
    && not p.binary_encoding_enable
    && p.binary_encoding_activation_height == 0
    && is_zero_policy p.monetary_policy

-- The id that a transaction is filed under: the given one, unless it is blank.
unfoldable pub resolve_id :
    Platform → Transaction → Bytes → ConsensusParams → ℕ → Result Error Bytes
unfolding is_blank is_zero_params
resolve_id P t given p height =
    if not (is_blank given)
    then ok given
    else if is_zero_params p && height == 0
    then (do h ← signing_hash_legacy_json P t; ok (hex_encode h))
    else tx_id_hex P t p height

-- `len(m.entries) >= m.maxSize`.
unfoldable pub is_full : Mempool → Bool
is_full m = leb_ℤ m.max_size (pos (length m.entries))

-- What the operations return besides the pool.
abbrev pub Answer : Type 0
Answer = Bytes × Option Error

-- What `ReplaceByFeeWithTxID` returns besides the pool: the id, whether it replaced, the ids that
-- it evicted, and its error.
abbrev pub Replaced : Type 0
Replaced = Bytes × Bool × List Bytes × Option Error

abbrev pub fee_of : Option Entry → ℕ
fee_of none = 0
fee_of (some e) = e.tx.fee

abbrev pub put_replacement :
    Bytes → Entry → Mempool × List Bytes → Option Entry → Mempool × Replaced
put_replacement from e (m, evicted) (some x) =
    (m, (e.tx_id, true, evicted, some Error.replacement_exists))
put_replacement from e (m, evicted) none = (put from e m, (e.tx_id, true, evicted, none))

abbrev pub refuse_replacement : Mempool → Error → Mempool × Replaced
refuse_replacement m x = (m, ([], false, [], some x))

abbrev pub entry_for : Transaction → ℤ → Bytes → Entry
entry_for t time id = record { tx = t; tx_id = id; received = time }

module _ (P : Platform) where
  -- Whether an entry is the sender's, with a later nonce.
  unfoldable pub is_later : Bytes → ℕ → Option Entry → Bool
  is_later from nonce none = false
  is_later from nonce (some e) = elim (from_address P e.tx) [
    | err x ↦ false
    | ok addr ↦ bytes_eq addr from && ltb nonce e.tx.nonce
  ]

  -- The loop of `evictWithDependentsLocked`.
  unfoldable pub evict_later : List Bytes → Bytes → ℕ → Mempool → Mempool
  unfolding is_later
  evict_later [] from nonce m = m
  evict_later (id ∷ ids) from nonce m =
      evict_later ids from nonce
        (if is_later from nonce (lookup id m.entries) then remove P id m else m)

  abbrev pub evict_victim : List Bytes → Bytes → Option Entry → Mempool → Mempool
  evict_victim order id none m = m
  evict_victim order id (some victim) m = elim (from_address P victim.tx) [
    | err x ↦ remove P id m
    | ok from ↦ evict_later order from victim.tx.nonce (remove P id m)
  ]

  -- `evictWithDependentsLocked`.
  unfoldable pub evict_with_dependents : List Bytes → Bytes → Mempool → Mempool
  unfolding evict_later
  evict_with_dependents order id m = evict_victim order id (lookup id m.entries) m

  abbrev pub evict_id : Option Bytes → Mempool × List Bytes → Mempool × List Bytes
  evict_id none (m, out) = (m, out)
  evict_id (some id) (m, out) = (remove P id m, out ++ id ∷ [])

  -- The loop of `evictBySenderNonceLocked` over the sender's nonces.
  unfoldable pub evict_nonces : List ℕ → Bytes → ℕ → Mempool × List Bytes → Mempool × List Bytes
  evict_nonces [] from nonce s = s
  evict_nonces (n ∷ ns) from nonce s =
      evict_nonces ns from nonce
        (if ltb nonce n then evict_id (id_at s.0.by_sender_nonce from n) s else s)

  -- `evictBySenderNonceLocked`.
  unfoldable pub evict_by_sender_nonce : List ℕ → Bytes → ℕ → Mempool → Mempool × List Bytes
  unfolding evict_nonces
  evict_by_sender_nonce order from nonce m =
      evict_nonces order from nonce (evict_id (id_at m.by_sender_nonce from nonce) (m, []))

  -- `AddWithTxID` from the test of the size on.
  unfoldable pub make_room : List Bytes → Bytes → Entry → Mempool → Mempool × Answer
  unfolding is_full evict_with_dependents lowest_fee put
  make_room order from e m =
      if not (is_full m)
      then (put from e m, (e.tx_id, none))
      else if length (lowest_fee order m) == 0
      then (m, ([], some Error.mempool_full))
      else (put from e (evict_with_dependents order (lowest_fee order m) m), (e.tx_id, none))

  -- The part of `AddWithTxID` under the lock.
  unfoldable pub add_locked : List Bytes → Bytes → Entry → Mempool → Mempool × Answer
  unfolding make_room
  add_locked order from e m = elim (lookup e.tx_id m.entries) [
    | some x ↦ (m, (e.tx_id, some Error.duplicate_transaction))
    | none ↦ elim (id_at m.by_sender_nonce from e.tx.nonce) [
      | some id ↦ (m, (id, some Error.nonce_in_mempool))
      | none ↦ make_room order from e m
    ]
  ]

  -- `AddWithTxID` once the id is resolved.
  unfoldable pub add_entry : AiFilter → List Bytes → Entry → Mempool → Mempool × Answer
  unfolding add_locked check_spam
  add_entry ai order e m = elim (from_address P e.tx) [
    | err x ↦ (m, ([], some x))
    | ok from ↦
        (let answer = check_spam P ai e.tx m in
          elim answer.1 [
            | err x ↦ (answer.0, ([], some x))
            | ok u ↦ add_locked order from e answer.0
          ])
  ]

  -- `ReplaceByFeeWithTxID` from the eviction on.
  unfoldable pub replace_at : List ℕ → Bytes → Entry → Mempool → Mempool × Replaced
  unfolding evict_by_sender_nonce
  replace_at order from e m =
      (let left = evict_by_sender_nonce order from e.tx.nonce m in
        put_replacement from e left (lookup e.tx_id left.0.entries))

  -- `ReplaceByFeeWithTxID` once the id is resolved.
  unfoldable pub replace_entry : List ℕ → Entry → Mempool → Mempool × Replaced
  unfolding replace_at
  replace_entry order e m = elim (from_address P e.tx) [
    | err x ↦ refuse_replacement m x
    | ok from ↦ elim (id_at m.by_sender_nonce from e.tx.nonce) [
      | none ↦ refuse_replacement m Error.no_nonce_to_replace
      | some id ↦
          if leb e.tx.fee (fee_of (lookup id m.entries))
          then refuse_replacement m Error.replacement_fee_too_low
          else replace_at order from e m
    ]
  ]

  -- `AddWithTxID`.
  unfoldable pub add_with_tx_id :
      AiFilter
      → List Bytes
      → ℤ
      → Transaction
      → Bytes
      → ConsensusParams
      → ℕ
      → Mempool
      → Mempool × Answer
  unfolding add_entry resolve_id
  add_with_tx_id ai order time t given p height m = elim (resolve_id P t given p height) [
    | err x ↦ (m, ([], some x))
    | ok id ↦ add_entry ai order (entry_for t time id) m
  ]

  -- `ReplaceByFeeWithTxID`.
  unfoldable pub replace_by_fee :
      List ℕ → ℤ → Transaction → Bytes → ConsensusParams → ℕ → Mempool → Mempool × Replaced
  unfolding replace_entry resolve_id
  replace_by_fee order time t given p height m = elim (resolve_id P t given p height) [
    | err x ↦ refuse_replacement m x
    | ok id ↦ replace_entry order (entry_for t time id) m
  ]
