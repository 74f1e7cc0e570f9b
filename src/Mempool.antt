-- ===== src/Mempool.antt =====
-- The pool of pending transactions: blockchain/mempool.go. Where the source ranges over a map, the
-- order that the runtime chooses is an argument, a list of keys; a key that is gone when its turn
-- comes is skipped, as Go does. The clock's time of an entry is an argument too.
pub mod Spam
pub mod Evict
pub mod Index
pub mod Consistent
pub mod Evictions
pub mod Operations
pub mod Replace
pub mod Bound
pub mod Accept
use neo_coin.Base.{
  ℕ, ◌+◌, ◌^◌, ◌-◌, Bool, true, false, not, ◌&&◌, ◌||◌, ltb, leb, ◌==◌, if◌then◌else◌, Option, none,
  some, List, [], ◌∷◌, length,
}
use neo_coin.Base.Int.{ℤ, pos, leb_ℤ}
use neo_coin.Base.Bytes.{Bytes, bytes_eq}
use neo_coin.Base.Dict.{Dict, bytes_key, ℕ_key, lookup, insert, erase}
use neo_coin.Base.Result.{Result, ok, err}
use neo_coin.Types.{Error, Transaction}
use neo_coin.Platform.{Platform}
use neo_coin.Tx.{from_address}

-- `mempoolEntry`.
pub record Entry : Type 0 where
  pub tx : Transaction
  pub tx_id : Bytes
  pub received : ℤ

-- `Mempool`, with the counters of its `SpamStats` that change (without a wrap at 2 ^ 63).
pub record Mempool : Type 0 where
  pub max_size : ℤ
  pub entries : Dict Bytes Entry
  pub by_sender_nonce : Dict Bytes (Dict ℕ Bytes)
  pub total_checked : ℕ
  pub spam_detected : ℕ

-- `NewMempool`.
unfoldable pub new_mempool : ℤ → Mempool
new_mempool size = record {
  max_size = if leb_ℤ size (pos 0) then pos 10000 else size;
  entries = [];
  by_sender_nonce = [];
  total_checked = 0;
  spam_detected = 0;
}

-- `bySenderNonce[from]`, nil when missing.
unfoldable pub nonces_of : Dict Bytes (Dict ℕ Bytes) → Bytes → Dict ℕ Bytes
nonces_of index from = elim (lookup from index) [ none ↦ [] | some nonces ↦ nonces ]

-- `bySenderNonce[from][nonce]`.
unfoldable pub id_at : Dict Bytes (Dict ℕ Bytes) → Bytes → ℕ → Option Bytes
unfolding nonces_of
id_at index from nonce = lookup nonce (nonces_of index from)

-- `indexLocked`.
unfoldable pub index_put : Bytes → ℕ → Bytes → Dict Bytes (Dict ℕ Bytes) → Dict Bytes (Dict ℕ Bytes)
unfolding nonces_of
index_put from nonce tx_id index = insert from (insert nonce tx_id (nonces_of index from)) index

-- `delete(m.bySenderNonce[from], nonce)`, if the id stands there.
unfoldable pub drop_nonce : ℕ → Bytes → Dict ℕ Bytes → Dict ℕ Bytes
drop_nonce nonce tx_id nonces = elim (lookup nonce nonces) [
  | none ↦ nonces
  | some id ↦ if bytes_eq id tx_id then erase nonce nonces else nonces
]

-- The part of `removeLocked` on the index: a sender without nonces is deleted.
unfoldable pub index_remove :
    Bytes → ℕ → Bytes → Dict Bytes (Dict ℕ Bytes) → Dict Bytes (Dict ℕ Bytes)
unfolding drop_nonce
index_remove from nonce tx_id index = elim (lookup from index) [
  | none ↦ index
  | some nonces ↦
      (let left = drop_nonce nonce tx_id nonces in
        if length left == 0 then erase from index else insert from left index)
]

-- The two writes that put an entry in.
unfoldable pub put : Bytes → Entry → Mempool → Mempool
unfolding index_put
put from e m = record m {
  entries = insert e.tx_id e m.entries;
  by_sender_nonce = index_put from e.tx.nonce e.tx_id m.by_sender_nonce;
}

module _ (P : Platform) where
  abbrev pub remove_entry : Mempool → Bytes → Option Entry → Mempool
  remove_entry m tx_id none = m
  remove_entry m tx_id (some e) = record m {
    entries = erase tx_id m.entries;
    by_sender_nonce = elim (from_address P e.tx) [
      | err x ↦ m.by_sender_nonce
      | ok from ↦ index_remove from e.tx.nonce tx_id m.by_sender_nonce
    ];
  }

  -- `removeLocked`, and `Remove`.
  unfoldable pub remove : Bytes → Mempool → Mempool
  unfolding index_remove
  remove tx_id m = remove_entry m tx_id (lookup tx_id m.entries)

  -- `RemoveMany`.
  unfoldable pub remove_many : List Bytes → Mempool → Mempool
  unfolding remove
  remove_many [] m = m
  remove_many (id ∷ ids) m = remove_many ids (remove id m)

-- `TxForSenderNonce`; `none` is the answer with `false`.
unfoldable pub tx_for_sender_nonce : Mempool → Bytes → ℕ → Option Entry
unfolding id_at
tx_for_sender_nonce m from nonce = elim (id_at m.by_sender_nonce from nonce) [
  | none ↦ none
  | some id ↦ lookup id m.entries
]
