-- ===== src/Chain/Index.antt =====
-- The transaction and address indexes of the canonical chain, and the queries on them:
-- `indexTxsForBlockLocked`, `indexAddressTxsForBlockLocked`, the two `reindexAll` methods, `TxByID`,
-- `AddressTxs` and `BlockByHeight` of blockchain/chain.go, `HeadersFrom` and `BlocksFrom` of
-- blockchain/forks.go.
use neo_coin.Base.{
  ℕ, zero, suc, ◌+◌, ◌-◌, Bool, false, not, ltb, leb, ◌==◌, if◌then◌else◌, Option, none, some, List,
  [], ◌∷◌, ◌++◌, length, take, drop, get_elem?,
}
use neo_coin.Base.Int.{ℤ, pos, leb_ℤ, ltb_ℤ, pos_part}
use neo_coin.Base.Words.{add64}
use neo_coin.Base.Bytes.{Bytes, bytes_eq, hex_encode}
use neo_coin.Base.Dict.{Dict, bytes_key, lookup, insert}
use neo_coin.Base.Result.{ok, err}
use neo_coin.Types.{Transaction, Block, ConsensusParams, is_transfer}
use neo_coin.Platform.{Platform}
use neo_coin.Tx.{tx_id_hex, from_address}
use neo_coin.Chain.{Blockchain, TxLocation, AddressTxEntry}

abbrev pub AddressIndex : Type 0
AddressIndex = Dict Bytes (List AddressTxEntry)

-- `addressIndex[addr]`, nil when missing.
unfoldable pub entries_of : AddressIndex → Bytes → List AddressTxEntry
entries_of m addr = elim (lookup addr m) [ none ↦ [] | some es ↦ es ]

-- `addressIndex[addr] = append(addressIndex[addr], entry)`.
unfoldable pub append_entry : Bytes → AddressTxEntry → AddressIndex → AddressIndex
append_entry addr entry m = insert addr (entries_of m addr ++ entry ∷ []) m

abbrev location_of : Block → ℕ → TxLocation
location_of b i = record { height = b.height; block_hash_hex = hex_encode b.hash; index = i }

module _ (P : Platform) (p : ConsensusParams) where
  -- The body of the loop of `indexTxsForBlockLocked`.
  unfoldable pub index_tx : Block → ℕ → Transaction → Dict Bytes TxLocation → Dict Bytes TxLocation
  index_tx b i t m =
      if not (is_transfer t.tx_type)
      then m
      else elim (tx_id_hex P t p b.height) [ err e ↦ m | ok id ↦ insert id (location_of b i) m ]

  unfoldable pub index_txs_from :
      Block → ℕ → List Transaction → Dict Bytes TxLocation → Dict Bytes TxLocation
  unfolding index_tx
  index_txs_from b i [] m = m
  index_txs_from b i (t ∷ ts) m = index_txs_from b (suc i) ts (index_tx b i t m)

  -- `indexTxsForBlockLocked`.
  unfoldable pub index_txs_for_block : Block → Dict Bytes TxLocation → Dict Bytes TxLocation
  unfolding index_txs_from
  index_txs_for_block b m = index_txs_from b 0 b.transactions m

  unfoldable pub entry_of : Block → ℕ → Transaction → Bytes → Bytes → AddressTxEntry
  entry_of b i t id from = record {
    tx_id = id;
    location = location_of b i;
    from_addr = from;
    to_address = t.to_address;
    amount = t.amount;
    fee = t.fee;
    nonce = t.nonce;
  }

  -- The entry is listed under both ends, once if they are one.
  unfoldable pub list_entry : Bytes → Bytes → AddressTxEntry → AddressIndex → AddressIndex
  list_entry from to entry m =
      let listed = append_entry from entry m in
      if bytes_eq to from then listed else append_entry to entry listed

  unfoldable pub index_address_tx : Block → ℕ → Transaction → AddressIndex → AddressIndex
  unfolding entry_of list_entry
  index_address_tx b i t m =
      if not (is_transfer t.tx_type) then m else elim (tx_id_hex P t p b.height) [
        | err e ↦ m
        | ok id ↦ elim (from_address P t) [
          | err e ↦ m
          | ok from ↦ list_entry from t.to_address (entry_of b i t id from) m
        ]
      ]

  unfoldable pub index_address_txs_from : Block → ℕ → List Transaction → AddressIndex → AddressIndex
  unfolding index_address_tx
  index_address_txs_from b i [] m = m
  index_address_txs_from b i (t ∷ ts) m =
      index_address_txs_from b (suc i) ts (index_address_tx b i t m)

  -- `indexAddressTxsForBlockLocked`.
  unfoldable pub index_address_txs_for_block : Block → AddressIndex → AddressIndex
  unfolding index_address_txs_from
  index_address_txs_for_block b m = index_address_txs_from b 0 b.transactions m

  -- `reindexAllTxsLocked` and `reindexAllAddressTxsLocked`, over the blocks that are left.
  unfoldable pub reindex_txs : List Block → Dict Bytes TxLocation → Dict Bytes TxLocation
  unfolding index_txs_for_block
  reindex_txs [] m = m
  reindex_txs (b ∷ bs) m = reindex_txs bs (index_txs_for_block b m)

  unfoldable pub reindex_address_txs : List Block → AddressIndex → AddressIndex
  unfolding index_address_txs_for_block
  reindex_address_txs [] m = m
  reindex_address_txs (b ∷ bs) m = reindex_address_txs bs (index_address_txs_for_block b m)

abbrev tx_in_block : TxLocation → Option Block → Option (Transaction × TxLocation)
tx_in_block loc none = none
tx_in_block loc (some b) = elim (get_elem? b.transactions loc.index) [
  | none ↦ none
  | some t ↦ if bytes_eq (hex_encode b.hash) loc.block_hash_hex then some (t, loc) else none
]

-- `TxByID`; `none` is the answer with `false`.
unfoldable pub tx_by_id : Blockchain → Bytes → Option (Transaction × TxLocation)
tx_by_id bc txid = elim (lookup txid bc.tx_index) [
  | none ↦ none
  | some loc ↦ tx_in_block loc (get_elem? bc.blocks loc.height)
]

-- The limit of a page: 50 by default, 200 at most.
unfoldable pub page_limit : ℤ → ℕ
page_limit limit =
    if leb_ℤ limit (pos 0) then 50 else if ltb_ℤ (pos 200) limit then 200 else pos_part limit

-- The loop `for i >= 0 && len(out) < limit`, with room for what is left of the limit and `count` for
-- `i + 1`.
unfoldable pub walk_down : ℕ → List AddressTxEntry → ℕ → List AddressTxEntry
walk_down zero all count = []
walk_down (suc room) all zero = []
walk_down (suc room) all (suc i) = elim (get_elem? all i) [
  | none ↦ []
  | some e ↦ e ∷ walk_down room all i
]

-- The page of a non-empty history. `start` is `len(all)-1-cursor`.
unfoldable pub page_of : List AddressTxEntry → ℕ → ℕ → List AddressTxEntry × ℕ × Bool
unfolding walk_down
page_of all limit cursor =
    if leb (length all) cursor
    then ([], cursor, false)
    else (let out = walk_down limit all (length all - cursor) in
        let next = cursor + length out in (out, next, ltb next (length all)))

-- `AddressTxs`: a page of an address's history, newest first, the next cursor, and whether there is
-- more.
unfoldable pub address_txs : Blockchain → Bytes → ℤ → ℤ → List AddressTxEntry × ℕ × Bool
unfolding page_limit page_of
address_txs bc address limit cursor =
    let all = entries_of bc.address_index address in
    if length all == 0 then ([], 0, false) else page_of all (page_limit limit) (pos_part cursor)

-- `BlockByHeight`.
unfoldable pub block_by_height : Blockchain → ℕ → Option Block
block_by_height bc height = get_elem? bc.blocks height

-- The slice of `HeadersFrom` and `BlocksFrom`; `height + count` wraps.
unfoldable pub block_range : List Block → ℕ → ℤ → List Block
block_range blocks height count =
    let n = if leb_ℤ count (pos 0) then 100 else pos_part count in
    let end = add64 height n in
    let last = if ltb (length blocks) end then length blocks else end in
    if leb (length blocks) height then [] else take (last - height) (drop height blocks)

-- `BlocksFrom`.
unfoldable pub blocks_from : Blockchain → ℕ → ℤ → List Block
blocks_from bc height count = block_range bc.blocks height count
