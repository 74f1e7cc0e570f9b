-- ===== src/Miner/MineLaws.antt =====
-- A mined block extends the chain: what `MineTransfers` keeps when it returns a block.
use mathlib.Core.Path.{subst}
use mathlib.Core.List.{get_last?, reverse, reverse-append}
use neo_coin.Base.{
  ℕ, ◌+◌, ◌≡◌, refl, ap, sym, ◌∙◌, arith, false, ◌==◌, Option, none, some, List, [], ◌∷◌, ◌++◌,
  length,
}
use neo_coin.Base.Bytes.{Bytes, bytes_eq_iff, hex_encode}
use neo_coin.Base.Dict.{Dict, bytes_key, lookup, insert, lookup-insert, lookup-insert_self}
use neo_coin.Types.{Block, ConsensusParams}
use neo_coin.Platform.{Platform}
use neo_coin.Ledger.{State, apply_block_to_state, apply_blocks}
use neo_coin.Difficulty.{work_for_difficulty_bits}
use neo_coin.Chain.{Blockchain, TxLocation}
use neo_coin.Ledger.Nonces.{apply_blocks-nil, apply_blocks-cons}
use neo_coin.Chain.PathLaws.{total_work, IsNext, Linked, IsReplay, apply_blocks-step}
use neo_coin.Chain.Index.{
  AddressIndex, index_txs_for_block, index_address_txs_for_block, reindex_txs, reindex_address_txs,
}
use neo_coin.Chain.AddLaws.{IsValid}
use neo_coin.Miner.Mine.{append_block, add_to_index}

total_work-append :
    (xs : List Block) (b : Block)
    → total_work (xs ++ b ∷ []) ≡ total_work xs + work_for_difficulty_bits b.difficulty_bits
total_work-append [] b = omega arith
total_work-append (x ∷ xs) b = omega (arith, total_work-append xs b)

Linked-last :
    (p : ConsensusParams) (prev : Option Block) (xs : List Block) (latest b : Block)
    → Linked p prev xs
    → get_last? xs ≡ some latest
    → IsNext p (some latest) b
    → Linked p prev (xs ++ b ∷ [])
Linked-last p prev [] latest b h last next = cc
Linked-last p prev (x ∷ []) latest b h last next =
    let same : x ≡ latest = cc in (h.0, (subst (λ l. IsNext p (some l) b) (sym same) next, tt))
Linked-last p prev (x ∷ y ∷ xs) latest b h last next =
    (h.0, Linked-last p (some x) (y ∷ xs) latest b h.1 last next)

module _ (P : Platform) (p : ConsensusParams) where
  apply_blocks-one :
      (s : State) (b : Block) {s1 : State}
      → apply_block_to_state P p s b ≡ (s1, none)
      → apply_blocks P p s (b ∷ []) ≡ (s1, none)
  unfolding apply_blocks
  apply_blocks-one s b e = apply_blocks-step P p s b [] e

  apply_blocks-append :
      (xs : List Block) (s : State) (b : Block) {s1 s2 : State}
      → apply_blocks P p s xs ≡ (s1, none)
      → apply_block_to_state P p s1 b ≡ (s2, none)
      → apply_blocks P p s (xs ++ b ∷ []) ≡ (s2, none)
  apply_blocks-append [] s b {s1} {s2} e one =
      apply_blocks-one s b (
        subst (λ x. apply_block_to_state P p x b ≡ (s2, none)) (sym (apply_blocks-nil P p s e)) one)
  apply_blocks-append (x ∷ xs) s b e one =
      let (s0, first, rest) = apply_blocks-cons P p x xs s e in
      apply_blocks-step P p s x (xs ++ b ∷ []) first ∙ apply_blocks-append xs s0 b rest one

  reindex_txs-append :
      (xs : List Block) (b : Block) (m : Dict Bytes TxLocation)
      → reindex_txs P p (xs ++ b ∷ []) m ≡ index_txs_for_block P p b (reindex_txs P p xs m)
  unfolding reindex_txs
  reindex_txs-append [] b m = refl
  reindex_txs-append (x ∷ xs) b m = reindex_txs-append xs b (index_txs_for_block P p x m)

  reindex_address_txs-append :
      (xs : List Block) (b : Block) (m : AddressIndex)
      → reindex_address_txs P p (xs ++ b ∷ []) m
        ≡ index_address_txs_for_block P p b (reindex_address_txs P p xs m)
  unfolding reindex_address_txs
  reindex_address_txs-append [] b m = refl
  reindex_address_txs-append (x ∷ xs) b m =
      reindex_address_txs-append xs b (index_address_txs_for_block P p x m)

  keyed-insert :
      (tree : Dict Bytes Block) (b : Block)
      → ((k : Bytes) (x : Block) → lookup k tree ≡ some x → hex_encode x.hash ≡ k)
      → (k : Bytes) (x : Block) → lookup k (insert (hex_encode b.hash) b tree) ≡ some x
      → hex_encode x.hash ≡ k
  keyed-insert tree b keyed k x e = ground (
    arith,
    lookup-insert (hex_encode b.hash) k b tree,
    bytes_eq_iff (hex_encode b.hash) k,
    keyed k x,
  )

  append-IsReplay :
      (path : List Block) (s s1 : State) (work : ℕ) (latest b : Block)
      → IsReplay P p path s work
      → get_last? path ≡ some latest
      → IsNext p (some latest) b
      → apply_block_to_state P p s b ≡ (s1, none)
      → IsReplay P p (path ++ b ∷ []) s1 (work + work_for_difficulty_bits b.difficulty_bits)
  append-IsReplay path s s1 work latest b h last next one = record {
    replayed = apply_blocks-append path [] b h.replayed one;
    worked = omega (arith, h.worked, total_work-append path b);
    linked = Linked-last p none path latest b h.linked last next;
  }

pub append_block-IsValid :
    (P : Platform) (bc : Blockchain) (latest b : Block) (s1 : State)
    → IsValid P bc
    → get_last? bc.blocks ≡ some latest
    → IsNext bc.consensus (some latest) b
    → (length b.hash == 0) ≡ false
    → apply_block_to_state P bc.consensus bc.state b ≡ (s1, none)
    → IsValid P (append_block P bc b s1)
unfolding append_block add_to_index
append_block-IsValid P bc latest b s1 h last next hashed one =
    let old = h.canonical in
    rw hashed (record {
      keyed = keyed-insert P bc.consensus bc.blocks_by_hash b h.keyed;
      canonical = record {
        replay =
            append-IsReplay P bc.consensus bc.blocks bc.state s1 bc.canonical_work latest b
              old.replay last next one;
        tip_block = b;
        found = lookup-insert_self (hex_encode b.hash) b bc.blocks_by_hash;
        below = reverse bc.blocks;
        ends = reverse-append bc.blocks (b ∷ []);
      };
      txs_indexed =
          ap (index_txs_for_block P bc.consensus b) h.txs_indexed
          ∙ sym (reindex_txs-append P bc.consensus bc.blocks b []);
      addresses_indexed =
          ap (index_address_txs_for_block P bc.consensus b) h.addresses_indexed
          ∙ sym (reindex_address_txs-append P bc.consensus bc.blocks b []);
    })
