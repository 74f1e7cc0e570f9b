-- ===== src/Chain/AddLaws.antt =====
-- What `AddBlock` keeps, and which chain it follows.
use neo_coin.Base.{
  ◌<◌, ◌≡◌, ◌≢◌, ◌⊎◌, inl, inr, refl, ap, ◌∙◌, arith, true, false, Option, none, some, List, [],
  ◌∷◌, Bool-cases,
}
use mathlib.Core.Path.{subst}
use neo_coin.Base.Int.{ℤ}
use neo_coin.Base.Bytes.{Bytes, bytes_eq_iff, bytes_ltb, hex_encode}
use neo_coin.Base.Dict.{bytes_key, lookup, lookup-insert, lookup-insert_ne, erase-insert}
use neo_coin.Base.Result.{ok, Result-cases}
use neo_coin.Types.{Error, Block}
use neo_coin.Platform.{Platform}
use neo_coin.Chain.{Blockchain}
use neo_coin.Chain.Path.{Candidate, compute_canonical}
use neo_coin.Chain.PathLaws.{IsCanonical, compute_canonical-IsCanonical}
use neo_coin.Chain.Index.{reindex_txs, reindex_address_txs}
use neo_coin.Chain.Add.{
  StoreWrites, rejected, is_some, check_candidate, is_better, switch_to, choose_tip, with_block,
  without_block, try_candidate, add_block,
}

-- The chain holds one view of one tree: every block stands under its hash; the canonical blocks are
-- linked from a genesis to the tip's block, the state is their replay, the work is their sum, and
-- both indexes are those of the canonical blocks.
pub record IsValid (P : Platform) (bc : Blockchain) : Type 0 where
  pub keyed : (k : Bytes) (b : Block) → lookup k bc.blocks_by_hash ≡ some b → hex_encode b.hash ≡ k
  pub canonical :
      IsCanonical P bc.consensus bc.blocks_by_hash bc.best_tip_hash bc.blocks bc.state
        bc.canonical_work
  pub txs_indexed : bc.tx_index ≡ reindex_txs P bc.consensus bc.blocks []
  pub addresses_indexed : bc.address_index ≡ reindex_address_txs P bc.consensus bc.blocks []

pub is_some-false {ℓ} : {A : Type ℓ} (o : Option A) → is_some o ≡ false → o ≡ none
is_some-false none h = refl
is_some-false (some a) h = cc

module _ (P : Platform) (w : StoreWrites) (now : ℤ) (bc : Blockchain) (b : Block) where
  pub add_block-split :
      ((e : Error) × (add_block P w now bc b ≡ rejected bc e))
      ⊎ ((lookup (hex_encode b.hash) bc.blocks_by_hash ≡ none)
          × (add_block P w now bc b ≡ try_candidate P w now bc b))
  unfolding add_block
  add_block-split = elim (Result-cases (check_candidate P bc b)) [
    | inr (e, failed) ↦ inl (e, rw (failed, add_block))
    | inl (u, passed) ↦
        elim (Bool-cases (is_some (lookup (hex_encode b.prev_hash) bc.blocks_by_hash))) [
          | inr orphan ↦ inl (Error.unknown_parent, rw (passed, add_block) (rw orphan))
          | inl parent ↦
              elim (Bool-cases (is_some (lookup (hex_encode b.hash) bc.blocks_by_hash))) [
                | inl known ↦
                    inl (Error.duplicate_block, rw (passed, add_block) (rw (parent, known)))
                | inr fresh ↦
                    inr (is_some-false _ fresh, rw (passed, add_block) (rw (parent, fresh)))
              ]
        ]
  ]

  -- The chain that holds the block and has put it.
  abbrev pub holding : Blockchain
  holding = record (with_block bc b) { stored_blocks = b ∷ bc.stored_blocks }

  undone :
      lookup (hex_encode b.hash) bc.blocks_by_hash ≡ none → without_block (with_block bc b) b ≡ bc
  undone fresh =
      ap (λ t. record bc { blocks_by_hash = t })
        (erase-insert (hex_encode b.hash) b bc.blocks_by_hash fresh)

  pub try_candidate-split :
      lookup (hex_encode b.hash) bc.blocks_by_hash ≡ none
      → ((e : Error) × (try_candidate P w now bc b ≡ rejected bc e))
        ⊎ ((c : Candidate) × (compute_canonical P bc.consensus now
                (with_block bc b).blocks_by_hash
                (hex_encode b.hash)
              ≡ ok c)
            × (try_candidate P w now bc b ≡ choose_tip P w holding b c))
  unfolding try_candidate
  try_candidate-split fresh =
      elim (Result-cases (
        compute_canonical P bc.consensus now (with_block bc b).blocks_by_hash
          (hex_encode b.hash))) [
            | inr (e, failed) ↦
                inl (e, rw (failed, try_candidate) (ap (λ c. rejected c e) (undone fresh)))
            | inl (c, valid) ↦ elim (Bool-cases w.put_block) [
              | inl put ↦ inr (c, valid, rw (valid, try_candidate) (rw put))
              | inr failed ↦ inl (
                Error.store_failed,
                rw (valid, try_candidate)
                    (rw failed (ap (λ c. rejected c Error.store_failed) (undone fresh))),
              )
            ]
          ]

  -- The chain after a switch to a candidate, with what the store then holds.
  abbrev pub switched : Candidate → List Block → Blockchain
  switched c stored = record (switch_to P holding (hex_encode b.hash) c) {
    stored_canonical = stored;
  }

  pub choose_tip-split :
      (c : Candidate)
      → ((is_better holding (hex_encode b.hash) c.2 ≡ false)
          × (choose_tip P w holding b c
              ≡ record { chain = holding; reorganised = false; error = none; events = [] }))
        ⊎ ((is_better holding (hex_encode b.hash) c.2 ≡ true)
            × ((stored : List Block) × ((choose_tip P w holding b c).chain ≡ switched c stored)))
  unfolding choose_tip switch_to
  choose_tip-split c = elim (Bool-cases (is_better holding (hex_encode b.hash) c.2)) [
    | inr worse ↦ inl (worse, rw (worse, choose_tip))
    | inl better ↦ elim (Bool-cases w.rewrite_canonical) [
      | inl written ↦ inr (better, (c.0, rw (better, choose_tip) (rw written)))
      | inr lost ↦ inr (better, (bc.stored_canonical, rw (better, choose_tip) (rw lost)))
    ]
  ]

  module _ (valid : IsValid P bc)
      (fresh : lookup (hex_encode b.hash) bc.blocks_by_hash ≡ none) where
    keyed-with_block :
        (k : Bytes) (x : Block)
        → lookup k (with_block bc b).blocks_by_hash ≡ some x
        → hex_encode x.hash ≡ k
    keyed-with_block k x e = ground (
      arith,
      lookup-insert (hex_encode b.hash) k b bc.blocks_by_hash,
      bytes_eq_iff (hex_encode b.hash) k,
      valid.keyed k x,
    )

    tip_other : hex_encode b.hash ≢ bc.best_tip_hash
    tip_other same =
        let gone : lookup bc.best_tip_hash bc.blocks_by_hash ≡ none =
          subst (λ k. lookup k bc.blocks_by_hash ≡ none) same fresh in
        cc (valid.canonical.found)

    holding-IsValid : IsValid P holding
    holding-IsValid = record {
      keyed = keyed-with_block;
      canonical = record {
        replay = valid.canonical.replay;
        tip_block = valid.canonical.tip_block;
        below = valid.canonical.below;
        ends = valid.canonical.ends;
        found =
            lookup-insert_ne (hex_encode b.hash) bc.best_tip_hash b bc.blocks_by_hash tip_other
            ∙ valid.canonical.found;
      };
      txs_indexed = valid.txs_indexed;
      addresses_indexed = valid.addresses_indexed;
    }

    switched-IsValid :
        (c : Candidate) (stored : List Block)
        → compute_canonical P bc.consensus now (with_block bc b).blocks_by_hash (hex_encode b.hash)
          ≡ ok c
        → IsValid P (switched c stored)
    unfolding switch_to
    switched-IsValid c stored e = record {
      keyed = keyed-with_block;
      canonical =
          compute_canonical-IsCanonical P bc.consensus now (with_block bc b).blocks_by_hash
            (hex_encode b.hash) e;
      txs_indexed = refl;
      addresses_indexed = refl;
    }

  -- Whatever block arrives, whatever its outcome and that of the store, the chain stays valid.
  pub add_block-IsValid : IsValid P bc → IsValid P (add_block P w now bc b).chain
  add_block-IsValid valid = elim add_block-split [
    | inl (e, same) ↦ rw same valid
    | inr (fresh, tried) ↦ elim (try_candidate-split fresh) [
      | inl (e, same) ↦ rw (tried, same) valid
      | inr (c, computed, chosen) ↦ elim (choose_tip-split c) [
        | inl (worse, same) ↦ rw (tried, chosen, same) (holding-IsValid valid fresh)
        | inr (better, (stored, same)) ↦
            rw (tried, chosen, same) (switched-IsValid valid fresh c stored computed)
      ]
    ]
  ]

  -- How the tip may move: to more work, or at equal work stay or move to a smaller hash.
  abbrev pub FollowsBest : Blockchain → Type 0
  FollowsBest after =
      (bc.canonical_work < after.canonical_work)
      ⊎ ((after.canonical_work ≡ bc.canonical_work)
          × ((after.best_tip_hash ≡ bc.best_tip_hash)
              ⊎ (bytes_ltb after.best_tip_hash bc.best_tip_hash ≡ true)))

  switched-FollowsBest :
      (c : Candidate) (stored : List Block)
      → is_better holding (hex_encode b.hash) c.2 ≡ true
      → FollowsBest (switched c stored)
  unfolding is_better switch_to
  switched-FollowsBest c stored better = ground arith

  -- The canonical work never falls; at equal work the tip stays or moves to a smaller hash.
  pub add_block-FollowsBest : FollowsBest (add_block P w now bc b).chain
  add_block-FollowsBest = elim add_block-split [
    | inl (e, same) ↦ rw same (inr (refl, inl refl))
    | inr (fresh, tried) ↦ elim (try_candidate-split fresh) [
      | inl (e, same) ↦ rw (tried, same) (inr (refl, inl refl))
      | inr (c, computed, chosen) ↦ elim (choose_tip-split c) [
        | inl (worse, same) ↦ rw (tried, chosen, same) (inr (refl, inl refl))
        | inr (better, (stored, same)) ↦
            rw (tried, chosen, same) (switched-FollowsBest c stored better)
      ]
    ]
  ]

  choose_tip_accepts :
      (c : Candidate) → w.rewrite_canonical ≡ true → (choose_tip P w holding b c).error ≡ none
  unfolding choose_tip
  choose_tip_accepts c written = ground arith

  -- With a store whose rewrite of the canonical chain succeeds, a block that is refused for any
  -- reason leaves the chain exactly as it was.
  pub add_block_refused :
      w.rewrite_canonical ≡ true
      → (add_block P w now bc b).error ≢ none
      → (add_block P w now bc b).chain ≡ bc
  add_block_refused written refused = elim add_block-split [
    | inl (e, same) ↦ rw same
    | inr (fresh, tried) ↦ elim (try_candidate-split fresh) [
      | inl (e, same) ↦ rw (tried, same)
      | inr (c, computed, chosen) ↦
          absurd (refused (rw (tried, chosen) (choose_tip_accepts c written)))
    ]
  ]
