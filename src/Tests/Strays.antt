-- ===== src/Tests/Strays.antt =====
-- The pool of orphan blocks on concrete blocks.
use neo_coin.Base.{ℕ, zero, suc, ◌≡◌, refl, arith, none, some, List, [], ◌∷◌}
use neo_coin.Base.Int.{pos, negsuc}
use neo_coin.Base.Bytes.{bytes_eq, hex_encode}
use neo_coin.Base.Dict.{lookup, insert, erase, bytes_key}
use neo_coin.Types.{Block}
use neo_coin.Orphans.{
  OrphanPool, new_orphan_pool, add_orphan, remove_oldest, remove_block, limit_size, pool_size, Call,
  add, remove, perform, perform_all,
}
use neo_coin.Orphans.Listed.{listed}
use neo_coin.Orphans.Limit.{IsLimited, limit_size_returns}
use neo_coin.Orphans.Bound.{IsExact, IsAdded, add_orphan-IsAdded}

abbrev stray : ℕ → Block
stray n = record {
  version = 1;
  height = n;
  timestamp_unix = pos 0;
  prev_hash = 0 ∷ [];
  nonce = 0;
  difficulty_bits = 1;
  miner_address = [];
  transactions = [];
  hash = n ∷ [];
}

-- A removal leaves a stale entry, and the next additions exceed the bound of two.
stale_entry_exceeds :
    pool_size (
      perform_all
        (add (stray 1) 1
          ∷ add (stray 2) 2
          ∷ remove (1 ∷ [])
          ∷ add (stray 3) 3
          ∷ add (stray 4) 4
          ∷ [])
        (new_orphan_pool (pos 2)))
    ≡ 3
unfolding perform_all perform add_orphan remove_block lookup insert erase bytes_eq hex_encode
stale_entry_exceeds = refl

-- With a negative limit the loop goes on when nothing is left.
negative_limit_runs_on : (fuel : ℕ) → limit_size fuel (negsuc 0) (new_orphan_pool (pos 2)) ≡ none
unfolding limit_size remove_oldest
negative_limit_runs_on zero = refl
negative_limit_runs_on (suc fuel) = negative_limit_runs_on fuel

abbrev two_calls : List Call
two_calls = add (stray 1) 1 ∷ add (stray 2) 2 ∷ []

limit_size_returns_example :
    (op' : OrphanPool) × (limit_size 3 (pos 1) (perform_all two_calls (new_orphan_pool (pos 2)))
      ≡ some op')
    × IsLimited 1 (perform_all two_calls (new_orphan_pool (pos 2))) op'
unfolding perform_all perform add_orphan lookup insert bytes_eq hex_encode
limit_size_returns_example = limit_size_returns (pos 2) two_calls 3 1 (omega arith)

abbrev one_stray : OrphanPool
one_stray = record {
  blocks = (hex_encode (1 ∷ []), record { block = stray 1; added_at = 1 }) ∷ [];
  height_list = hex_encode (1 ∷ []) ∷ [];
  max_orphans = 1;
}

one_stray-IsExact : IsExact one_stray
unfolding lookup listed
one_stray-IsExact = record { same = λ k. ground arith; once = (refl, tt) }

add_orphan-IsAdded_example :
    IsAdded (hex_encode (2 ∷ [])) (stray 2) one_stray (add_orphan (stray 2) 2 one_stray)
unfolding lookup bytes_eq hex_encode
add_orphan-IsAdded_example =
    add_orphan-IsAdded (stray 2) 2 one_stray one_stray-IsExact (omega arith) (omega arith) refl
