-- ===== src/Tx/Laws.antt =====
-- What a verified transaction satisfies.
use neo_coin.Base.{ℕ, ap, sym, ◌∙◌, ◌<◌, ◌≡◌, ◌↔◌, true, arith, length}
use neo_coin.Base.Bytes.{Bytes}
use neo_coin.Base.Result.{ok, >>=-eq-ok}
use neo_coin.Types.{Transaction, TransactionType, ConsensusParams, bytes_of}
use neo_coin.Platform.{Platform}
use neo_coin.Address.{validate_address}
use neo_coin.Tx.{
  tx_signing_hash, check_transfer, verify_with_signing_hash, verify_type_for_consensus,
  verify_for_consensus,
}

module _ (P : Platform) where
  -- A transfer as the consensus rules accept it.
  pub record IsSigned (t : Transaction) (p : ConsensusParams) (height : ℕ) : Type 0 where
    pub amount_pos : 0 < t.amount
    pub nonce_pos : 0 < t.nonce
    pub chain_id_pos : 0 < t.chain_id
    pub receiver : validate_address P t.to_address ≡ ok tt
    pub key_size : length (bytes_of t.from_pub_key) ≡ 32
    pub signature_size : length (bytes_of t.signature) ≡ 64
    pub hash : Bytes
    pub hashed : tx_signing_hash P t p height ≡ ok hash
    pub signed : P.ed25519_verify (bytes_of t.from_pub_key) hash (bytes_of t.signature) ≡ true

  check_transfer-parts :
      (t : Transaction)
      → check_transfer P t ≡ ok tt
      → (0 < t.amount)
        × (validate_address P t.to_address ≡ ok tt)
        × (length (bytes_of t.from_pub_key) ≡ 32)
        × (length (bytes_of t.signature) ≡ 64)
        × (0 < t.nonce)
        × (0 < t.chain_id)
  unfolding check_transfer
  check_transfer-parts t e = ground arith

  verify_with_signing_hash-parts :
      (t : Transaction) (h : Bytes)
      → verify_with_signing_hash P t h ≡ ok tt
      → P.ed25519_verify (bytes_of t.from_pub_key) h (bytes_of t.signature) ≡ true
  unfolding verify_with_signing_hash
  verify_with_signing_hash-parts t h e = ground arith

  verify_transfer-parts :
      (t : Transaction) (p : ConsensusParams) (height : ℕ)
      → verify_type_for_consensus P TransactionType.transfer t p height ≡ ok tt
      → IsSigned t p height
  unfolding verify_type_for_consensus
  verify_transfer-parts t p height e =
      let (u, checked, rest) = >>=-eq-ok (check_transfer P t) _ e in
      let (h, hashed, verified) = >>=-eq-ok (tx_signing_hash P t p height) _ rest in
      let (amount, receiver, key, sig, nonce, chain) = check_transfer-parts t checked in
      record {
        amount_pos = amount;
        nonce_pos = nonce;
        chain_id_pos = chain;
        receiver = receiver;
        key_size = key;
        signature_size = sig;
        hash = h;
        hashed = hashed;
        signed = verify_with_signing_hash-parts t h verified;
      }

  verify_transfer_of_parts :
      (t : Transaction) (p : ConsensusParams) (height : ℕ)
      → t.tx_type ≡ TransactionType.transfer
      → IsSigned t p height
      → verify_type_for_consensus P TransactionType.transfer t p height ≡ ok tt
  unfolding verify_type_for_consensus
  verify_transfer_of_parts t p height k s = ground (arith, s.receiver, s.hashed, s.signed)

  -- A transfer passes `VerifyForConsensus` exactly when its amount, nonce and chain id are positive,
  -- its receiver is a valid address, its key and signature have the sizes of Ed25519, and the
  -- signature is valid for the signing hash that the height selects.
  pub verify_for_consensus-IsSigned_iff :
      (t : Transaction) (p : ConsensusParams) (height : ℕ)
      → t.tx_type ≡ TransactionType.transfer
      → (verify_for_consensus P t p height ≡ ok tt) ↔ IsSigned t p height
  unfolding verify_for_consensus
  verify_for_consensus-IsSigned_iff t p height k =
      let step = ap (λ ty. verify_type_for_consensus P ty t p height) k in
      (
        λ e. verify_transfer-parts t p height (sym step ∙ e),
        λ s. step ∙ verify_transfer_of_parts t p height k s,
      )
