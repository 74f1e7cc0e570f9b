-- ===== src/Checkpoints/RoundTrip.antt =====
-- Decoding what was encoded gives the checkpoints back, less what the binary form leaves out.
use neo_coin.Base.{
  ℕ, ◌+◌, ◌^◌, ◌<◌, ◌≤◌, ◌≡◌, refl, ap, ◌∙◌, arith, ltb, leb, ◌&&◌, false, if◌then◌else◌, Option,
  none, some, [], ◌++◌, length, length-append,
}
use neo_coin.Base.Bytes.{Bytes}
use neo_coin.Base.Dict.{ℕ_key, lookup}
use neo_coin.Base.Result.{ok}
use neo_coin.Checkpoints.{Checkpoint, CheckpointSystem, new_checkpoint_system, get_checkpoint}
use neo_coin.Checkpoints.Codec.{big_endian, join, binary_encode, decode_entries, binary_decode}
use neo_coin.Checkpoints.Numbers.{
  length-big_endian, big_endian_value-big_endian, take-front, drop-front,
}
use neo_coin.Checkpoints.Entries.{
  FitsOption, stripped, or_else, encode_from-Decodes, lookup-after_from,
}

-- What a system reads back: its latest height and, up to it, its checkpoints without their times,
-- signatures and validators.
pub record IsRead (cs cs' : CheckpointSystem) : Type 0 where
  pub latest : cs'.latest ≡ cs.latest
  pub upto : (k : ℕ) → k ≤ cs.latest → get_checkpoint k cs' ≡ stripped k (get_checkpoint k cs)
  pub beyond : (k : ℕ) → cs.latest < k → get_checkpoint k cs' ≡ none

decoded :
    (cs : CheckpointSystem) (interval : ℕ) (rest : Bytes)
    → cs.latest < 2 ^ 64
    → binary_decode (big_endian 8 cs.latest ++ rest) (new_checkpoint_system interval)
      ≡ ok (record (new_checkpoint_system interval) {
        checkpoints = decode_entries (length (big_endian 8 cs.latest ++ rest)) rest [];
        latest = cs.latest;
      })
unfolding binary_decode
decoded cs interval rest b =
    let front = big_endian 8 cs.latest in
    let enough : ltb (length (front ++ rest)) 8 ≡ false =
      ground (arith, length-append front rest, length-big_endian 8 cs.latest) in
    rw enough (
      rw (take-front 8 front rest (length-big_endian 8 cs.latest)) (
        rw (drop-front 8 front rest (length-big_endian 8 cs.latest))
          (rw (big_endian_value-big_endian 8 cs.latest (omega arith)) refl)))

read_upto :
    (k n : ℕ) (o : Option Checkpoint)
    → k < n
    → (if leb 0 k && ltb k (0 + n) then or_else o none else none) ≡ o
read_upto k n none h = ground arith
read_upto k n (some cp) h = ground arith

read_beyond :
    (k n : ℕ) (o : Option Checkpoint)
    → n ≤ k
    → (if leb 0 k && ltb k (0 + n) then or_else o none else none) ≡ none
read_beyond k n o h = ground arith

-- For checkpoints with hashes of 32 bytes and state roots below 2 ^ 16 bytes, and a latest height
-- below 2 ^ 64 - 1: `BinaryEncode` ends, and `BinaryDecode` of its bytes into a new system succeeds
-- and gives the latest height back and exactly the checkpoints up to it, each with its height, hash
-- and state root.
pub binary_decode-binary_encode :
    (cs : CheckpointSystem) (interval fuel : ℕ)
    → cs.latest + 1 < 2 ^ 64
    → cs.latest + 1 < fuel
    → ((k : ℕ) → FitsOption (get_checkpoint k cs))
    → (bytes : Bytes) × (cs' : CheckpointSystem) × (binary_encode fuel cs ≡ some bytes)
      × (binary_decode bytes (new_checkpoint_system interval) ≡ ok cs')
      × IsRead cs cs'
unfolding binary_encode get_checkpoint lookup
binary_decode-binary_encode cs interval fuel b f fits =
    let n : ℕ = cs.latest + 1 in
    let (rest, done, d) = encode_from-Decodes n fuel 0 cs (omega arith) f b fits in
    let bytes : Bytes = big_endian 8 cs.latest ++ rest in
    let same = d (length bytes) [] (omega (arith, length-append (big_endian 8 cs.latest) rest)) in
    (
      bytes,
      record (new_checkpoint_system interval) {
        checkpoints = decode_entries (length bytes) rest [];
        latest = cs.latest;
      },
      ap (join (big_endian 8 cs.latest)) done,
      decoded cs interval rest (omega arith),
      record {
        latest = refl;
        upto = λ k le.
            ap (lookup k) same
            ∙ lookup-after_from n 0 k cs []
            ∙ read_upto k n (stripped k (get_checkpoint k cs)) (omega arith);
        beyond = λ k lt.
            ap (lookup k) same
            ∙ lookup-after_from n 0 k cs []
            ∙ read_beyond k n (stripped k (get_checkpoint k cs)) (omega arith);
      },
    )
