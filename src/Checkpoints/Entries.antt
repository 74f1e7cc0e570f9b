-- ===== src/Checkpoints/Entries.antt =====
-- Encoding from a height on, and decoding it entry by entry.
use neo_coin.Base.{
  ℕ, zero, suc, ◌+◌, ◌%◌, ◌^◌, ◌<◌, ◌≤◌, ◌≡◌, refl, sym, ap, ◌∙◌, arith, true, false, ◌&&◌, ltb,
  leb, ◌==◌, if◌then◌else◌, Option, none, some, [], ◌++◌, length, length-append, Bool-cases, inl,
  inr,
}
use mathlib.Core.List.{append_assoc}
use neo_coin.Base.Words.{add64, add64_fits}
use neo_coin.Base.Bytes.{Bytes}
use neo_coin.Base.Dict.{Dict, ℕ_key, lookup, insert, lookup-insert}
use neo_coin.Header.{big_endian_value}
use neo_coin.Checkpoints.{Checkpoint, CheckpointSystem, get_checkpoint}
use neo_coin.Checkpoints.Codec.{
  big_endian, encode_entry, encode_from, join, decoded_checkpoint, read_bytes, with_root,
  with_length, with_hash, with_height, read_entry, continue_with, decode_entries,
}
use neo_coin.Checkpoints.Numbers.{
  length-big_endian, big_endian_value-big_endian, take-front, drop-front,
}

-- A checkpoint that fits the binary form: a hash of 32 bytes, and a state root below 2 ^ 16 bytes.
pub record Fits (cp : Checkpoint) : Type 0 where
  pub hash_length : length cp.block_hash_raw ≡ 32
  pub root_length : length cp.state_root < 2 ^ 16

abbrev pub FitsOption : Option Checkpoint → Type 0
FitsOption none = Unit {0}
FitsOption (some cp) = Fits cp

-- What the form keeps of a checkpoint.
abbrev pub stripped : ℕ → Option Checkpoint → Option Checkpoint
stripped h none = none
stripped h (some cp) = some (decoded_checkpoint h cp.block_hash_raw cp.state_root)

abbrev pub added : ℕ → Option Checkpoint → Dict ℕ Checkpoint → Dict ℕ Checkpoint
added h none m = m
added h (some cp) m = insert h (decoded_checkpoint h cp.block_hash_raw cp.state_root) m

read_bytes-front : (k : ℕ) (xs ys : Bytes) → length xs ≡ k → read_bytes k (xs ++ ys) ≡ some (xs, ys)
read_bytes-front k xs ys e =
    let enough : ltb (length (xs ++ ys)) k ≡ false = ground (arith, length-append xs ys) in
    rw enough (rw (take-front k xs ys e) (rw (drop-front k xs ys e) refl))

-- One round of the decoder reads one entry.
read_entry-entry :
    (h : ℕ) (hash root rest : Bytes)
    → h < 2 ^ 64
    → length hash ≡ 32
    → length root < 2 ^ 16
    → read_entry
        (big_endian 8 h ++ (hash ++ (big_endian 2 (length root % 2 ^ 16) ++ (root ++ rest))))
      ≡ some (decoded_checkpoint h hash root, rest)
unfolding read_entry
read_entry-entry h hash root rest bound hl rl =
    let tail2 : Bytes = root ++ rest in
    let len2 : Bytes = big_endian 2 (length root % 2 ^ 16) in
    let tail1 : Bytes = len2 ++ tail2 in
    let tail0 : Bytes = hash ++ tail1 in
    let enough : ltb (length (big_endian 8 h ++ tail0)) 10 ≡ false = ground (
      arith,
      length-append (big_endian 8 h) tail0,
      length-append hash tail1,
      length-big_endian 8 h,
    ) in
    let v : big_endian_value 0 (big_endian 8 h) ≡ h =
      big_endian_value-big_endian 8 h (omega arith) in
    let w : big_endian_value 0 len2 ≡ length root =
      big_endian_value-big_endian 2 (length root % 2 ^ 16) (omega arith) ∙ omega arith in
    rw enough (
      ap with_height (read_bytes-front 8 (big_endian 8 h) tail0 (length-big_endian 8 h))
      ∙ ap (λ n. with_hash n (read_bytes 32 tail0)) v
      ∙ ap (with_hash h) (read_bytes-front 32 hash tail1 hl)
      ∙ ap (with_length h hash)
          (read_bytes-front 2 len2 tail2 (length-big_endian 2 (length root % 2 ^ 16)))
      ∙ ap (λ n. with_root h hash (read_bytes n tail2)) w
      ∙ ap (with_root h hash) (read_bytes-front (length root) root rest refl))

entry_assoc :
    (h : ℕ) (cp : Checkpoint) (rest : Bytes)
    → encode_entry h (some cp) ++ rest
      ≡ big_endian 8 h
        ++ (cp.block_hash_raw
            ++ (big_endian 2 (length cp.state_root % 2 ^ 16) ++ (cp.state_root ++ rest)))
entry_assoc h cp rest = simp append_assoc

entry_length :
    (h : ℕ) (cp : Checkpoint) (rest : Bytes)
    → suc (length rest) ≤ length (encode_entry h (some cp) ++ rest)
entry_length h cp rest =
    let len2 : Bytes = big_endian 2 (length cp.state_root % 2 ^ 16) in
    omega (
      arith,
      length-append (encode_entry h (some cp)) rest,
      length-append (big_endian 8 h) (cp.block_hash_raw ++ (len2 ++ cp.state_root)),
      length-big_endian 8 h,
    )

decode_entries-entry :
    (rounds h : ℕ) (hash root rest : Bytes) (m : Dict ℕ Checkpoint)
    → h < 2 ^ 64
    → length hash ≡ 32
    → length root < 2 ^ 16
    → decode_entries
        (suc rounds)
        (big_endian 8 h ++ (hash ++ (big_endian 2 (length root % 2 ^ 16) ++ (root ++ rest))))
        m
      ≡ decode_entries rounds rest (insert h (decoded_checkpoint h hash root) m)
unfolding decode_entries
decode_entries-entry rounds h hash root rest m b hl rl =
    ap (λ o. continue_with (decode_entries rounds) o m) (read_entry-entry h hash root rest b hl rl)

-- The map that the decoder reaches, entry by entry.
abbrev pub after_from : ℕ → ℕ → CheckpointSystem → Dict ℕ Checkpoint → Dict ℕ Checkpoint
after_from zero h cs m = m
after_from (suc n) h cs m = after_from n (suc h) cs (added h (get_checkpoint h cs) m)

decode_entries-nil : (rounds : ℕ) (m : Dict ℕ Checkpoint) → decode_entries rounds [] m ≡ m
unfolding decode_entries read_entry
decode_entries-nil zero m = refl
decode_entries-nil (suc rounds) m = refl

-- What an encoder's rest decodes to.
abbrev pub Decodes : Bytes → ℕ → ℕ → CheckpointSystem → Type 0
Decodes bytes n h cs =
    (rounds : ℕ) (m : Dict ℕ Checkpoint)
    → length bytes ≤ rounds
    → decode_entries rounds bytes m ≡ after_from n h cs m

entry_then :
    (n h : ℕ) (cs : CheckpointSystem) (o : Option Checkpoint) (rest : Bytes)
    → get_checkpoint h cs ≡ o
    → FitsOption o
    → h < 2 ^ 64
    → Decodes rest n (suc h) cs
    → Decodes (encode_entry h o ++ rest) (suc n) h cs
entry_then n h cs none rest e fits b d rounds m long =
    d rounds m long ∙ ap (λ o. after_from n (suc h) cs (added h o m)) (sym e)
entry_then n h cs (some cp) rest e fits b d zero m long =
    absurd (omega (arith, entry_length h cp rest))
entry_then n h cs (some cp) rest e fits b d (suc rounds) m long =
    ap (λ bytes. decode_entries (suc rounds) bytes m) (entry_assoc h cp rest)
    ∙ decode_entries-entry rounds h cp.block_hash_raw cp.state_root rest m b fits.hash_length
        fits.root_length
    ∙ d rounds (insert h (decoded_checkpoint h cp.block_hash_raw cp.state_root) m)
        (omega (arith, entry_length h cp rest))
    ∙ ap (λ o. after_from n (suc h) cs (added h o m)) (sym e)

-- `n` heights from `h` to the latest are encoded, and their bytes decode to their entries.
pub encode_from-Decodes :
    (n fuel h : ℕ) (cs : CheckpointSystem)
    → h + n ≡ cs.latest + 1
    → n < fuel
    → cs.latest + 1 < 2 ^ 64
    → ((k : ℕ) → FitsOption (get_checkpoint k cs))
    → (bytes : Bytes) × (encode_from fuel h cs ≡ some bytes) × Decodes bytes n h cs
unfolding encode_from
encode_from-Decodes n zero h cs e f b fits = absurd (omega arith)
encode_from-Decodes zero (suc fuel) h cs e f b fits =
    let past : leb h cs.latest ≡ false = ground arith in
    ([], rw past refl, λ rounds m long. decode_entries-nil rounds m)
encode_from-Decodes (suc n) (suc fuel) h cs e f b fits =
    let within : leb h cs.latest ≡ true = ground arith in
    let step : add64 h 1 ≡ suc h = add64_fits h 1 (omega arith) ∙ omega arith in
    let (rest, done, d) =
      encode_from-Decodes n fuel (suc h) cs (omega arith) (omega arith) b fits in
    (
      encode_entry h (get_checkpoint h cs) ++ rest,
      rw within (
          ap (join (encode_entry h (get_checkpoint h cs)))
            (ap (λ k. encode_from fuel k cs) step ∙ done)),
      entry_then n h cs (get_checkpoint h cs) rest refl (fits h) (omega arith) d,
    )

-- The first of two optional checkpoints.
abbrev pub or_else : Option Checkpoint → Option Checkpoint → Option Checkpoint
or_else none d = d
or_else (some cp) d = some cp

lookup-added :
    (h k : ℕ) (o : Option Checkpoint) (m : Dict ℕ Checkpoint)
    → lookup k (added h o m) ≡ (if h == k then or_else (stripped h o) (lookup k m) else lookup k m)
lookup-added h k none m = ground arith
lookup-added h k (some cp) m =
    ground (arith, lookup-insert h k (decoded_checkpoint h cp.block_hash_raw cp.state_root) m)

pub lookup-after_from :
    (n h k : ℕ) (cs : CheckpointSystem) (m : Dict ℕ Checkpoint)
    → lookup k (after_from n h cs m) ≡ (
        if leb h k && ltb k (h + n)
        then or_else (stripped k (get_checkpoint k cs)) (lookup k m)
        else lookup k m)
lookup-after_from zero h k cs m = ground arith
lookup-after_from (suc n) h k cs m = elim (Bool-cases (h == k)) [
  | inl same ↦
      let e : h ≡ k = ground arith in
      rw e (
        lookup-after_from n (suc k) k cs (added k (get_checkpoint k cs) m)
        ∙ ground (arith, lookup-added k k (get_checkpoint k cs) m))
  | inr other ↦
      lookup-after_from n (suc h) k cs (added h (get_checkpoint h cs) m)
      ∙ ground (arith, lookup-added h k (get_checkpoint h cs) m)
]
