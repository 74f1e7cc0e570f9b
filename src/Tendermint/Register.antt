-- ===== src/Tendermint/Register.antt =====
-- blockchain/tendermint.go: only known validators have voted, each once in a round.
use neo_coin.Base.{
  ℕ, ◌≤◌, ◌≡◌, refl, ap, sym, ◌∙◌, true, ◌&&◌, ◌==◌, if◌then◌else◌, Option, none, some, List, [],
  ◌∷◌, arith, Bool-cases, inl, inr,
}
use mathlib.Core.Path.{subst}
use neo_coin.Base.Bytes.{Bytes, bytes_eq_iff}
use neo_coin.Base.Dict.{Dict, ℕ_key, bytes_key, lookup, insert, lookup-insert}
use neo_coin.Platform.{Platform}
use neo_coin.Address.{generate_address}
use neo_coin.Tendermint.{
  TmValidator, Tendermint, Votes, new_tendermint, is_active, new_validator, add_if_new,
  add_validator, round_or_none, tm_votes_or_none, votes_at, set_vote, vote_of, tm_vote,
  advance_round, advance_height, Call, enroll, cast, next_round, next_height, perform, perform_all,
}
use neo_coin.Tendermint.Keys.{has, Distinct, insert-Distinct}
use neo_coin.Tendermint.Powers.{AllHeavy, insert-AllHeavy}

-- Only known validators have voted, each once in a round.
pub record IsRegistered (t : Tendermint) : Type 0 where
  pub heavy : AllHeavy t.vals
  pub once : (h r : ℕ) → Distinct (votes_at h r t.votes)
  pub known :
      (h r : ℕ) (a : Bytes)
      → has (lookup a (votes_at h r t.votes)) ≡ true
      → has (lookup a t.vals) ≡ true

votes_at-set_vote :
    (h r g q : ℕ) (addr block_hash : Bytes) (votes : Dict ℕ (Dict ℕ Votes))
    → votes_at g q (set_vote h r addr block_hash votes) ≡ (
        if h == g && r == q
        then insert addr block_hash (votes_at h r votes)
        else votes_at g q votes)
votes_at-set_vote h r g q addr block_hash votes =
    let inner = insert addr block_hash (votes_at h r votes) in
    let rounds = insert r inner (round_or_none (lookup h votes)) in
    ap (λ o. tm_votes_or_none (lookup q (round_or_none o))) (lookup-insert h g rounds votes)
    ∙ elim (Bool-cases (h == g)) [
      | inl same ↦
          let e : h ≡ g = ground arith in
          rw same (
            ap tm_votes_or_none (lookup-insert r q inner (round_or_none (lookup h votes)))
            ∙ elim (Bool-cases (r == q)) [
              | inl hit ↦ rw hit refl
              | inr miss ↦ rw miss (ap (λ n. votes_at n q votes) e)
            ])
      | inr other ↦ rw other refl
    ]

-- A vote of a known validator keeps the register.
pub set_vote-IsRegistered :
    (addr block_hash : Bytes) (t : Tendermint)
    → has (lookup addr t.vals) ≡ true
    → IsRegistered t
    → IsRegistered (record t { votes = set_vote t.height t.round addr block_hash t.votes })
set_vote-IsRegistered addr block_hash t there x = record {
  heavy = x.heavy;
  once = λ g q.
      subst Distinct (sym (votes_at-set_vote t.height t.round g q addr block_hash t.votes))
        (elim (Bool-cases (t.height == g && t.round == q)) [
          | inl hit ↦ rw hit (
              insert-Distinct addr block_hash (votes_at t.height t.round t.votes)
                (x.once t.height t.round))
          | inr miss ↦ rw miss (x.once g q)
        ]);
  known = λ g q a h. ground (
    arith,
    votes_at-set_vote t.height t.round g q addr block_hash t.votes,
    lookup-insert addr a block_hash (votes_at t.height t.round t.votes),
    bytes_eq_iff addr a,
    x.known t.height t.round a,
    x.known g q a,
  );
}

abbrev IsHeavyCall : Call → Type 0
IsHeavyCall (enroll pub_key stake) = 3 ≤ stake
IsHeavyCall (cast addr block_hash) = Unit {0}
IsHeavyCall next_round = Unit {0}
IsHeavyCall next_height = Unit {0}

-- Every stake is 3 at least.
abbrev pub AllHeavyCalls : List Call → Type 0
AllHeavyCalls [] = Unit {0}
AllHeavyCalls (c ∷ cs) = IsHeavyCall c × AllHeavyCalls cs

vote_of-IsRegistered :
    (o : Option TmValidator) (addr block_hash : Bytes) (t : Tendermint)
    → lookup addr t.vals ≡ o
    → IsRegistered t
    → IsRegistered (vote_of o addr block_hash t).0
vote_of-IsRegistered none addr block_hash t e x = x
vote_of-IsRegistered (some v) addr block_hash t e x = elim (Bool-cases (is_active v)) [
  | inl on ↦ rw on (set_vote-IsRegistered addr block_hash t (ap has e) x)
  | inr off ↦ rw off x
]

add_if_new-IsRegistered :
    (o : Option TmValidator) (addr : Bytes) (v : TmValidator) (t : Tendermint)
    → is_active v ≡ true
    → 3 ≤ v.power
    → IsRegistered t
    → IsRegistered (add_if_new o addr v t)
add_if_new-IsRegistered (some known) addr v t on p x = x
add_if_new-IsRegistered none addr v t on p x = record {
  heavy = insert-AllHeavy addr v t.vals on p x.heavy;
  once = x.once;
  known = λ g q a h. ground (arith, lookup-insert addr a v t.vals, x.known g q a h);
}

module _ (P : Platform) where
  perform-IsRegistered :
      (c : Call) (t : Tendermint) → IsHeavyCall c → IsRegistered t → IsRegistered (perform P c t)
  unfolding perform add_validator tm_vote advance_round advance_height
  perform-IsRegistered (enroll pub_key stake) t p x =
      let addr = generate_address P pub_key in
      add_if_new-IsRegistered (lookup addr t.vals) addr (new_validator addr pub_key stake) t refl p
        x
  perform-IsRegistered (cast addr block_hash) t p x =
      vote_of-IsRegistered (lookup addr t.vals) addr block_hash t refl x
  perform-IsRegistered next_round t p x = record { heavy = x.heavy; once = x.once; known = x.known }
  perform-IsRegistered next_height t p x = record {
    heavy = x.heavy;
    once = x.once;
    known = x.known;
  }

  pub perform_all-IsRegistered :
      (cs : List Call) (t : Tendermint)
      → AllHeavyCalls cs
      → IsRegistered t
      → IsRegistered (perform_all P cs t)
  unfolding perform_all
  perform_all-IsRegistered [] t p x = x
  perform_all-IsRegistered (c ∷ cs) t p x =
      perform_all-IsRegistered cs (perform P c t) p.1 (perform-IsRegistered c t p.0 x)

pub new_tendermint-IsRegistered : IsRegistered new_tendermint
unfolding lookup
new_tendermint-IsRegistered = record {
  heavy = tt;
  once = λ h r. tt;
  known = λ h r a e. absurd (cc e);
}
