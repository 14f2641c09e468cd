-- ===== src/Client/Keys/View.antt =====
-- client/core/vault/dekcache.go: the two levels of the cache as one map from a group and a key
-- version to a key.
use zt_data_sync.Prelude.Assoc.{lookup, lookup-put, lookup-without}
use zt_data_sync.Client.Keys.{
  Ciphers, KeyStmt, DekEntry, StoredDek, Keys, put_stored, find_stored, stored_of, set_dek, get_dek,
  in_memory, opened, remember, invalidate_group_deks, if_set,
}
use zt_data_sync.Prelude.{
  ℕ, Bool, true, false, not, ◌&&◌, Option, none, some, List, [], ◌∷◌, ◌==◌, ◌≡◌, refl, filter, sym,
  ap, ◌∙◌, if◌then◌else◌, inl, inr, arith, Bool-cases, Option-cases, ==_iff,
}

abbrev pub first_some : Option (List ℕ) → Option (List ℕ) → Option (List ℕ)
first_some (some dek) o = some dek
first_some none o = o

-- The map that the cache stands for.
abbrev pub view : Ciphers → Keys → ℕ → ℕ → Option (List ℕ)
view c ks gid kv =
    first_some (in_memory kv (lookup gid ks.deks)) (opened c (find_stored gid kv ks.key_cache))

-- What is in memory is stored too.
abbrev pub Coherent : Ciphers → Keys → Type 0
Coherent c ks =
    (gid : ℕ) (e : DekEntry)
    → lookup gid ks.deks ≡ some e
    → opened c (find_stored gid e.key_version ks.key_cache) ≡ some e.dek

-- A sealed key opens again.
abbrev pub Reopens : Ciphers → Type 0
Reopens c = (dek : List ℕ) → opened c (c.marshal_dek dek) ≡ some dek

pub find_stored-put_stored :
    (gid kv g k : ℕ) (enc : List ℕ) (ss : List StoredDek)
    → find_stored g k (put_stored (stored_of gid kv enc) ss)
      ≡ (if (gid == g) && (kv == k) then some enc else find_stored g k ss)
find_stored-put_stored gid kv g k enc [] = ground arith
find_stored-put_stored gid kv g k enc (s ∷ ss) =
    ground (arith, find_stored-put_stored gid kv g k enc ss)

find_stored-filter :
    (gid g k : ℕ) (ss : List StoredDek)
    → find_stored g k (filter (λ (s : StoredDek). not (s.group_id == gid)) ss)
      ≡ (if gid == g then none else find_stored g k ss)
find_stored-filter gid g k [] = ground arith
find_stored-filter gid g k (s ∷ ss) = ground (arith, find_stored-filter gid g k ss)

-- In a coherent cache the stored keys are the map.
view-stored :
    (c : Ciphers) (ks : Keys) (gid kv : ℕ)
    → Coherent c ks
    → view c ks gid kv ≡ opened c (find_stored gid kv ks.key_cache)
view-stored c ks gid kv coherent = elim (Option-cases (lookup gid ks.deks)) [
  | inl gone ↦ ground (arith, gone)
  | inr (e, is) ↦ elim (Bool-cases (e.key_version == kv)) [
    | inr other ↦ ground (arith, is, other)
    | inl same ↦
        let k : e.key_version ≡ kv = (==_iff e.key_version kv).0 same in
        let there = coherent gid e is in
        let there' : opened c (find_stored gid kv ks.key_cache) ≡ some e.dek =
          sym (ap (λ n. opened c (find_stored gid n ks.key_cache)) k) ∙ there in
        rw (is, same, there') refl
  ]
]

-- A write that goes through sets the one key, and keeps the cache coherent.
pub record Sets (c : Ciphers) (gid kv : ℕ) (dek : List ℕ) (before after : Keys) : Type 0 where
  pub coherent : Coherent c after
  pub fails : after.fails ≡ before.fails
  pub sets :
      (g k : ℕ)
      → view c after g k ≡ (if (gid == g) && (kv == k) then some dek else view c before g k)

pub set_dek-runs :
    (c : Ciphers) (gid kv : ℕ) (dek enc : List ℕ) (ks : Keys)
    → ks.fails KeyStmt.put_key ≡ false
    → c.marshal_dek dek ≡ some enc
    → set_dek c gid kv dek ks ≡ (
      true,
      record (remember gid kv dek ks) {
        key_cache = put_stored (stored_of gid kv enc) ks.key_cache;
      },
    )
unfolding set_dek
set_dek-runs c gid kv dek enc ks runs sealed = rw (sealed, runs) refl

stored_after :
    (c : Ciphers) (gid kv g k : ℕ) (dek enc : List ℕ) (ss : List StoredDek)
    → c.unmarshal_dek enc ≡ some dek
    → opened c (find_stored g k (put_stored (stored_of gid kv enc) ss))
      ≡ (if (gid == g) && (kv == k) then some dek else opened c (find_stored g k ss))
stored_after c gid kv g k dek enc ss reopens = elim (Bool-cases ((gid == g) && (kv == k))) [
  | inl same ↦ ground (arith, same, find_stored-put_stored gid kv g k enc ss, reopens)
  | inr other ↦ ground (arith, other, find_stored-put_stored gid kv g k enc ss)
]

set-Coherent :
    (c : Ciphers) (gid kv : ℕ) (dek enc : List ℕ) (ks : Keys)
    → Coherent c ks
    → c.unmarshal_dek enc ≡ some dek
    → Coherent c (record (remember gid kv dek ks) {
      key_cache = put_stored (stored_of gid kv enc) ks.key_cache;
    })
set-Coherent c gid kv dek enc ks coherent reopens g e h =
    let there = stored_after c gid kv g e.key_version dek enc ks.key_cache reopens in
    let law = lookup-put gid g (record { key_version = kv; dek = dek }) ks.deks in
    elim (Bool-cases (gid == g)) [
      | inl same ↦
          let is : record { key_version = kv; dek = dek } ≡ e = ground (arith, h, law, same) in
          ground (arith, there, same, is)
      | inr other ↦
          let before = coherent g e (ground (arith, h, law, other)) in
          ground (arith, there, other, before)
    ]

-- The key of a cipher that reopens what it seals.
sealed-as :
    (c : Ciphers) (dek : List ℕ)
    → opened c (c.marshal_dek dek) ≡ some dek
    → (enc : List ℕ) × (c.marshal_dek dek ≡ some enc) × (c.unmarshal_dek enc ≡ some dek)
sealed-as c dek h = elim (Option-cases (c.marshal_dek dek)) [
  | inl gone ↦ absurd (ground (arith, gone, h))
  | inr (enc, is) ↦ (enc, is, ground (arith, is, h))
]

pub set_dek-Sets :
    (c : Ciphers) (gid kv : ℕ) (dek : List ℕ) (ks : Keys)
    → ((s : KeyStmt) → ks.fails s ≡ false)
    → opened c (c.marshal_dek dek) ≡ some dek
    → Coherent c ks
    → ((set_dek c gid kv dek ks).0 ≡ true) × Sets c gid kv dek ks (set_dek c gid kv dek ks).1
set_dek-Sets c gid kv dek ks runs reopens coherent =
    let (enc, sealed, back) = sealed-as c dek reopens in
    let ran = set_dek-runs c gid kv dek enc ks (runs KeyStmt.put_key) sealed in
    let after : Keys = record (remember gid kv dek ks) {
      key_cache = put_stored (stored_of gid kv enc) ks.key_cache;
    } in
    let kept = set-Coherent c gid kv dek enc ks coherent back in
    rw ran (
      refl,
      record {
        coherent = kept;
        fails = refl;
        sets = λ g k.
            view-stored c after g k kept
            ∙ stored_after c gid kv g k dek enc ks.key_cache back
            ∙ ap (λ o. if (gid == g) && (kv == k) then some dek else o)
                (sym (view-stored c ks g k coherent));
      },
    )

-- A read leaves the map as it is.
pub record Keeps (c : Ciphers) (before after : Keys) : Type 0 where
  pub coherent : Coherent c after
  pub fails : after.fails ≡ before.fails
  pub same : (g k : ℕ) → view c after g k ≡ view c before g k

loaded :
    (c : Ciphers) (gid kv : ℕ) (dek : List ℕ) (ks : Keys) (r : Bool × Keys)
    → r.0 ≡ true
    → Sets c gid kv dek ks r.1
    → view c ks gid kv ≡ some dek
    → ((if_set dek r).0 ≡ some dek) × Keeps c ks (if_set dek r).1
loaded c gid kv dek ks (false, after) done sets known = absurd (ground (arith, done))
loaded c gid kv dek ks (true, after) done sets known = (
  refl,
  record {
    coherent = sets.coherent;
    fails = sets.fails;
    same = λ g k. elim (Bool-cases ((gid == g) && (kv == k))) [
      | inr other ↦ sets.sets g k ∙ ground (arith, other)
      | inl same ↦
          let is_group : gid ≡ g = ground (arith, same) in
          let is_version : kv ≡ k = ground (arith, same) in
          sets.sets g k
          ∙ ap (λ b. if b then some dek else view c ks g k) same
          ∙ sym known
          ∙ ap (λ n. view c ks n kv) is_group
          ∙ ap (view c ks g) is_version
    ];
  },
)

pub get_dek-Keeps :
    (c : Ciphers) (gid kv : ℕ) (ks : Keys)
    → ((s : KeyStmt) → ks.fails s ≡ false)
    → Reopens c
    → Coherent c ks
    → ((get_dek c gid kv ks).0 ≡ view c ks gid kv) × Keeps c ks (get_dek c gid kv ks).1
unfolding get_dek
get_dek-Keeps c gid kv ks runs reopens coherent =
    let self : Keeps c ks ks = record { coherent = coherent; fails = refl; same = λ g k. refl } in
    elim (Option-cases (in_memory kv (lookup gid ks.deks))) [
      | inr (dek, is) ↦ rw is (refl, self)
      | inl gone ↦ elim (Option-cases (opened c (find_stored gid kv ks.key_cache))) [
        | inl missing ↦ rw (gone, runs KeyStmt.get_key, missing) (refl, self)
        | inr (dek, found) ↦
            let (done, sets) = set_dek-Sets c gid kv dek ks runs (reopens dek) coherent in
            let r = set_dek c gid kv dek ks in
            let known =
              ap (λ o. first_some o (opened c (find_stored gid kv ks.key_cache))) gone ∙ found in
            rw (gone, runs KeyStmt.get_key, found) (loaded c gid kv dek ks r done sets known)
      ]
    ]

-- The deletion of a group's keys, where the statement runs.
pub invalidate_group_deks-view :
    (c : Ciphers) (gid g k : ℕ) (ks : Keys)
    → ks.fails KeyStmt.delete_keys ≡ false
    → view c (invalidate_group_deks gid ks) g k ≡ (if gid == g then none else view c ks g k)
unfolding invalidate_group_deks
invalidate_group_deks-view c gid g k ks runs =
    ground (arith, runs, lookup-without gid g ks.deks, find_stored-filter gid g k ks.key_cache)

pub invalidate_group_deks-Coherent :
    (c : Ciphers) (gid : ℕ) (ks : Keys)
    → ks.fails KeyStmt.delete_keys ≡ false
    → Coherent c ks
    → Coherent c (invalidate_group_deks gid ks)
unfolding invalidate_group_deks
invalidate_group_deks-Coherent c gid ks runs coherent g e h = elim (Bool-cases (gid == g)) [
  | inl same ↦ absurd (ground (arith, same, h, runs, lookup-without gid g ks.deks))
  | inr other ↦
      let before = coherent g e (ground (arith, other, h, runs, lookup-without gid g ks.deks)) in
      ground (arith, other, before, runs, find_stored-filter gid g e.key_version ks.key_cache)
]
