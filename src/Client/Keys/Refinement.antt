-- ===== src/Client/Keys/Refinement.antt =====
-- client/core/vault/dekcache.go: the cache against a map that is written to and read.
use mathlib.Core.Path.{ap₂}
use zt_data_sync.Client.Keys.{
  Ciphers, KeyStmt, Keys, set_dek, get_dek, unwrap_dek, load, if_set, invalidate_group_deks,
}
use zt_data_sync.Client.Keys.View.{
  view, Coherent, Reopens, Sets, set_dek-Sets, get_dek-Keeps, invalidate_group_deks-view,
  invalidate_group_deks-Coherent,
}
use zt_data_sync.Prelude.{
  ℕ, Bool, true, false, ◌&&◌, Option, none, some, List, [], ◌∷◌, ◌==◌, ◌≡◌, refl, ap, ◌∙◌,
  if◌then◌else◌, arith,
}

pub data KeyCall : Type 0 where
  set : ℕ → ℕ → List ℕ → KeyCall
  get : ℕ → ℕ → KeyCall
  unwrap : ℕ → ℕ → List ℕ → KeyCall
  invalidate : ℕ → KeyCall

abbrev pub answered : List ℕ → Bool → Option (List ℕ)
answered dek true = some dek
answered dek false = none

abbrev pub call : Ciphers → KeyCall → Keys → Option (List ℕ) × Keys
call c (set gid kv dek) ks = let r = set_dek c gid kv dek ks in (answered dek r.0, r.1)
call c (get gid kv) ks = get_dek c gid kv ks
call c (unwrap gid kv wrapped) ks = unwrap_dek c gid kv wrapped ks
call c (invalidate gid) ks = (none, invalidate_group_deks gid ks)

-- The answers of a sequence of calls.
unfoldable pub answers : Ciphers → List KeyCall → Keys → List (Option (List ℕ))
answers c [] ks = []
answers c (x ∷ xs) ks = let r = call c x ks in r.0 ∷ answers c xs r.1

-- The same calls on a map.
abbrev pub KeyMap : Type 0
KeyMap = ℕ → ℕ → Option (List ℕ)

abbrev pub updated : ℕ → ℕ → List ℕ → KeyMap → KeyMap
updated gid kv dek m g k = if (gid == g) && (kv == k) then some dek else m g k

abbrev pub map_unwrap : ℕ → ℕ → Option (List ℕ) → KeyMap → Option (List ℕ) × KeyMap
map_unwrap gid kv none m = (none, m)
map_unwrap gid kv (some dek) m = (some dek, updated gid kv dek m)

abbrev pub map_call : Ciphers → KeyCall → KeyMap → Option (List ℕ) × KeyMap
map_call c (set gid kv dek) m = (some dek, updated gid kv dek m)
map_call c (get gid kv) m = (m gid kv, m)
map_call c (unwrap gid kv wrapped) m = map_unwrap gid kv (c.open_envelope wrapped) m
map_call c (invalidate gid) m = (none, λ g k. if gid == g then none else m g k)

unfoldable pub map_answers : Ciphers → List KeyCall → KeyMap → List (Option (List ℕ))
map_answers c [] m = []
map_answers c (x ∷ xs) m = let r = map_call c x m in r.0 ∷ map_answers c xs r.1

-- The cache stands for the map.
record Stands (c : Ciphers) (ks : Keys) (m : KeyMap) : Type 0 where
  coherent : Coherent c ks
  runs : (s : KeyStmt) → ks.fails s ≡ false
  same : (g k : ℕ) → view c ks g k ≡ m g k

after_set :
    (c : Ciphers) (gid kv : ℕ) (dek : List ℕ) (ks ks' : Keys) (m : KeyMap)
    → Stands c ks m
    → Sets c gid kv dek ks ks'
    → Stands c ks' (updated gid kv dek m)
after_set c gid kv dek ks ks' m h sets = record {
  coherent = sets.coherent;
  runs = λ s. ap (λ (f : KeyStmt → Bool). f s) sets.fails ∙ h.runs s;
  same =
      λ g k. sets.sets g k ∙ ap (λ o. if (gid == g) && (kv == k) then some dek else o) (h.same g k);
}

set_answer :
    (c : Ciphers) (gid kv : ℕ) (dek : List ℕ) (m : KeyMap) (r : Bool × Keys)
    → r.0 ≡ true
    → Stands c r.1 (updated gid kv dek m)
    → ((if_set dek r).0 ≡ some dek) × Stands c (if_set dek r).1 (updated gid kv dek m)
set_answer c gid kv dek m (false, ks) done h = absurd (ground (arith, done))
set_answer c gid kv dek m (true, ks) done h = (refl, h)

loads :
    (c : Ciphers) (gid kv : ℕ) (found : Option (List ℕ)) (ks : Keys) (m : KeyMap)
    → Reopens c
    → Stands c ks m
    → ((load c gid kv found ks).0 ≡ (map_unwrap gid kv found m).0)
      × Stands c (load c gid kv found ks).1 (map_unwrap gid kv found m).1
loads c gid kv none ks m reopens h = (refl, h)
loads c gid kv (some dek) ks m reopens h =
    let (done, sets) = set_dek-Sets c gid kv dek ks h.runs (reopens dek) h.coherent in
    set_answer c gid kv dek m (set_dek c gid kv dek ks) done (after_set c gid kv dek ks _ m h sets)

invalidate-runs :
    (gid : ℕ) (ks : Keys) (s : KeyStmt)
    → ((s : KeyStmt) → ks.fails s ≡ false)
    → (invalidate_group_deks gid ks).fails s ≡ false
unfolding invalidate_group_deks
invalidate-runs gid ks s runs = ground (arith, runs KeyStmt.delete_keys, runs s)

call-Stands :
    (c : Ciphers) (x : KeyCall) (ks : Keys) (m : KeyMap)
    → Reopens c
    → Stands c ks m
    → ((call c x ks).0 ≡ (map_call c x m).0) × Stands c (call c x ks).1 (map_call c x m).1
unfolding unwrap_dek
call-Stands c (set gid kv dek) ks m reopens h =
    let (done, sets) = set_dek-Sets c gid kv dek ks h.runs (reopens dek) h.coherent in
    (ap (answered dek) done, after_set c gid kv dek ks _ m h sets)
call-Stands c (get gid kv) ks m reopens h =
    let (answer, keeps) = get_dek-Keeps c gid kv ks h.runs reopens h.coherent in
    (
      answer ∙ h.same gid kv,
      record {
        coherent = keeps.coherent;
        runs = λ s. ap (λ (f : KeyStmt → Bool). f s) keeps.fails ∙ h.runs s;
        same = λ g k. keeps.same g k ∙ h.same g k;
      },
    )
call-Stands c (unwrap gid kv wrapped) ks m reopens h =
    loads c gid kv (c.open_envelope wrapped) ks m reopens h
call-Stands c (invalidate gid) ks m reopens h = (
  refl,
  record {
    coherent = invalidate_group_deks-Coherent c gid ks (h.runs KeyStmt.delete_keys) h.coherent;
    runs = λ s. invalidate-runs gid ks s h.runs;
    same = λ g k.
        invalidate_group_deks-view c gid g k ks (h.runs KeyStmt.delete_keys)
        ∙ ap (λ o. if gid == g then none else o) (h.same g k);
  },
)

answers-Stands :
    (c : Ciphers) (xs : List KeyCall) (ks : Keys) (m : KeyMap)
    → Reopens c
    → Stands c ks m
    → answers c xs ks ≡ map_answers c xs m
unfolding answers map_answers
answers-Stands c [] ks m reopens h = refl
answers-Stands c (x ∷ xs) ks m reopens h =
    let (answer, after) = call-Stands c x ks m reopens h in
    ap₂ (λ a (rest : List (Option (List ℕ))). a ∷ rest) answer
      (answers-Stands c xs (call c x ks).1 (map_call c x m).1 reopens after)

-- Where each key that is in memory is stored too, the ciphers open what they sealed and every
-- statement runs, the cache answers each sequence of its calls as one map from a group and a key
-- version to a key does: which key of a group is in memory, and that reads put others there, is not
-- seen.
pub answers-map_answers :
    (c : Ciphers) (xs : List KeyCall) (ks : Keys)
    → ((s : KeyStmt) → ks.fails s ≡ false)
    → Reopens c
    → Coherent c ks
    → answers c xs ks ≡ map_answers c xs (view c ks)
answers-map_answers c xs ks runs reopens coherent =
    answers-Stands c xs ks (view c ks) reopens
      (record { coherent = coherent; runs = runs; same = λ g k. refl })
