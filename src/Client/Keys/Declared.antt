-- ===== src/Client/Keys/Declared.antt =====
-- client/core/syncer/engine.go: the versions that `localKeyVersions` declares.
use zt_data_sync.Prelude.Assoc.{lookup, lookup-put}
use zt_data_sync.Client.Keys.{StoredDek, find_stored, is_at, max_versions, higher}
use zt_data_sync.Prelude.{
  ℕ, Option, none, some, List, [], ◌∷◌, ◌==◌, ◌≡◌, ◌≤◌, inl, inr, arith, Bool-cases,
}

higher-le : (kv : ℕ) (o : Option ℕ) → kv ≤ higher kv o
higher-le kv none = ground arith
higher-le kv (some n) = ground arith

higher-le_rest : (kv n : ℕ) → n ≤ higher kv (some n)
higher-le_rest kv n = ground arith

pub max_versions-bound :
    (gid kv : ℕ) (enc : List ℕ) (ss : List StoredDek)
    → find_stored gid kv ss ≡ some enc
    → (m : ℕ) × (lookup gid (max_versions ss) ≡ some m) × (kv ≤ m)
unfolding max_versions
max_versions-bound gid kv enc [] h = absurd (ground (arith, h))
max_versions-bound gid kv enc (s ∷ ss) h =
    let rest = max_versions ss in
    let law = lookup-put s.group_id gid (higher s.key_version (lookup s.group_id rest)) rest in
    elim (Bool-cases (is_at gid kv s)) [
      | inl this ↦ (
        higher s.key_version (lookup s.group_id rest),
        ground (arith, law, this),
        ground (arith, this, higher-le s.key_version (lookup s.group_id rest)),
      )
      | inr other ↦
          let (m, found, le) = max_versions-bound gid kv enc ss (ground (arith, h, other)) in
          elim (Bool-cases (s.group_id == gid)) [
            | inl same ↦ (
              higher s.key_version (some m),
              ground (arith, law, same, found),
              ground (arith, le, higher-le_rest s.key_version m),
            )
            | inr apart ↦ (m, ground (arith, law, apart, found), le)
          ]
    ]
