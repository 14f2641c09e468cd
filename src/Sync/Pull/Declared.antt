-- ===== src/Sync/Pull/Declared.antt =====
-- server/sync/pull.go: the envelopes that a pull leaves out for the key versions that the client
-- declares.
use zt_data_sync.Prelude.Int.{ℤ}
use zt_data_sync.Proto.{KeyEnvelopeInfo, SyncResponse}
use zt_data_sync.Store.Rows.{Db, Envelope, ok}
use zt_data_sync.Sync.Pull.{declared, is_newer, new_envelopes, pull_across}
use zt_data_sync.Sync.Pull.Reply.{pull_across-Replies}
use zt_data_sync.Prelude.{
  ℕ, true, some, List, [], ◌∷◌, ◌==◌, ◌≡◌, ◌<◌, ◌≤◌, All, filter, ap, arith, inl, inr, Bool-cases,
}

abbrev pub Above : ℕ → ℕ → KeyEnvelopeInfo → Type 0
Above g n e = e.group_id ≡ g → n < e.key_version

above :
    (g k n : ℕ) (kvs : List (ℕ × ℕ)) (e : Envelope)
    → declared g kvs ≡ some n
    → k ≤ n
    → is_newer e.key_version (declared e.group_id kvs) ≡ true
    → e.group_id ≡ g
    → k < e.key_version
above g k n kvs e d le newer same = ground (
  arith,
  le,
  newer,
  ap (λ x. is_newer e.key_version (declared x kvs)) same,
  ap (is_newer e.key_version) d,
)

new_envelopes-Above :
    (g k n : ℕ) (kvs : List (ℕ × ℕ)) (es : List Envelope)
    → declared g kvs ≡ some n
    → k ≤ n
    → All (Above g k) (new_envelopes 0 kvs es)
unfolding new_envelopes
new_envelopes-Above g k n kvs [] d le = tt
new_envelopes-Above g k n kvs (e ∷ es) d le =
    elim (Bool-cases (is_newer e.key_version (declared e.group_id kvs))) [
      | inl newer ↦
          rw newer
            (λ same. above g k n kvs e d le newer same, new_envelopes-Above g k n kvs es d le)
      | inr older ↦ rw older (new_envelopes-Above g k n kvs es d le)
    ]

-- No envelope at or below a declared version is sent.
pub pull_across-Above :
    (db later : Db) (user_id : ℕ) (since : ℤ) (kvs : List (ℕ × ℕ)) (r : SyncResponse) (g k n : ℕ)
    → declared g kvs ≡ some n
    → k ≤ n
    → pull_across db later user_id since 0 kvs ≡ ok r
    → All (Above g k) r.key_envelopes
pull_across-Above db later user_id since kvs r g k n d le h =
    rw ((pull_across-Replies db later user_id since 0 kvs r h).envelopes)
      (new_envelopes-Above g k n kvs (filter (λ e. e.user_id == user_id) db.envelopes) d le)
