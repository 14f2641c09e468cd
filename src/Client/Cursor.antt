-- ===== src/Client/Cursor.antt =====
-- client/core/syncer/engine.go: the cursor that `syncOnce` keeps between two pulls (step 6), and
-- what it may leave out.
use zt_data_sync.Sync.Push.{change_of}
use zt_data_sync.Prelude.Int.{pos}
use zt_data_sync.Sync.Pull.{pull_limit, pull_across, in_groups, own_changes}
use zt_data_sync.Prelude.Elements.{In, All-In}
use zt_data_sync.Store.Laws.{IsWellFormed}
use zt_data_sync.Sync.Pull.Reply.{
  newer, groups_of, page, pull_across-short, pull_across-Replies, pull_across-no_gap,
}
use zt_data_sync.Proto.{SyncResponse, Change}
use zt_data_sync.Store.Rows.{Db, Group, Entry, ok}
use zt_data_sync.Prelude.{
  ℕ, [], some, none, true, false, inl, inr, refl, if◌then◌else◌, ◌≡◌, ◌≤◌, ◌<◌, ◌⊎◌, ◌∙◌, ◌∷◌, List,
  ltb, length, All, Option, arith,
}

abbrev pub last_change : List Change → Option Change
last_change [] = none
last_change (c ∷ []) = some c
last_change (c ∷ d ∷ cs) = last_change (d ∷ cs)

-- The last change's number if that is below the server's, and the server's otherwise.
unfoldable pub new_last : SyncResponse → ℕ
new_last r = elim (last_change r.changes) [
  | none ↦ r.server_seq
  | some c ↦ if ltb c.seq r.server_seq then c.seq else r.server_seq
]

-- `last_seq` only moves forward.
unfoldable pub advance : ℕ → SyncResponse → ℕ
unfolding new_last
advance last r = if ltb last (new_last r) then new_last r else last

In-last_change : (cs : List Change) (c : Change) → last_change cs ≡ some c → In c cs
In-last_change [] c h = absurd (ground (arith, h))
In-last_change (d ∷ []) c h = inl (ground (arith, h))
In-last_change (d ∷ x ∷ cs) c h = inr (In-last_change (x ∷ cs) c h)

-- The two ways in which a reply covers all that the cursor passes over.
abbrev pub Covers : Db → ℕ → SyncResponse → Type 0
Covers db last r =
    (length (newer db last) ≤ pull_limit)
    ⊎ ((c : Change) × (last_change r.changes ≡ some c) × (c.seq < r.server_seq))

-- The cursor passes over no stored entry of the user's groups that the reply does not carry: if at
-- most a page of entries is above the old cursor, or the reply has a change whose number is below
-- the server's.
pub advance_complete :
    (db later : Db) (user_id last : ℕ) (kvs : List (ℕ × ℕ)) (r : SyncResponse) (e : Entry)
    → IsWellFormed db
    → pull_across db later user_id (pos last) 0 kvs ≡ ok r
    → Covers db last r
    → In e db.entries
    → in_groups (groups_of db user_id) e ≡ true
    → last < e.seq
    → e.seq ≤ advance last r
    → In (change_of e) r.changes
unfolding advance
advance_complete db later user_id last kvs r e w h (inl short) m own above le =
    pull_across-short db later user_id (pos last) 0 kvs r e h short m own above
advance_complete db later user_id last kvs r e w h (inr (c, is_last, less)) m own above le =
    pull_across-no_gap db later user_id (pos last) 0 kvs r e c w h m own above
      (In-last_change r.changes c is_last) (ground (arith, is_last, less, above, le))

none_own :
    (gs : List Group) (es : List Entry)
    → All (λ x. in_groups gs x ≡ false) es
    → own_changes gs es ≡ []
none_own gs [] a = refl
none_own gs (x ∷ xs) a = ground (arith, none_own gs xs a.1, a.0)

-- Where the page holds no entry of the user's groups, the cursor jumps to the server's counter,
-- and passes over every entry below it though the reply carries none: so for a page full of other
-- groups' entries, and for an entry that is written between the two reads of the pull.
pub advance_skips :
    (db later : Db) (user_id last : ℕ) (kvs : List (ℕ × ℕ)) (r : SyncResponse) (e : Entry)
    → IsWellFormed later
    → pull_across db later user_id (pos last) 0 kvs ≡ ok r
    → All (λ x. in_groups (groups_of db user_id) x ≡ false) (page db (pos last))
    → In e later.entries
    → in_groups (groups_of later user_id) e ≡ true
    → last < e.seq
    → (e.seq ≤ advance last r) × ¬ (In (change_of e) r.changes)
unfolding advance
advance_skips db later user_id last kvs r e w h foreign m own above =
    let rep = pull_across-Replies db later user_id (pos last) 0 kvs r h in
    let nothing : r.changes ≡ [] = rep.changes ∙ none_own (groups_of db user_id) _ foreign in
    let bound = All-In (λ x. x.seq ≤ later.seq) e later.entries w.below m in
    (ground (arith, rep.server_seq, nothing, bound, above), rw nothing (λ k. k))
