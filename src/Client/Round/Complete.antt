-- ===== src/Client/Round/Complete.antt =====
-- client/core/syncer/engine.go with server/sync/pull.go: what a round of `syncOnce` has done when
-- its cursor has moved.
use zt_data_sync.Prelude.Int.{pos}
use zt_data_sync.Prelude.Elements.{In}
use zt_data_sync.Proto.{SyncResponse}
use zt_data_sync.Store.Rows.{Db, Entry, Result, ok, err}
use zt_data_sync.Store.Laws.{IsWellFormed}
use zt_data_sync.Sync.Failure.{Failure}
use zt_data_sync.Sync.Push.{change_of}
use zt_data_sync.Sync.Pull.{pull, pull_limit, in_groups}
use zt_data_sync.Sync.Pull.Reply.{newer, groups_of}
use zt_data_sync.Client.Keys.{local_key_versions}
use zt_data_sync.Client.Cursor.{new_last, advance, advance_complete}
use zt_data_sync.Client.Session.{ServerClient, Tools, World, CursorStmt, and_next}
use zt_data_sync.Client.Served.{api_of, to_option}
use zt_data_sync.Client.Round.{sync_once, process, process_reply, keep_cursor}
use zt_data_sync.Client.Round.Still.{process-Still}
use zt_data_sync.Prelude.{
  ℕ, Bool, true, false, Option, none, some, ◌≡◌, ◌≤◌, ◌<◌, ◌⊎◌, length, ltb, refl, ap, ◌∙◌, arith,
  inl, inr, Bool-cases,
}

module _ {S : Type 0} (api : ServerClient S) (t : Tools) (now : ℕ) where
  -- The round of a reply `r` ran to its end and moved the cursor.
  pub record Moved (last : ℕ) (w : World S) (a : Option SyncResponse × S) (res : Bool × World S)
      : Type 0 where
    pub reply : SyncResponse
    pub replied : a.0 ≡ some reply
    pub processed : (process api t now reply (record w { server = a.1 })).0 ≡ true
    pub done : res.0 ≡ true
    pub moved : res.1.last_seq ≡ new_last reply
    pub ahead : last < new_last reply

  keep_cursor-cases :
      (last : ℕ) (r : SyncResponse) (w : World S)
      → ((keep_cursor api t now last r w).1.last_seq ≡ w.last_seq)
        ⊎ (((keep_cursor api t now last r w).0 ≡ true)
            × ((keep_cursor api t now last r w).1.last_seq ≡ new_last r)
            × (last < new_last r))
  keep_cursor-cases last r w = elim (Bool-cases (ltb last (new_last r))) [
    | inr same ↦ inl (ground (arith, same))
    | inl ahead ↦ elim (Bool-cases (w.fails CursorStmt.set_last_seq)) [
      | inl failed ↦ inl (ground (arith, ahead, failed))
      | inr ran ↦ inr (ground (arith, ahead, ran))
    ]
  ]

  after_process :
      (last : ℕ) (w : World S) (r : SyncResponse) (s : S) (p : Bool × World S)
      → process api t now r (record w { server = s }) ≡ p
      → p.1.last_seq ≡ w.last_seq
      → ((and_next p (keep_cursor api t now last r)).1.last_seq ≡ w.last_seq)
        ⊎ Moved last w (some r, s) (and_next p (keep_cursor api t now last r))
  after_process last w r s (false, v) is still = inl still
  after_process last w r s (true, v) is still = elim (keep_cursor-cases last r v) [
    | inl same ↦ inl (same ∙ still)
    | inr (done, moved, ahead) ↦ inr (record {
      reply = r;
      replied = refl;
      processed = ap (λ q. q.0) is;
      done = done;
      moved = moved;
      ahead = ahead;
    })
  ]

  process_reply-cases :
      (last : ℕ) (w : World S) (a : Option SyncResponse × S)
      → ((process_reply api t now last w a).1.last_seq ≡ w.last_seq)
        ⊎ Moved last w a (process_reply api t now last w a)
  process_reply-cases last w (none, s) = inl refl
  process_reply-cases last w (some r, s) =
      after_process last w r s (process api t now r (record w { server = s })) refl
        (process-Still api t now r (record w { server = s }))

  -- A round that fails, or that has nothing new, keeps the cursor; one that moves it has run every
  -- step of its reply, and the cursor is the one that the reply allows.
  sync_once-cases :
      (w : World S)
      → w.fails CursorStmt.get_last_seq ≡ false
      → ((sync_once api t now w).1.last_seq ≡ w.last_seq)
        ⊎ Moved w.last_seq w
            (api.pull w.last_seq (local_key_versions w.keys) w.server)
            (sync_once api t now w)
  unfolding sync_once
  sync_once-cases w runs =
      simp runs (
        process_reply-cases w.last_seq w (api.pull w.last_seq (local_key_versions w.keys) w.server))

pulled : (o : Result Failure SyncResponse) (r : SyncResponse) → to_option o ≡ some r → o ≡ ok r
pulled (ok q) r h = ground (arith, h)
pulled (err e) r h = absurd (ground (arith, h))

-- A round of `syncOnce` whose cursor passes over a stored entry of the user's groups, where at most
-- a page of entries is above the old cursor: the round ended without an error, the pull's reply
-- carried that entry's version, and every step of the round ran on that reply.
pub sync_once_complete :
    (t : Tools) (now user_id device_id : ℕ) (w : World Db) (e : Entry)
    → w.fails CursorStmt.get_last_seq ≡ false
    → IsWellFormed w.server
    → length (newer w.server w.last_seq) ≤ pull_limit
    → In e w.server.entries
    → in_groups (groups_of w.server user_id) e ≡ true
    → w.last_seq < e.seq
    → e.seq ≤ (sync_once (api_of user_id device_id now) t now w).1.last_seq
    → ((sync_once (api_of user_id device_id now) t now w).0 ≡ true)
      × (r : SyncResponse) × (pull w.server user_id (pos w.last_seq) 0 (local_key_versions w.keys)
          ≡ ok r)
      × In (change_of e) r.changes
      × ((process (api_of user_id device_id now) t now r w).0 ≡ true)
unfolding api_of pull advance
sync_once_complete t now user_id device_id w e runs well short m own above passed =
    elim (sync_once-cases (api_of user_id device_id now) t now w runs) [
      | inl same ↦ absurd (ground (arith, same, above, passed))
      | inr n ↦
          let is =
            pulled (pull w.server user_id (pos w.last_seq) 0 (local_key_versions w.keys)) n.reply
              n.replied in
          (
            n.done,
            n.reply,
            is,
            advance_complete w.server w.server user_id w.last_seq (local_key_versions w.keys)
                n.reply e well is (inl short) m own above
                (ground (arith, n.ahead, n.moved, passed)),
            n.processed,
          )
    ]
