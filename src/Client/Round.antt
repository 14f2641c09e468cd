-- ===== src/Client/Round.antt =====
-- client/core/syncer/engine.go: one round of the engine, in `syncOnce`, `applyEnvelopes`,
-- `applyGroups` and `pullGroupFull`. A second round while one runs returns at once and is not shown,
-- nor the phase and the status for the user interface, nor the refresh of a token.
pub mod Still
pub mod Complete
use zt_data_sync.Proto.{GroupState, KeyEnvelopeInfo, SyncResponse}
use zt_data_sync.Client.Local.{LocalStmt, GroupRow, set_group_state, get_group_state}
use zt_data_sync.Client.Engine.{apply_changes}
use zt_data_sync.Client.Outbox.{flush_pending_entries}
use zt_data_sync.Client.Keys.{Ciphers, Keys, unwrap_dek, local_key_versions}
use zt_data_sync.Client.Cursor.{new_last}
use zt_data_sync.Client.Session.{ServerClient, Tools, World, CursorStmt, and_next, on_local}
use zt_data_sync.Client.Sharing.{auto_wrap}
use zt_data_sync.Client.Rekey.{push_out, auto_rekey}
use zt_data_sync.Prelude.{
  ℕ, Bool, true, false, not, Option, none, some, List, [], ◌∷◌, ◌==◌, ◌&&◌, if◌then◌else◌, ltb,
}

-- The first envelope that does not open, or whose key is not kept, ends it.
unfoldable pub apply_envelopes : Ciphers → List KeyEnvelopeInfo → Keys → Bool × Keys
apply_envelopes c [] ks = (true, ks)
apply_envelopes c (e ∷ es) ks =
    let r = unwrap_dek c e.group_id e.key_version e.wrapped_dek ks in
    let rest = apply_envelopes c es r.1 in elim r.0 [ none ↦ (false, r.1) | some dek ↦ rest ]

abbrev pub unarchived : Option GroupRow → Bool
unarchived none = false
unarchived (some gs) = gs.archived

abbrev pub never_pulled : Option GroupRow → Bool
never_pulled none = true
never_pulled (some gs) = gs.initialized_at == 0

abbrev pub group_row : ℕ → GroupState → GroupRow
group_row now g = record {
  name = g.name;
  archived = g.archived;
  key_version = g.key_version;
  initialized_at = now;
}

abbrev pub or_skip : {S : Type 0} → Bool → (World S → Bool × World S) → World S → Bool × World S
or_skip true f w = f w
or_skip false f w = (true, w)

abbrev pub has_missing : GroupState → Bool
has_missing g = elim g.missing_envelopes [ [] ↦ false | x ∷ xs ↦ true ]

module _ {S : Type 0} (api : ServerClient S) (t : Tools) (now : ℕ) where
  abbrev pub take_envelopes : List KeyEnvelopeInfo → World S → Bool × World S
  take_envelopes es w =
      let r = apply_envelopes t.ciphers es w.keys in (r.0, record w { keys = r.1 })

  abbrev pub take_changes : SyncResponse → World S → Bool × World S
  take_changes r w = on_local (apply_changes (t.vault_at w.keys) now r.changes) w

  abbrev pub take_full : World S → Option SyncResponse × S → Bool × World S
  take_full w (none, s) = (false, record w { server = s })
  take_full w (some r, s) =
      and_next (take_envelopes r.key_envelopes (record w { server = s })) (take_changes r)

  -- The request names the group only among the declared key versions.
  unfoldable pub pull_group_full : ℕ → World S → Bool × World S
  pull_group_full gid w = take_full w (api.pull 0 ((gid, 0) ∷ []) w.server)

  abbrev pub collaborate : GroupState → World S → Bool × World S
  collaborate g w =
      if g.archived
      then (true, w)
      else and_next (or_skip (has_missing g) (auto_wrap api t g) w)
          (or_skip g.pending_rekey (auto_rekey api t now g))

  abbrev pub record_group : GroupState → World S → Bool × World S
  record_group g w = and_next (on_local (set_group_state g.id (group_row now g)) w) (collaborate g)

  abbrev pub enter_group : GroupState → Option GroupRow → World S → Bool × World S
  enter_group g gs w =
      and_next
        (and_next (or_skip (unarchived gs && not g.archived) (pull_group_full g.id) w)
          (or_skip (never_pulled gs && not g.archived) (pull_group_full g.id)))
        (record_group g)

  -- One group; a row that cannot be read ends the round.
  unfoldable pub apply_group : GroupState → World S → Bool × World S
  apply_group g w =
      if w.engine.local.fails LocalStmt.get_group_row
      then (false, w)
      else enter_group g (get_group_state w.engine.local g.id) w

  unfoldable pub apply_groups : List GroupState → World S → Bool × World S
  apply_groups [] w = (true, w)
  apply_groups (g ∷ gs) w = and_next (apply_group g w) (apply_groups gs)

  -- The number that step 6 keeps, if it is a later one.
  abbrev pub keep_cursor : ℕ → SyncResponse → World S → Bool × World S
  keep_cursor last r w =
      if not (ltb last (new_last r))
      then (true, w)
      else if w.fails CursorStmt.set_last_seq
      then (false, w)
      else (true, record w { last_seq = new_last r })

  abbrev pub flush : World S → Bool × World S
  flush w = on_local (flush_pending_entries (t.vault_at w.keys) now) w

  -- Steps 2 to 5.
  unfoldable pub process : SyncResponse → World S → Bool × World S
  process r w =
      and_next
        (and_next
          (and_next (and_next (take_envelopes r.key_envelopes w) (apply_groups r.groups)) flush)
          (take_changes r))
        (push_out api t now)

  abbrev pub process_reply : ℕ → World S → Option SyncResponse × S → Bool × World S
  process_reply last w (none, s) = (false, record w { server = s })
  process_reply last w (some r, s) =
      and_next (process r (record w { server = s })) (keep_cursor last r)

  -- A cursor that cannot be read counts as 0.
  abbrev pub cursor : World S → ℕ
  cursor w = if w.fails CursorStmt.get_last_seq then 0 else w.last_seq

  unfoldable pub sync_once : World S → Bool × World S
  sync_once w =
      process_reply (cursor w) w (api.pull (cursor w) (local_key_versions w.keys) w.server)
