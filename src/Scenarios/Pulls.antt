-- ===== src/Scenarios/Pulls.antt =====
-- Pulls and the client's cursor.
use zt_data_sync.Prelude.Int.{pos}
use zt_data_sync.Scenarios.Samples.{base_db, note, grave, base_db-IsWellFormed}
use zt_data_sync.Sync.Pull.Reply.{Source, pull_across-no_gap, pull_across-Source}
use zt_data_sync.Sync.Push.{change_of}
use zt_data_sync.Store.Queries.{
  list_user_groups, get_group_member, pull_changes, sort_by_seq, insert_by_seq, get_user_envelopes,
  list_group_members, get_user_by_id, get_group_envelopes, get_server_seq,
}
use zt_data_sync.Prelude.Elements.{In}
use zt_data_sync.Client.Cursor.{advance, advance_skips, advance_complete}
use zt_data_sync.Sync.Pull.{
  pull_across, requested_groups, new_envelopes, group_states, missing_envelopes, active_of,
  sort_ids, insert_id, lacking,
}
use zt_data_sync.Store.Laws.{IsWellFormed}
use zt_data_sync.Proto.{SyncResponse}
use zt_data_sync.Store.Rows.{Db, Entry, ok}
use zt_data_sync.Prelude.{[], false, inl, refl, ◌≡◌, ◌≤◌, ◌∷◌, arith}

-- The reply to user 7 from the start.
abbrev first_reply : SyncResponse
first_reply = record {
  server_seq = 6;
  changes = change_of note ∷ [];
  key_envelopes = record { group_id = 1; key_version = 1; wrapped_dek = 9 ∷ [] } ∷ [];
  groups =
      record {
        id = 1;
        name = 11;
        key_version = 1;
        pending_rekey = false;
        archived = false;
        missing_envelopes = 8 ∷ [];
        active_members = 7 ∷ 8 ∷ [];
      }
      ∷ [];
}

first_pull : pull_across base_db base_db 7 (pos 0) 0 [] ≡ ok first_reply
unfolding pull_across list_user_groups requested_groups get_group_member pull_changes sort_by_seq
    insert_by_seq get_user_envelopes new_envelopes group_states missing_envelopes list_group_members
    active_of get_user_by_id sort_ids insert_id lacking get_group_envelopes get_server_seq
first_pull = refl

pull_across-Source_example : (e : Entry) × Source base_db 7 (pos 0) (change_of note) e
pull_across-Source_example =
    pull_across-Source base_db base_db 7 (pos 0) 0 [] first_reply (change_of note) first_pull
      (inl refl)

pull_across-no_gap_example : In (change_of note) first_reply.changes
pull_across-no_gap_example =
    pull_across-no_gap base_db base_db 7 (pos 0) 0 [] first_reply note (change_of note)
      base_db-IsWellFormed first_pull (inl refl) refl (omega arith) (inl refl) (omega arith)

advance_complete_example : In (change_of note) first_reply.changes
unfolding advance
advance_complete_example =
    advance_complete base_db base_db 7 0 [] first_reply note base_db-IsWellFormed first_pull
      (inl (omega arith)) (inl refl) refl (omega arith) note_passed
  where
    note_passed : 5 ≤ advance 0 first_reply
    note_passed = ground arith

-- The database after user 8's edit.
abbrev later_db : Db
later_db = record base_db { seq = 7; entries = record note { seq = 7 } ∷ grave ∷ [] }

later_db-IsWellFormed : IsWellFormed later_db
later_db-IsWellFormed = record {
  below = omega arith;
  distinct_seqs = ((omega arith, tt), (tt, tt));
  distinct_ids = ((omega arith, tt), (tt, tt));
}

-- The reply to user 7 from cursor 6, when the edit comes between the two reads.
abbrev late_reply : SyncResponse
late_reply = record first_reply { server_seq = 7; changes = []; key_envelopes = [] }

late_pull : pull_across base_db later_db 7 (pos 6) 0 ((1, 1) ∷ []) ≡ ok late_reply
unfolding pull_across list_user_groups requested_groups get_group_member pull_changes sort_by_seq
    insert_by_seq get_user_envelopes new_envelopes group_states missing_envelopes list_group_members
    active_of get_user_by_id sort_ids insert_id lacking get_group_envelopes get_server_seq
late_pull = refl

advance_skips_example :
    (7 ≤ advance 6 late_reply) × ¬ (In (change_of (record note { seq = 7 })) late_reply.changes)
unfolding sort_by_seq
advance_skips_example =
    advance_skips base_db later_db 7 6 ((1, 1) ∷ []) late_reply (record note { seq = 7 })
      later_db-IsWellFormed late_pull tt (inl refl) refl (omega arith)
