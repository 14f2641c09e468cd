-- ===== src/Client/Round/Still.antt =====
-- client/core/syncer: the steps of a round leave the cursor of the pulls alone.
use zt_data_sync.Proto.{GroupState, SyncResponse, EnvelopeUpload, Mutation, PushResult}
use zt_data_sync.Client.Local.{
  LocalStmt, LocalEntry, GroupRow, set_group_state, get_group_state, list_dirty_entries,
}
use zt_data_sync.Client.Outbox.{outgoing}
use zt_data_sync.Client.Keys.{Keys, get_dek, set_dek, has_any_dek}
use zt_data_sync.Client.Session.{
  ServerClient, Tools, World, and_next, on_local, wrap_for_all, by_id,
}
use zt_data_sync.Client.Sharing.{
  auto_wrap, upload, share, share_if_set, start_group, share_or_start, wrap_with,
}
use zt_data_sync.Client.Rekey.{
  push_out, push_listed, push_mutations, apply_answer, reencrypt_group_entries, if_uploaded,
  upload_set, wrap_for_members, if_cached, rekey_with, if_held, auto_rekey, hold, reencrypt_rows,
}
use zt_data_sync.Client.Round.{
  apply_group, apply_groups, collaborate, record_group, enter_group, pull_group_full, take_full,
  take_envelopes, take_changes, flush, process, or_skip, has_missing, group_row, unarchived,
  never_pulled,
}
use zt_data_sync.Prelude.{
  ℕ, Bool, true, false, not, ◌&&◌, Option, none, some, List, [], ◌∷◌, if◌then◌else◌, ◌+◌, ◌≡◌, refl,
  ◌∙◌, inl, inr, Bool-cases,
}

module _ {S : Type 0} where
  abbrev pub Still : (World S → Bool × World S) → Type 0
  Still f = (w : World S) → (f w).1.last_seq ≡ w.last_seq

  pub and_next-Still :
      (r : Bool × World S) (f : World S → Bool × World S) (n : ℕ)
      → r.1.last_seq ≡ n
      → Still f
      → (and_next r f).1.last_seq ≡ n
  and_next-Still (true, w) f n h s = s w ∙ h
  and_next-Still (false, w) f n h s = h

  then-Still : (f g : World S → Bool × World S) → Still f → Still g → Still (λ w. and_next (f w) g)
  then-Still f g sf sg w = and_next-Still (f w) g w.last_seq (sf w) sg

  unless-Still :
      (b : Bool) (f : World S → Bool × World S)
      → Still f
      → Still (λ w. if b then (true, w) else f w)
  unless-Still true f s w = refl
  unless-Still false f s w = s w

  or_skip-Still : (b : Bool) (f : World S → Bool × World S) → Still f → Still (or_skip b f)
  or_skip-Still true f s w = s w
  or_skip-Still false f s w = refl

module _ {S : Type 0} (api : ServerClient S) (t : Tools) where
  upload-Still :
      (g : GroupState) (kv : ℕ) (o : Option (List EnvelopeUpload)) → Still (upload api t g kv o)
  upload-Still g kv none w = refl
  upload-Still g kv (some []) w = refl
  upload-Still g kv (some (x ∷ xs)) w = refl

  share-Still :
      (g : GroupState) (users : List (ℕ × ℕ)) (dek : List ℕ) → Still (share api t g users dek)
  share-Still g users dek w =
      upload-Still g g.key_version (wrap_for_all t.ciphers (by_id [] users) dek g.missing_envelopes)
        w

  share_if_set-Still :
      (g : GroupState) (users : List (ℕ × ℕ)) (dek : List ℕ) (r : Bool × Keys)
      → Still (λ w. share_if_set api t g users dek w r)
  share_if_set-Still g users dek (false, ks) w = refl
  share_if_set-Still g users dek (true, ks) w = share-Still g users dek (record w { keys = ks })

  start_group-Still :
      (g : GroupState) (users : List (ℕ × ℕ)) (o : Option (List ℕ))
      → Still (λ w. start_group api t g users w o)
  start_group-Still g users none w = refl
  start_group-Still g users (some dek) w =
      share_if_set-Still g users dek (set_dek t.ciphers g.id g.key_version dek w.keys) w

  share_or_start-Still :
      (g : GroupState) (users : List (ℕ × ℕ)) (o : Option (List ℕ)) (known : Bool)
      → Still (λ w. share_or_start api t g users w o known)
  share_or_start-Still g users (some dek) known w = share-Still g users dek w
  share_or_start-Still g users none true w = refl
  share_or_start-Still g users none false w = start_group-Still g users t.ciphers.new_dek w

  wrap_with-Still :
      (g : GroupState) (o : Option (List (ℕ × ℕ))) → Still (λ w. wrap_with api t g w o)
  wrap_with-Still g none w = refl
  wrap_with-Still g (some users) w =
      let r = get_dek t.ciphers g.id g.key_version w.keys in
      share_or_start-Still g users r.0 (has_any_dek g.id r.1) (record w { keys = r.1 })

  auto_wrap-Still : (g : GroupState) → Still (auto_wrap api t g)
  unfolding auto_wrap
  auto_wrap-Still g w = wrap_with-Still g (api.list_users w.server) w

module _ {S : Type 0} (api : ServerClient S) (t : Tools) (now : ℕ) where
  apply_answer-Still :
      (ms : List Mutation) (a : Option (List PushResult) × S)
      → Still (λ w. apply_answer api t now ms w a)
  apply_answer-Still ms (none, s) w = refl
  apply_answer-Still ms (some rs, s) w = refl

  push_mutations-Still : (ms : List Mutation) → Still (push_mutations api t now ms)
  push_mutations-Still [] w = refl
  push_mutations-Still (m ∷ ms) w = apply_answer-Still (m ∷ ms) (api.push (m ∷ ms) w.server) w

  push_listed-Still : (o : Option (List LocalEntry)) → Still (push_listed api t now o)
  push_listed-Still none w = refl
  push_listed-Still (some les) w = push_mutations-Still (outgoing w.engine les) w

  push_out-Still : Still (push_out api t now)
  unfolding push_out
  push_out-Still w = push_listed-Still (list_dirty_entries w.engine.local) w

  reencrypt_group_entries-Still : (gid kv : ℕ) → Still (reencrypt_group_entries api t now gid kv)
  unfolding reencrypt_group_entries
  reencrypt_group_entries-Still gid kv w =
      then-Still (λ v. on_local (reencrypt_rows (t.vault_at v.keys) gid kv) v) (push_out api t now)
        (λ v. refl) push_out-Still w

  if_uploaded-Still : (gid kv : ℕ) (a : Bool × S) → Still (λ w. if_uploaded api t now gid kv w a)
  if_uploaded-Still gid kv (false, s) w = refl
  if_uploaded-Still gid kv (true, s) w =
      reencrypt_group_entries-Still gid kv (record w { server = s })

  upload_set-Still :
      (gid kv : ℕ) (o : Option (List EnvelopeUpload)) → Still (λ w. upload_set api t now gid kv w o)
  upload_set-Still gid kv none w = refl
  upload_set-Still gid kv (some []) w = refl
  upload_set-Still gid kv (some (x ∷ xs)) w =
      if_uploaded-Still gid kv
        (api.upload_keys gid (record { key_version = kv; envelopes = x ∷ xs }) w.server) w

  wrap_for_members-Still :
      (g : GroupState) (dek : List ℕ) (o : Option (List (ℕ × ℕ)))
      → Still (λ w. wrap_for_members api t now g dek w o)
  wrap_for_members-Still g dek none w = refl
  wrap_for_members-Still g dek (some users) w =
      upload_set-Still g.id (g.key_version + 1)
        (wrap_for_all t.ciphers (by_id [] users) dek g.active_members) w

  if_cached-Still :
      (g : GroupState) (dek : List ℕ) (r : Bool × Keys) → Still (λ w. if_cached api t now g dek w r)
  if_cached-Still g dek (false, ks) w = refl
  if_cached-Still g dek (true, ks) w =
      wrap_for_members-Still g dek (api.list_users w.server) (record w { keys = ks })

  rekey_with-Still :
      (g : GroupState) (o : Option (List ℕ)) → Still (λ w. rekey_with api t now g w o)
  rekey_with-Still g none w = refl
  rekey_with-Still g (some dek) w =
      if_cached-Still g dek (set_dek t.ciphers g.id (g.key_version + 1) dek w.keys) w

  if_held-Still : (g : GroupState) (o : Option (List ℕ)) → Still (λ w. if_held api t now g w o)
  if_held-Still g none w = refl
  if_held-Still g (some dek) w = rekey_with-Still g t.ciphers.new_dek (hold g.id w)

  auto_rekey-Still : (g : GroupState) → Still (auto_rekey api t now g)
  unfolding auto_rekey
  auto_rekey-Still g w =
      let r = get_dek t.ciphers g.id g.key_version w.keys in
      if_held-Still g r.0 (record w { keys = r.1 })

  take_changes-Still : (r : SyncResponse) → Still (take_changes api t now r)
  take_changes-Still r w = refl

  take_full-Still : (a : Option SyncResponse × S) → Still (λ w. take_full api t now w a)
  take_full-Still (none, s) w = refl
  take_full-Still (some r, s) w =
      then-Still (take_envelopes api t now r.key_envelopes) (take_changes api t now r) (λ v. refl)
        (take_changes-Still r) (record w { server = s })

  pull_group_full-Still : (gid : ℕ) → Still (pull_group_full api t now gid)
  unfolding pull_group_full
  pull_group_full-Still gid w = take_full-Still (api.pull 0 ((gid, 0) ∷ []) w.server) w

  collaborate-Still : (g : GroupState) → Still (collaborate api t now g)
  collaborate-Still g w =
      let wrap = or_skip (has_missing g) (auto_wrap api t g) in
      let rekey = or_skip g.pending_rekey (auto_rekey api t now g) in
      unless-Still g.archived (λ v. and_next (wrap v) rekey)
        (then-Still wrap rekey
          (or_skip-Still (has_missing g) (auto_wrap api t g) (auto_wrap-Still api t g))
          (or_skip-Still g.pending_rekey (auto_rekey api t now g) (auto_rekey-Still g)))
        w

  record_group-Still : (g : GroupState) → Still (record_group api t now g)
  record_group-Still g w =
      then-Still (on_local (set_group_state g.id (group_row now g))) (collaborate api t now g)
        (λ v. refl) (collaborate-Still g) w

  enter_group-Still : (g : GroupState) (gs : Option GroupRow) → Still (enter_group api t now g gs)
  enter_group-Still g gs w =
      let full = pull_group_full api t now g.id in
      let back = or_skip (unarchived gs && not g.archived) full in
      let fresh = or_skip (never_pulled gs && not g.archived) full in
      let skip = λ (b : Bool). or_skip-Still b full (pull_group_full-Still g.id) in
      then-Still (λ v. and_next (back v) fresh) (record_group api t now g)
        (then-Still back fresh (skip (unarchived gs && not g.archived))
          (skip (never_pulled gs && not g.archived)))
        (record_group-Still g) w

  apply_group-Still : (g : GroupState) → Still (apply_group api t now g)
  unfolding apply_group
  apply_group-Still g w = elim (Bool-cases (w.engine.local.fails LocalStmt.get_group_row)) [
    | inl failed ↦ rw failed refl
    | inr ran ↦ rw ran (enter_group-Still g (get_group_state w.engine.local g.id) w)
  ]

  apply_groups-Still : (gs : List GroupState) → Still (apply_groups api t now gs)
  unfolding apply_groups
  apply_groups-Still [] w = refl
  apply_groups-Still (g ∷ gs) w =
      then-Still (apply_group api t now g) (apply_groups api t now gs) (apply_group-Still g)
        (apply_groups-Still gs) w

  pub process-Still : (r : SyncResponse) → Still (process api t now r)
  unfolding process
  process-Still r w =
      let keys = take_envelopes api t now r.key_envelopes in
      let groups = apply_groups api t now r.groups in
      let flushed = flush api t now in
      let changes = take_changes api t now r in
      let after_groups = then-Still keys groups (λ v. refl) (apply_groups-Still r.groups) in
      let after_flush =
        then-Still (λ v. and_next (keys v) groups) flushed after_groups (λ v. refl) in
      let after_changes =
        then-Still (λ v. and_next (and_next (keys v) groups) flushed) changes after_flush
          (take_changes-Still r) in
      then-Still (λ v. and_next (and_next (and_next (keys v) groups) flushed) changes)
        (push_out api t now) after_changes push_out-Still w
