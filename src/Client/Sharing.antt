-- ===== src/Client/Sharing.antt =====
-- client/core/syncer/wrap.go: `autoWrap`, which seals the key of a group for the members that lack
-- an envelope.
pub mod NewMember
use zt_data_sync.Proto.{GroupState, EnvelopeUpload}
use zt_data_sync.Client.Keys.{Keys, get_dek, set_dek, has_any_dek}
use zt_data_sync.Client.Session.{ServerClient, Tools, World, by_id, wrap_for_all}
use zt_data_sync.Prelude.{ℕ, Bool, true, false, Option, none, some, List, [], ◌∷◌}

module _ {S : Type 0} (api : ServerClient S) (t : Tools) where
  abbrev pub upload : GroupState → ℕ → Option (List EnvelopeUpload) → World S → Bool × World S
  upload g kv none w = (false, w)
  upload g kv (some []) w = (true, w)
  upload g kv (some (x ∷ xs)) w =
      let r = api.upload_keys g.id (record { key_version = kv; envelopes = x ∷ xs }) w.server in
      (r.0, record w { server = r.1 })

  abbrev pub share : GroupState → List (ℕ × ℕ) → List ℕ → World S → Bool × World S
  share g users dek w =
      upload g g.key_version (wrap_for_all t.ciphers (by_id [] users) dek g.missing_envelopes) w

  abbrev pub share_if_set :
      GroupState → List (ℕ × ℕ) → List ℕ → World S → Bool × Keys → Bool × World S
  share_if_set g users dek w (false, ks) = (false, record w { keys = ks })
  share_if_set g users dek w (true, ks) = share g users dek (record w { keys = ks })

  -- The cold start: a new key for the group.
  abbrev pub start_group : GroupState → List (ℕ × ℕ) → World S → Option (List ℕ) → Bool × World S
  start_group g users w none = (false, w)
  start_group g users w (some dek) =
      share_if_set g users dek w (set_dek t.ciphers g.id g.key_version dek w.keys)

  abbrev pub share_or_start :
      GroupState → List (ℕ × ℕ) → World S → Option (List ℕ) → Bool → Bool × World S
  share_or_start g users w (some dek) known = share g users dek w
  share_or_start g users w none true = (false, w)
  share_or_start g users w none false = start_group g users w t.ciphers.new_dek

  abbrev pub wrap_with : GroupState → World S → Option (List (ℕ × ℕ)) → Bool × World S
  wrap_with g w none = (false, w)
  wrap_with g w (some users) =
      let r = get_dek t.ciphers g.id g.key_version w.keys in
      share_or_start g users (record w { keys = r.1 }) r.0 (has_any_dek g.id r.1)

  unfoldable pub auto_wrap : GroupState → World S → Bool × World S
  auto_wrap g w = wrap_with g w (api.list_users w.server)
