-- ===== src/Scenarios/Revocations.antt =====
-- The revocation of a user.
use zt_data_sync.Scenarios.Samples.{base_db, group_one, user_of, device_of}
use zt_data_sync.Store.Rows.{Group, Envelope}
use zt_data_sync.Store.Queries.{get_user_by_id, list_user_groups, is_member, list_group_members}
use zt_data_sync.Store.Tx.{with_tx, set_group_rekey}
use zt_data_sync.Store.Access.{
  set_user_revoked, disable_user_devices, delete_user_envelopes, remove_group_member, revoke_all,
}
use zt_data_sync.Authn.Tokens.{AuthContext, require_auth}
use zt_data_sync.Administration.{revoke_across, revoke_tx, empty_groups}
use zt_data_sync.Administration.Leaving.{waits}
use zt_data_sync.Administration.Revocation.{passes_as, revoke_across-shut_out}
use zt_data_sync.Prelude.{true, false, some, [], ◌∷◌, ◌==◌, ◌≡◌, refl, any, All}

abbrev pub boss : AuthContext
boss = record { device = device_of 90 9 0; user = user_of 9 }

revoke_across-shut_out_example :
    let r = revoke_across 2000 boss 7 7 base_db base_db in
    (passes_as 7 (require_auth (λ t. t) 1 (some 70) r.1).0 ≡ false)
    × (any (λ (e : Envelope). e.user_id == 7) r.1.envelopes ≡ false)
    × All (λ (g : Group). is_member g.id 7 r.1.members ≡ false) (group_one ∷ [])
    × All (λ (g : Group). waits g.id r.1.groups ≡ true) (group_one ∷ [])
    × (r.0.1 ≡ true)
unfolding revoke_across get_user_by_id list_user_groups with_tx revoke_tx set_user_revoked
    disable_user_devices delete_user_envelopes remove_group_member set_group_rekey empty_groups
    list_group_members revoke_all
revoke_across-shut_out_example =
    revoke_across-shut_out 2000 boss 7 7 base_db base_db (group_one ∷ []) (λ t. t) 1 70 {names = []}
      refl refl
