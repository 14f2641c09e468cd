-- ===== src/Scenarios/Samples.antt =====
-- The inputs: two groups, two members of the first and one of the second.
use zt_data_sync.Store.Laws.{IsWellFormed}
use zt_data_sync.Sync.Push.Races.{Runs}
use zt_data_sync.Proto.{Mutation}
use zt_data_sync.Sync.Push.Guards.{Accepts}
use zt_data_sync.Store.Rows.{
  User, Group, Envelope, Db, Entry, GroupMember, Device, DeviceStatus, UserRole, UserStatus,
}
use zt_data_sync.Prelude.{ℕ, none, [], true, false, refl, ◌≡◌, ◌⊎◌, ◌∷◌, arith}

abbrev pub group_one : Group
group_one = record {
  id = 1;
  name = 11;
  key_version = 1;
  pending_rekey = 0;
  archived = 0;
  created_at = 900;
  archived_at = none;
}

abbrev pub group_two : Group
group_two = record {
  id = 2;
  name = 12;
  key_version = 1;
  pending_rekey = 1;
  archived = 0;
  created_at = 950;
  archived_at = none;
}

abbrev pub note : Entry
note = record {
  id = 100;
  group_id = 1;
  seq = 5;
  key_version = 1;
  ciphertext = 1 ∷ 2 ∷ [];
  size_bytes = 2;
  deleted = false;
  updated_by = 70;
  updated_at = 1000;
}

abbrev pub grave : Entry
grave = record {
  id = 101;
  group_id = 2;
  seq = 6;
  key_version = 1;
  ciphertext = [];
  size_bytes = 0;
  deleted = true;
  updated_by = 90;
  updated_at = 1000;
}

abbrev pub user_of : ℕ → User
user_of n = record {
  id = n;
  username = n;
  name = n;
  sm2_public_key = n;
  role = UserRole.member;
  status = UserStatus.active;
}

abbrev pub device_of : ℕ → ℕ → ℕ → Device
device_of n user seen = record {
  id = n;
  user_id = user;
  name = n;
  hostname = 0;
  last_ip = 0;
  token_hash = n;
  status = DeviceStatus.enabled;
  last_seen = seen;
}

abbrev pub in_group : ℕ → ℕ → GroupMember
in_group g u = record { group_id = g; user_id = u }

abbrev pub old_key : Envelope
old_key = record {
  group_id = 1;
  key_version = 1;
  user_id = 7;
  wrapped_dek = 9 ∷ [];
  updated_at = 900;
}

abbrev pub base_db : Db
base_db = record {
  users = user_of 7 ∷ user_of 8 ∷ user_of 9 ∷ [];
  devices = device_of 70 7 1000 ∷ device_of 80 8 500 ∷ device_of 90 9 0 ∷ [];
  groups = group_one ∷ group_two ∷ [];
  members = in_group 1 7 ∷ in_group 1 8 ∷ in_group 2 9 ∷ [];
  entries = note ∷ grave ∷ [];
  envelopes = old_key ∷ [];
  audit = [];
  seq = 6;
  fails = λ s. false;
}

pub base_db-IsWellFormed : IsWellFormed base_db
base_db-IsWellFormed = record {
  below = omega arith;
  distinct_seqs = ((omega arith, tt), (tt, tt));
  distinct_ids = ((omega arith, tt), (tt, tt));
}

-- A change of the note from its stored version.
abbrev pub edit : Mutation
edit = record {
  entry_id = 100;
  group_id = 1;
  base_seq = 5;
  key_version = 1;
  ciphertext = 3 ∷ [];
  deleted = false;
}

abbrev pub other_edit : Mutation
other_edit = record edit { ciphertext = 4 ∷ [] }

-- The second group's entry, under the name of the first group.
abbrev pub foreign_edit : Mutation
foreign_edit = record edit { entry_id = 101; base_seq = 6 }

pub edit-Accepts : (u : ℕ) → (u ≡ 7) ⊎ (u ≡ 8) → Accepts base_db u edit group_one
edit-Accepts u h = record {
  member = ground (arith, h);
  found = refl;
  open_group = omega arith;
  fits = omega arith;
  current_key = refl;
  base = refl;
}

pub base_db-Runs : (d : ℕ) → (d ≡ 70) ⊎ (d ≡ 80) → Runs base_db d
base_db-Runs d h = record { no_faults = λ s. refl; device = ground (arith, h) }
