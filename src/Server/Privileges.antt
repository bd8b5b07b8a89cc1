-- ===== src/Server/Privileges.antt =====
-- `drop_privileges` of src/server.c. The calls of the operating system are a parameter, an interface
-- with what their manual pages say of a privileged process; a group or a user that is not found, and a
-- failed call, are `none`.
pub mod Dropped
use celeritas.Prelude.{ℕ, ◌≡◌, Option, none, some, List, Bytes}

-- The credentials of the process: the real, effective and saved user and group, and the other groups.
pub record Creds : Type 0 where
  pub uid : ℕ
  pub euid : ℕ
  pub suid : ℕ
  pub gid : ℕ
  pub egid : ℕ
  pub sgid : ℕ
  pub groups : List ℕ

pub record Accounts : Type 0 where
  pub getgrnam : Bytes → Option ℕ
  pub getpwnam : Bytes → Option ℕ
  pub groups_of : Bytes → ℕ → List ℕ
  pub initgroups : Creds → Bytes → ℕ → Option Creds
  pub setgid : Creds → ℕ → Option Creds
  pub setuid : Creds → ℕ → Option Creds
  pub initgroups_root :
      (c : Creds) (user : Bytes) (g : ℕ) (later : Creds)
      → initgroups c user g ≡ some later
      → later ≡ (record c { groups = groups_of user g })
  pub setgid_root :
      (c : Creds) (g : ℕ) (later : Creds)
      → c.euid ≡ 0
      → setgid c g ≡ some later
      → later ≡ (record c { gid = g; egid = g; sgid = g })
  pub setuid_root :
      (c : Creds) (u : ℕ) (later : Creds)
      → c.euid ≡ 0
      → setuid c u ≡ some later
      → later ≡ (record c { uid = u; euid = u; suid = u })
  pub setuid_zero : (c : Creds) → c.euid ≡ 0 → (later : Creds) × (setuid c 0 ≡ some later)

-- What the six messages say.
pub data DropError : Type 0 where
  group_not_found user_not_found groups_not_cleared group_not_dropped : DropError
  user_not_dropped root_regained : DropError

-- 0, or -1 with the message, and the credentials at that point.
pub data DropResult : Type 0 where
  dropped : Creds → DropResult
  not_dropped : DropError → Creds → DropResult

module _ (os : Accounts) where
  -- The calls of `setuid`.
  unfoldable pub drop_user : Creds → ℕ → DropResult
  drop_user creds pw_uid = elim (os.setuid creds pw_uid) [
    | none ↦ not_dropped user_not_dropped creds
    | some later ↦ elim (os.setuid later 0) [
      | none ↦ dropped later
      | some root ↦ not_dropped root_regained root
    ]
  ]

  -- The calls that change the groups, and then those of `setuid`.
  unfoldable pub drop_groups : Creds → Bytes → ℕ → ℕ → DropResult
  drop_groups creds username gr_gid pw_uid = elim (os.initgroups creds username gr_gid) [
    | none ↦ not_dropped groups_not_cleared creds
    | some cleared ↦ elim (os.setgid cleared gr_gid) [
      | none ↦ not_dropped group_not_dropped cleared
      | some later ↦ drop_user later pw_uid
    ]
  ]

  -- `drop_privileges`
  unfoldable pub drop_privileges : Creds → Bytes → Bytes → DropResult
  drop_privileges creds username groupname = elim (os.getgrnam groupname) [
    | none ↦ not_dropped group_not_found creds
    | some gr_gid ↦ elim (os.getpwnam username) [
      | none ↦ not_dropped user_not_found creds
      | some pw_uid ↦ drop_groups creds username gr_gid pw_uid
    ]
  ]
