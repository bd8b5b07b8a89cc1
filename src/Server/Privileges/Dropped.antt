-- ===== src/Server/Privileges/Dropped.antt =====
-- What the process is after `drop_privileges`.
use celeritas.Prelude.{
  ℕ, ◌≡◌, ◌≢◌, refl, sym, ap, ◌∙◌, none, some, Bytes, arith, Option-cases, subst, ◌⊎◌, inl, inr,
}
use celeritas.Server.Privileges.{
  Creds, Accounts, root_regained, DropResult, dropped, not_dropped, drop_user, drop_groups,
  drop_privileges,
}

module _ (os : Accounts) where
  -- The process is the user `u`, not root, in the group `g` and the groups of the user, and cannot
  -- become root.
  pub record Unprivileged (username : Bytes) (g u : ℕ) (c : Creds) : Type 0 where
    pub not_root : u ≢ 0
    pub as_user : c ≡ record {
      uid = u;
      euid = u;
      suid = u;
      gid = g;
      egid = g;
      sgid = g;
      groups = os.groups_of username g;
    }
    pub no_way_back : os.setuid c 0 ≡ none

  -- What `drop_privileges` promises for its result, from the credentials `start`.
  abbrev pub DropOk : Creds → Bytes → Bytes → DropResult → Type 0
  DropOk start username groupname (dropped later) =
      (g : ℕ) × (u : ℕ) × (os.getgrnam groupname ≡ some g)
      × (os.getpwnam username ≡ some u)
      × Unprivileged username g u later
  DropOk start username groupname (not_dropped error later) =
      (error ≡ root_regained) ⊎ ((later.uid ≡ start.uid) × (later.euid ≡ 0))

  module _ (start : Creds) (username groupname : Bytes) (g u : ℕ)
      (in_group : os.getgrnam groupname ≡ some g) (known : os.getpwnam username ≡ some u) where
    -- The credentials of root in the groups of the user.
    abbrev as_root : Creds
    as_root = record start { groups = os.groups_of username g; gid = g; egid = g; sgid = g }

    drop_user-DropOk : start.euid ≡ 0 → DropOk start username groupname (drop_user os as_root u)
    unfolding drop_user
    drop_user-DropOk root = elim (Option-cases (os.setuid as_root u)) [
      | inl n ↦ rw (n, drop_user) (inr (refl, root))
      | inr (later, s) ↦
          let e = os.setuid_root as_root u later root s in
          elim (Option-cases (os.setuid later 0)) [
            | inr (again, t) ↦ rw (s, drop_user) (rw t (inl refl))
            | inl n ↦
                let not_root : u ≢ 0 = λ z.
                  let (again, t) = os.setuid_zero later (ap (λ c. c.euid) e ∙ z) in
                  absurd (ground arith) in
                rw (s, drop_user)
                  (rw n (
                    g,
                    u,
                    in_group,
                    known,
                    record { not_root = not_root; as_user = e; no_way_back = n },
                  ))
          ]
    ]

    drop_groups-DropOk :
        start.euid ≡ 0 → DropOk start username groupname (drop_groups os start username g u)
    unfolding drop_groups
    drop_groups-DropOk root = elim (Option-cases (os.initgroups start username g)) [
      | inl n ↦ rw (n, drop_groups) (inr (refl, root))
      | inr (cleared, s) ↦
          let e = os.initgroups_root start username g cleared s in
          let root' : cleared.euid ≡ 0 = ap (λ c. c.euid) e ∙ root in
          elim (Option-cases (os.setgid cleared g)) [
            | inl n ↦ rw (s, drop_groups) (rw n (inr (ap (λ c. c.uid) e, root')))
            | inr (later, t) ↦
                let grouped : Creds → Creds = λ c. record c { gid = g; egid = g; sgid = g } in
                let f : later ≡ as_root = os.setgid_root cleared g later root' t ∙ ap grouped e in
                rw (s, drop_groups)
                  (rw t (
                    subst (λ c. DropOk start username groupname (drop_user os c u)) (sym f)
                      (drop_user-DropOk root)))
          ]
    ]

  -- Called by root, `drop_privileges` returns 0 only when the group and the user were found, the user
  -- is not root, all three user ids are the user's, all three group ids the group's, and the other
  -- groups those of the user, and root cannot be regained. When it returns -1, either root was just
  -- regained, or the process is root still.
  pub drop_privileges-DropOk :
      (start : Creds) (username groupname : Bytes)
      → start.euid ≡ 0
      → DropOk start username groupname (drop_privileges os start username groupname)
  unfolding drop_privileges
  drop_privileges-DropOk start username groupname root =
      elim (Option-cases (os.getgrnam groupname)) [
        | inl n ↦ rw (n, drop_privileges) (inr (refl, root))
        | inr (g, s) ↦ elim (Option-cases (os.getpwnam username)) [
          | inl n ↦ rw (s, drop_privileges) (rw n (inr (refl, root)))
          | inr (u, t) ↦
              rw (s, drop_privileges)
                (rw t (drop_groups-DropOk start username groupname g u s t root))
        ]
      ]
