-- ===== src/Store/Groups/Synced.antt =====
-- What `SyncUserGroups` of internal/store/groups.go leaves a user in, where no statement fails.
use picoaide.Prelude.{
  ℕ, ◌+◌, String, ◌≡◌, refl, sym, ap, ◌∙◌, subst, inl, inr, Bool, true, false, not, Option, none,
  some, List, [], ◌∷◌, ◌++◌, arith, if◌then◌else◌, any, keep, ◌==◌, str_eq, All, any-append,
  keep-append, keep-keep, Bool-cases, Option-cases, of_if, eq_refl, append-nil,
}
use picoaide.Store.Db.{Db, Group, UserGroup}
use picoaide.Store.Action.{
  ok, Store, ◌>>=◌, pure, caught, exec, exec_checked, touch, transaction, calm,
}
use picoaide.Store.Groups.{
  has_name, has_id, find_group, is_member_row, insert_member, ensure_group, ensure_groups,
  join_groups, without_user, sync_user_groups,
}

-- A store whose statements all succeed, after `n` of them.
abbrev pub calm_at : Db → ℕ → Store
calm_at db n = record { db = db; issued = n; faults = λ _. false }

abbrev pub ensure_all : List String → String → Db → Db
ensure_all [] source db = db
ensure_all (name ∷ names) source db = ensure_all names source (ensure_group name source db)

abbrev pub is_found : ℕ → Option Group → Bool
is_found h none = false
is_found h (some g) = g.id == h

-- The group with the id is the one that some of the names find.
abbrev pub named_in : List String → ℕ → List Group → Bool
named_in [] h gs = false
named_in (name ∷ names) h gs = if is_found h (find_group name gs) then true else named_in names h gs

abbrev pub others : String → List UserGroup → List UserGroup
others u rows = keep (λ r. not (str_eq r.username u)) rows

ensure_groups_calm :
    (names : List String) (source : String) (db : Db) (n : ℕ)
    → (m : ℕ) × (ensure_groups names source (calm_at db n)
        ≡ (ok tt, calm_at (ensure_all names source db) m))
unfolding ensure_groups ◌>>=◌ exec pure
ensure_groups_calm [] source db n = (n, refl)
ensure_groups_calm (name ∷ names) source db n =
    ensure_groups_calm names source (ensure_group name source db) (n + 1)

pub find_group-exists :
    (name : String) (gs : List Group) (g : Group)
    → find_group name gs ≡ some g
    → any (has_id g.id) gs ≡ true
find_group-exists name [] g e = absurd (ground (arith, e))
find_group-exists name (x ∷ gs) g e = elim (Bool-cases (str_eq x.name name)) [
  | inl here ↦ ground (arith, e, here)
  | inr later ↦ ground (arith, e, later, find_group-exists name gs g)
]

-- What joining adds to the rows.
record Joined (u : String) (names : List String) (db db' : Db) : Type 0 where
  groups : db'.groups ≡ db.groups
  rows :
      (h : ℕ)
      → any (is_member_row u h) db'.user_groups
        ≡ (if any (is_member_row u h) db.user_groups then true else named_in names h db.groups)
  unchanged : others u db'.user_groups ≡ others u db.user_groups

insert_member-Joined :
    (u name : String) (g : Group) (db : Db)
    → find_group name db.groups ≡ some g
    → (db' : Db) × (insert_member u g.id db ≡ some db') × Joined u (name ∷ []) db db'
insert_member-Joined u name g db e = elim (Bool-cases (any (is_member_row u g.id) db.user_groups)) [
  | inl there ↦ (
    db,
    rw there refl,
    record {
      groups = refl;
      rows = λ h. elim (Bool-cases (g.id == h)) [
        | inl same ↦
            let there_h : any (is_member_row u h) db.user_groups ≡ true =
              subst (λ i. any (is_member_row u i) db.user_groups ≡ true) (ground (arith, same))
                there in
            ground (arith, there_h)
        | inr other ↦ ground (arith, e, other)
      ];
      unchanged = refl;
    },
  )
  | inr new ↦ (
    record db { user_groups = db.user_groups ++ record { username = u; group_id = g.id } ∷ [] },
    ground (arith, new, find_group-exists name db.groups g e),
    record {
      groups = refl;
      rows = λ h. ground (
        arith,
        e,
        eq_refl u,
        any-append (is_member_row u h) db.user_groups
            (record { username = u; group_id = g.id } ∷ []),
      );
      unchanged =
          keep-append (λ r. not (str_eq r.username u)) db.user_groups
            (record { username = u; group_id = g.id } ∷ [])
          ∙ ap
              (λ b.
                others u db.user_groups
                ++ (if not b then record { username = u; group_id = g.id } ∷ [] else []))
              (eq_refl u)
          ∙ append-nil (others u db.user_groups);
    },
  )
]

Joined-then :
    {u name : String} {names : List String} {db db1 db2 : Db}
    → Joined u (name ∷ []) db db1
    → Joined u names db1 db2
    → Joined u (name ∷ names) db db2
Joined-then {u = u} {name = name} {names = names} {db = db} {db1 = db1} j k = record {
  groups = k.groups ∙ j.groups;
  rows = λ h.
      k.rows h
      ∙ ap (λ gs. if any (is_member_row u h) db1.user_groups then true else named_in names h gs)
          j.groups
      ∙ ground (arith, j.rows h);
  unchanged = k.unchanged ∙ j.unchanged;
}

join_groups_calm :
    (names : List String) (u : String) (db : Db) (n : ℕ)
    → (db' : Db) × (m : ℕ) × (join_groups u names (calm_at db n) ≡ (ok tt, calm_at db' m))
      × Joined u names db db'
unfolding join_groups ◌>>=◌ caught exec_checked pure
join_groups_calm [] u db n =
    (db, n, refl, record { groups = refl; rows = λ h. ground arith; unchanged = refl })
join_groups_calm (name ∷ names) u db n = elim (Option-cases (find_group name db.groups)) [
  | inl missing ↦
      let (db', m, e, j) = join_groups_calm names u db (n + 1) in
      (
        db',
        m,
        rw missing e,
        record {
          groups = j.groups;
          rows = λ h. j.rows h ∙ ground (arith, missing);
          unchanged = j.unchanged;
        },
      )
  | inr (g, found) ↦
      let (db1, e1, j1) = insert_member-Joined u name g db found in
      let (db', m, e, j) = join_groups_calm names u db1 (n + 1 + 1) in
      (db', m, rw (found, e1) e, Joined-then j1 j)
]

-- A group that is there stays there.
ensure_group-name :
    (name other source : String) (db : Db)
    → any (has_name other) db.groups ≡ true
    → any (has_name other) (ensure_group name source db).groups ≡ true
ensure_group-name name other source db h =
    of_if (λ (d : Db). any (has_name other) d.groups ≡ true) (any (has_name name) db.groups)
      (λ taken. h) λ free. any-append (has_name other) db.groups _ ∙ ground (arith, h)

ensure_all-name :
    (names : List String) (other source : String) (db : Db)
    → any (has_name other) db.groups ≡ true
    → any (has_name other) (ensure_all names source db).groups ≡ true
ensure_all-name [] other source db h = h
ensure_all-name (name ∷ names) other source db h =
    ensure_all-name names other source (ensure_group name source db)
      (ensure_group-name name other source db h)

ensure_group_own :
    (name source : String) (db : Db)
    → any (has_name name) (ensure_group name source db).groups ≡ true
ensure_group_own name source db =
    of_if (λ (d : Db). any (has_name name) d.groups ≡ true) (any (has_name name) db.groups)
      (λ taken. taken) λ free. any-append (has_name name) db.groups _ ∙ ground (arith, eq_refl name)

ensure_all-All :
    (names : List String) (source : String) (db : Db)
    → All (λ name. any (has_name name) (ensure_all names source db).groups ≡ true) names
ensure_all-All [] source db = tt
ensure_all-All (name ∷ names) source db = (
  ensure_all-name names name source (ensure_group name source db) (ensure_group_own name source db),
  ensure_all-All names source (ensure_group name source db),
)

ensure_all-members :
    (names : List String) (source : String) (db : Db)
    → (ensure_all names source db).user_groups ≡ db.user_groups
ensure_all-members [] source db = refl
ensure_all-members (name ∷ names) source db =
    ensure_all-members names source (ensure_group name source db)
    ∙ of_if (λ (d : Db). d.user_groups ≡ db.user_groups) (any (has_name name) db.groups) (λ t. refl)
        (λ f. refl)

no_rows :
    (u : String) (h : ℕ) (rows : List UserGroup) → any (is_member_row u h) (others u rows) ≡ false
no_rows u h [] = refl
no_rows u h (r ∷ rows) = ground (arith, no_rows u h rows)

-- Where no statement fails, `SyncUserGroups` succeeds. Then every name has a group, the user is a
-- member of exactly the groups that the names find, whatever it was in before, and all other
-- memberships stand as they were, in order.
pub sync_user_groups_lem :
    (u : String) (names : List String) (source : String) (db : Db)
    → (db' : Db) × (m : ℕ) × (sync_user_groups u names source (calm db) ≡ (ok tt, calm_at db' m))
      × All (λ name. any (has_name name) db'.groups ≡ true) names
      × ((h : ℕ) → any (is_member_row u h) db'.user_groups ≡ named_in names h db'.groups)
      × (others u db'.user_groups ≡ others u db.user_groups)
unfolding sync_user_groups transaction ◌>>=◌ touch exec pure
sync_user_groups_lem u names source db =
    let (n1, e1) = ensure_groups_calm names source db 2 in
    let ensured = ensure_all names source db in
    let (db', m, e2, j) = join_groups_calm names u (without_user u ensured) (n1 + 1) in
    (
      db',
      m + 1,
      rw (e1, e2) refl,
      subst (λ gs. All (λ name. any (has_name name) gs ≡ true) names) (sym j.groups)
          (ensure_all-All names source db),
      (λ h.
          j.rows h
          ∙ ap (λ b. if b then true else named_in names h ensured.groups)
              (no_rows u h ensured.user_groups)
          ∙ ap (named_in names h) (sym j.groups)),
      j.unchanged
          ∙ keep-keep (λ r. not (str_eq r.username u)) (λ r. not (str_eq r.username u))
              ensured.user_groups (λ r e. e)
          ∙ ap (others u) (ensure_all-members names source db),
    )
