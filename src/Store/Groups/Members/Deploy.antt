-- ===== src/Store/Groups/Members/Deploy.antt =====
-- Who is in the result of `GetGroupMembersForDeploy` of internal/store/groups.go.
use picoaide.Prelude.{
  ℕ, suc, ◌+◌, ◌<◌, ◌≡◌, refl, subst, ◌∙◌, ◌↔◌, ◌⊎◌, inl, inr, String, Bool, true, false, some,
  List, [], ◌∷◌, arith, if◌then◌else◌, keep, any, ◌==◌, str_eq, eq_iff, Unique, Unique-append,
  any-false-All, any-append, Bool-cases, of_if,
}
use picoaide.Store.Db.{Db, Group, UserGroup}
use picoaide.Store.Action.{ok, ◌>>=◌, pure, raise, query, caught, exec, touch, calm}
use picoaide.Store.Groups.{find_group, is_member_row}
use picoaide.Store.Groups.Tree.{OrderBy, get_sub_group_ids}
use picoaide.Store.Groups.Tree.Descendants.{IsChild, Below, listed, get_sub_group_ids_iff}
use picoaide.Store.Groups.Tree.Termination.{get_sub_group_ids_total}
use picoaide.Store.Groups.Members.{
  has_user, add_unseen, rows_of, collect, get_group_members_for_deploy,
}

abbrev pub same_name : String → String → Bool
same_name u v = str_eq v u

-- Adding rows keeps the members distinct, and adds exactly the users of the rows.
add_unseen-Unique :
    (rows : List UserGroup) (members : List String)
    → Unique same_name members
    → Unique same_name (add_unseen rows members)
add_unseen-Unique [] members u = u
add_unseen-Unique (r ∷ rows) members u = add_unseen-Unique rows _ (
    of_if (Unique same_name) (has_user r.username members) (λ seen. u)
      λ new. Unique-append same_name members r.username u (
        any-false-All (λ v. str_eq v r.username) members new
          (λ v e. ground (arith, e, eq_iff v r.username, eq_iff r.username v))))

has_user-add_unseen :
    (u : String) (rows : List UserGroup) (members : List String)
    → has_user u (add_unseen rows members)
      ≡ (if has_user u members then true else any (λ r. str_eq r.username u) rows)
has_user-add_unseen u [] members = ground arith
has_user-add_unseen u (r ∷ rows) members =
    has_user-add_unseen u rows _ ∙ elim (Bool-cases (has_user r.username members)) [
      | inl seen ↦ elim (Bool-cases (str_eq r.username u)) [
        | inl same ↦
            let found : has_user u members ≡ true =
              subst (λ v. has_user v members ≡ true) ((eq_iff r.username u).0 same) seen in
            ground (arith, seen, same, found)
        | inr other ↦ ground (arith, seen, other)
      ]
      | inr new ↦ ground (arith, new, any-append (λ v. str_eq v u) members (r.username ∷ []))
    ]

module _ (by_name : OrderBy Group) (by_user : OrderBy UserGroup) where
  any-rows_of :
      (u : String) (gid : ℕ) (db : Db)
      → any (λ r. str_eq r.username u) (rows_of by_name by_user gid db)
        ≡ any (is_member_row u gid) db.user_groups
  any-rows_of u gid db =
      by_user.any-sorted (λ r. str_eq r.username u) (keep (λ r. r.group_id == gid) db.user_groups)
      ∙ picked db.user_groups
    where
      picked :
          (rs : List UserGroup)
          → any (λ r. str_eq r.username u) (keep (λ r. r.group_id == gid) rs)
            ≡ any (is_member_row u gid) rs
      picked [] = refl
      picked (r ∷ rs) = ground (arith, picked rs)

  abbrev collected : Db → List ℕ → List String → List String
  collected db [] members = members
  collected db (gid ∷ gids) members =
      collected db gids (add_unseen (rows_of by_name by_user gid db) members)

  -- Some of the groups has the user.
  abbrev pub some_has : Db → String → List ℕ → Bool
  some_has db u gids = any (λ gid. any (is_member_row u gid) db.user_groups) gids

  collected-Unique :
      (db : Db) (gids : List ℕ) (members : List String)
      → Unique same_name members
      → Unique same_name (collected db gids members)
  collected-Unique db [] members h = h
  collected-Unique db (gid ∷ gids) members h =
      collected-Unique db gids _ (add_unseen-Unique (rows_of by_name by_user gid db) members h)

  has_user-collected :
      (db : Db) (u : String) (gids : List ℕ) (members : List String)
      → has_user u (collected db gids members)
        ≡ (if has_user u members then true else some_has db u gids)
  has_user-collected db u [] members = ground arith
  has_user-collected db u (gid ∷ gids) members =
      has_user-collected db u gids _
      ∙ ground (
        arith,
        has_user-add_unseen u (rows_of by_name by_user gid db) members,
        any-rows_of u gid db,
      )

  collect_calm :
      (db : Db) (gids : List ℕ) (members : List String) (n : ℕ)
      → (collect by_name by_user gids members
          (record { db = db; issued = n; faults = λ _. false })).0
        ≡ ok (collected db gids members)
  unfolding collect ◌>>=◌ query pure
  collect_calm db [] members n = refl
  collect_calm db (gid ∷ gids) members n = collect_calm db gids _ (n + 1)

  -- Where the group is there and `GetSubGroupIDs` returns.
  deploy_calm :
      (fuel : ℕ) (db : Db) (name : String) (g : Group) (ids : List ℕ)
      → find_group name db.groups ≡ some g
      → get_sub_group_ids by_name fuel db g.id ≡ some ids
      → (get_group_members_for_deploy by_name by_user fuel name (calm db)).0
        ≡ ok (collected db (g.id ∷ ids) [])
  unfolding get_group_members_for_deploy ◌>>=◌ query caught touch exec pure raise
  deploy_calm fuel db name g ids e es = rw (e, es) (collect_calm db (g.id ∷ ids) [] 3)

  some_has_inv :
      (db : Db) (u : String) (ids : List ℕ)
      → some_has db u ids ≡ true
      → (d : ℕ) × (listed d ids ≡ true) × (any (is_member_row u d) db.user_groups ≡ true)
  some_has_inv db u [] h = absurd (ground (arith, h))
  some_has_inv db u (i ∷ ids) h = elim (Bool-cases (any (is_member_row u i) db.user_groups)) [
    | inl here ↦ (i, ground arith, here)
    | inr later ↦
        let (d, hd, hu) = some_has_inv db u ids (ground (arith, h, later)) in
        (d, ground (arith, hd), hu)
  ]

  some_has_intro :
      (db : Db) (u : String) (ids : List ℕ) (d : ℕ)
      → listed d ids ≡ true
      → any (is_member_row u d) db.user_groups ≡ true
      → some_has db u ids ≡ true
  some_has_intro db u [] d h k = absurd (ground (arith, h))
  some_has_intro db u (i ∷ ids) d h k = elim (Bool-cases (i == d)) [
    | inl same ↦
        let here : any (is_member_row u i) db.user_groups ≡ true =
          subst (λ x. any (is_member_row u x) db.user_groups ≡ true) (ground (arith, same)) k in
        ground (arith, here)
    | inr other ↦ ground (arith, some_has_intro db u ids d (ground (arith, h, other)) k)
  ]

  -- A member of the group, or of one below it.
  abbrev pub BelongsTo : Db → ℕ → String → Type 0
  BelongsTo db gid u =
      (any (is_member_row u gid) db.user_groups ≡ true)
      ⊎ ((d : ℕ) × Below db gid d × (any (is_member_row u d) db.user_groups ≡ true))

  -- Where the parents form no circle (some rank falls from every parent to its children) and no
  -- statement fails, `GetGroupMembersForDeploy` returns for a group that is there. Its result
  -- names every member of the group and of the groups below it, nobody else, and each once.
  pub get_group_members_for_deploy_lem :
      (db : Db) (rank : ℕ → ℕ) (name : String) (g : Group)
      → ((p c : ℕ) → IsChild db p c → rank c < rank p)
      → find_group name db.groups ≡ some g
      → (members : List String) × ((get_group_members_for_deploy by_name by_user
            (suc (rank g.id))
            name
            (calm db)).0
          ≡ ok members)
        × Unique same_name members
        × ((u : String) → (has_user u members ≡ true) ↔ BelongsTo db g.id u)
  get_group_members_for_deploy_lem db rank name g falls e =
      let (ids, es) = get_sub_group_ids_total by_name db rank g.id falls in
      let below = get_sub_group_ids_iff by_name (suc (rank g.id)) db g.id ids es in
      (
        collected db (g.id ∷ ids) [],
        deploy_calm (suc (rank g.id)) db name g ids e es,
        collected-Unique db (g.id ∷ ids) [] tt,
        λ u. (
          λ h. elim (Bool-cases (any (is_member_row u g.id) db.user_groups)) [
            | inl direct_row ↦ inl direct_row
            | inr not_direct ↦
                let (d, hd, hu) =
                  some_has_inv db u ids
                    (ground (arith, h, not_direct, has_user-collected db u (g.id ∷ ids) [])) in
                inr (d, (below d).0 hd, hu)
          ],
          λ b. has_user-collected db u (g.id ∷ ids) [] ∙ elim b [
            | inl direct_row ↦ ground (arith, direct_row)
            | inr (d, hd, hu) ↦ ground (arith, some_has_intro db u ids d ((below d).1 hd) hu)
          ],
        ),
      )
