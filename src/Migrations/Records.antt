-- ===== src/Migrations/Records.antt =====
-- db/migration.go, Migrate: which migrations the table records in the end.
use gatewaysshd.Common.{
  ℕ, ◌≡◌, ◌≢◌, refl, sym, ◌∙◌, ap, Bool, true, false, not, select, ◌&&◌, List, [], ◌∷◌, Option,
  none, some, Text, ◌==◌, text_key, if◌then◌else◌, arith, Option-cases, Bool-cases, inl, inr,
  Member, Member-select, Member-select_keeps,
}
use gatewaysshd.Common.Dict.{Dict, lookup, delete, insert, lookup-delete, lookup-insert}
use gatewaysshd.Common.Sort.{text_geb, Member-sort_by}
use gatewaysshd.Migrations.{
  MigrationModel, Migration, Database, Outcome, done, fails, panics, is_current, is_some, ids_of,
  unknown_ids, and_then, revert_one, revert_all, apply_one, apply_all, migrate,
}

-- The reverse script of the migration of this id.
unfoldable pub reverse_of : List Migration → Text → Text
reverse_of [] id = []
reverse_of (m ∷ ms) id = let rest = reverse_of ms id in if m.id == id then m.reverse_sql else rest

-- What the table holds for an id in the end: a migration of this binary, as it was recorded before
-- or as it is recorded now, and nothing else.
abbrev pub recorded : List Migration → ℕ → Option MigrationModel → Text → Option MigrationModel
recorded current now before id =
    if is_current current id
    then elim before [
      | some model ↦ some model
      | none ↦ some (record { migrated_at = now; reverse_sql = reverse_of current id })
    ]
    else none

and_then_done :
    {S : Type 0} (r : Database S × Outcome) (next : Database S → Database S × Outcome)
    → (and_then r next).1 ≡ done
    → (r.1 ≡ done) × (and_then r next ≡ next r.0)
and_then_done (db, done) next h = (refl, refl)
and_then_done (db, fails e) next h = (h, cc)
and_then_done (db, panics id) next h = (h, cc)

Member-ids_of :
    {V : Type 0} (id : Text) (m : Dict Text V) → lookup id m ≢ none → Member id (ids_of m)
unfolding lookup
Member-ids_of id [] h = absurd (h refl)
Member-ids_of id ((j, v) ∷ m) h = elim (Bool-cases (j == id)) [
  | inl hit ↦ inl (ground arith)
  | inr other ↦ inr (Member-ids_of id m (ground arith))
]

pub lookup-ne-none :
    {V : Type 0} (id : Text) (m : Dict Text V) → Member id (ids_of m) → lookup id m ≢ none
unfolding lookup
lookup-ne-none id [] h = absurd h
lookup-ne-none id ((j, v) ∷ m) (inl e) = ground arith
lookup-ne-none id ((j, v) ∷ m) (inr n) = ground (arith, lookup-ne-none id m n)

module _ {S : Type 0} (exec : Text → S → Option S) (can_record : Text → Bool)
    (trim_space : Text → Text) (now : ℕ) where
  revert_one_done :
      (existing : Dict Text MigrationModel) (id : Text) (db : Database S)
      → (revert_one exec can_record trim_space now existing id db).1 ≡ done
      → (revert_one exec can_record trim_space now existing id db).0.migrations
        ≡ delete id db.migrations
  unfolding revert_one
  revert_one_done existing id db h = ground arith

  -- A migration that is off the table stays off while others are undone.
  revert_all_off :
      (existing : Dict Text MigrationModel) (ids : List Text) (db : Database S) (id : Text)
      → (revert_all exec can_record trim_space now existing ids db).1 ≡ done
      → lookup id db.migrations ≡ none
      → lookup id (revert_all exec can_record trim_space now existing ids db).0.migrations ≡ none
  unfolding revert_all
  revert_all_off existing [] db id h off = off
  revert_all_off existing (x ∷ xs) db id h off =
      let one = revert_one exec can_record trim_space now existing x db in
      let next =
        λ (after : Database S). revert_all exec can_record trim_space now existing xs after in
      let (first, whole) = and_then_done one next h in
      ground (
        arith,
        whole,
        revert_one_done existing x db first,
        lookup-delete x id db.migrations,
        revert_all_off existing xs one.0 id,
      )

  revert_all_removes :
      (existing : Dict Text MigrationModel) (ids : List Text) (db : Database S) (id : Text)
      → (revert_all exec can_record trim_space now existing ids db).1 ≡ done
      → Member id ids
      → lookup id (revert_all exec can_record trim_space now existing ids db).0.migrations ≡ none
  unfolding revert_all
  revert_all_removes existing [] db id h m = absurd m
  revert_all_removes existing (x ∷ xs) db id h (inl e) =
      let one = revert_one exec can_record trim_space now existing x db in
      let next =
        λ (after : Database S). revert_all exec can_record trim_space now existing xs after in
      let (first, whole) = and_then_done one next h in
      ground (
        arith,
        whole,
        revert_one_done existing x db first,
        lookup-delete x id db.migrations,
        revert_all_off existing xs one.0 id,
      )
  revert_all_removes existing (x ∷ xs) db id h (inr m) =
      let one = revert_one exec can_record trim_space now existing x db in
      let next =
        λ (after : Database S). revert_all exec can_record trim_space now existing xs after in
      let (first, whole) = and_then_done one next h in
      ground (arith, whole, revert_all_removes existing xs one.0 id (ground arith) m)

  revert_all_keeps :
      (existing : Dict Text MigrationModel) (ids : List Text) (db : Database S) (id : Text)
      → (revert_all exec can_record trim_space now existing ids db).1 ≡ done
      → ¬ Member id ids
      → lookup id (revert_all exec can_record trim_space now existing ids db).0.migrations
        ≡ lookup id db.migrations
  unfolding revert_all
  revert_all_keeps existing [] db id h out = refl
  revert_all_keeps existing (x ∷ xs) db id h out =
      let one = revert_one exec can_record trim_space now existing x db in
      let next =
        λ (after : Database S). revert_all exec can_record trim_space now existing xs after in
      let (first, whole) = and_then_done one next h in
      let other : id ≢ x = λ e. out (inl e) in
      let rest =
        revert_all_keeps existing xs one.0 id
          (ap (λ (r : Database S × Outcome). r.1) (sym whole) ∙ h) (λ m. out (inr m)) in
      ground (
        arith,
        whole,
        revert_one_done existing x db first,
        lookup-delete x id db.migrations,
        rest,
        other,
      )

  apply_one_done :
      (m : Migration) (db : Database S)
      → (apply_one exec can_record trim_space now m db).1 ≡ done
      → (lookup m.id db.migrations ≡ none)
        × ((apply_one exec can_record trim_space now m db).0.migrations
            ≡ insert m.id (record { migrated_at = now; reverse_sql = m.reverse_sql }) db.migrations)
  unfolding apply_one
  apply_one_done m db h = ground arith

  -- A migration that is applied was not recorded.
  apply_all_fresh :
      (existing : Dict Text MigrationModel) (ms : List Migration) (db : Database S) (id : Text)
      → (apply_all exec can_record trim_space now existing ms db).1 ≡ done
      → is_current ms id ≡ true
      → lookup id existing ≡ none
      → lookup id db.migrations ≡ none
  unfolding apply_all is_current
  apply_all_fresh existing [] db id h c e = cc
  apply_all_fresh existing (m ∷ ms) db id h c e = elim (Option-cases (lookup m.id existing)) [
    | inr (model, found) ↦ apply_all_fresh existing ms db id (ground arith) (ground arith) e
    | inl missing ↦
        let one = apply_one exec can_record trim_space now m db in
        let next =
          λ (after : Database S). apply_all exec can_record trim_space now existing ms after in
        let (first, whole) = and_then_done one next (ground arith) in
        ground (
          arith,
          whole,
          apply_one_done m db first,
          lookup-insert m.id id (record { migrated_at = now; reverse_sql = m.reverse_sql })
              db.migrations,
          apply_all_fresh existing ms one.0 id,
        )
  ]

  apply_all_records :
      (existing : Dict Text MigrationModel) (ms : List Migration) (db : Database S) (id : Text)
      → (apply_all exec can_record trim_space now existing ms db).1 ≡ done
      → lookup id (apply_all exec can_record trim_space now existing ms db).0.migrations ≡ (
          if is_current ms id && not (is_some (lookup id existing))
          then some (record { migrated_at = now; reverse_sql = reverse_of ms id })
          else lookup id db.migrations)
  unfolding apply_all is_current reverse_of
  apply_all_records existing [] db id h = refl
  apply_all_records existing (m ∷ ms) db id h = elim (Option-cases (lookup m.id existing)) [
    | inr (model, found) ↦
        let rest = apply_all_records existing ms db id (ground arith) in ground (arith, rest)
    | inl missing ↦
        let one = apply_one exec can_record trim_space now m db in
        let next =
          λ (after : Database S). apply_all exec can_record trim_space now existing ms after in
        let (first, whole) = and_then_done one next (ground arith) in
        ground (
          arith,
          whole,
          apply_one_done m db first,
          lookup-insert m.id id (record { migrated_at = now; reverse_sql = m.reverse_sql })
              db.migrations,
          apply_all_fresh existing ms one.0 id,
          apply_all_records existing ms one.0 id,
        )
  ]

  -- A recorded migration that the binary does not know is undone, and one that it knows is not.
  unknown_ids_iff :
      (current : List Migration) (existing : Dict Text MigrationModel) (id : Text)
      → lookup id existing ≢ none
      → (is_current current id ≡ false → Member id (unknown_ids current existing))
        × (is_current current id ≡ true → ¬ Member id (unknown_ids current existing))
  unfolding unknown_ids
  unknown_ids_iff current existing id known =
      let unknown : Text → Bool = λ id. not (is_current current id) in
      let listed = select unknown (ids_of existing) in
      let sorted = Member-sort_by text_geb id listed in
      (
        (λ c. sorted.1 (
            Member-select_keeps unknown id (ids_of existing) (Member-ids_of id existing known)
              (ground (arith, c)))),
        (λ c m.
            let (_, p) = Member-select unknown id (ids_of existing) (sorted.0 m) in ground arith),
      )

  -- After a migration that ends well, the table holds the migrations of this binary and no other:
  -- those recorded before as they were, and the missing ones with their reverse scripts.
  pub migrate_records :
      (current : List Migration) (db : Database S) (id : Text)
      → (migrate exec can_record trim_space now true current db).1 ≡ done
      → lookup id (migrate exec can_record trim_space now true current db).0.migrations
        ≡ recorded current now (lookup id db.migrations) id
  unfolding migrate
  migrate_records current db id h =
      let ids = unknown_ids current db.migrations in
      let reverted = revert_all exec can_record trim_space now db.migrations ids db in
      let next = λ (after : Database S).
        apply_all exec can_record trim_space now db.migrations current after in
      let (first, whole) = and_then_done reverted next h in
      let applied =
        apply_all_records db.migrations current reverted.0 id
          (ap (λ (r : Database S × Outcome). r.1) (sym whole) ∙ h) in
      elim (Option-cases (lookup id db.migrations)) [
        | inl missing ↦
            ground (arith, whole, applied, revert_all_off db.migrations ids db id first missing)
        | inr (model, found) ↦
            let known = unknown_ids_iff current db.migrations id (λ e. cc) in
            elim (Bool-cases (is_current current id)) [
              | inl yours ↦ ground (
                arith,
                whole,
                applied,
                revert_all_keeps db.migrations ids db id first (known.1 yours),
              )
              | inr theirs ↦ ground (
                arith,
                whole,
                applied,
                revert_all_removes db.migrations ids db id first (known.0 theirs),
              )
            ]
      ]
