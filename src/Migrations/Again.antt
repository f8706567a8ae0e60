-- ===== src/Migrations/Again.antt =====
-- db/migration.go, Migrate: a second run of the same binary.
use gatewaysshd.Common.{
  ℕ, ◌≡◌, ◌≢◌, refl, Bool, true, false, not, select, List, [], ◌∷◌, Option, none, Text, text_key,
  arith, inl, inr, Member, ◌↔◌,
}
use gatewaysshd.Common.Dict.{Dict, lookup}
use gatewaysshd.Common.Sort.{sort_by}
use gatewaysshd.Migrations.{
  MigrationModel, Migration, Database, done, is_current, ids_of, unknown_ids, revert_all, apply_all,
  migrate,
}
use gatewaysshd.Migrations.Records.{lookup-ne-none, migrate_records}

select_nothing :
    {A : Type 0} (p : A → Bool) (xs : List A)
    → ((a : A) → Member a xs → p a ≡ false)
    → select p xs ≡ []
select_nothing p [] h = refl
select_nothing p (x ∷ xs) h =
    ground (arith, h x (inl refl), select_nothing p xs (λ a m. h a (inr m)))

module _ {S : Type 0} (exec : Text → S → Option S) (can_record : Text → Bool)
    (trim_space : Text → Text) (now : ℕ) where
  apply_all_idle :
      (existing : Dict Text MigrationModel) (ms : List Migration) (db : Database S)
      → ((id : Text) → is_current ms id ≡ true → lookup id existing ≢ none)
      → apply_all exec can_record trim_space now existing ms db ≡ (db, done)
  unfolding apply_all is_current
  apply_all_idle existing [] db h = refl
  apply_all_idle existing (m ∷ ms) db h =
      let here = h m.id (ground arith) in
      let rest = apply_all_idle existing ms db (λ id c. h id (ground (arith, c))) in
      ground (arith, here, rest)

  migrate_idle :
      (current : List Migration) (db : Database S)
      → ((id : Text) → (is_current current id ≡ true) ↔ (lookup id db.migrations ≢ none))
      → migrate exec can_record trim_space now true current db ≡ (db, done)
  unfolding migrate unknown_ids revert_all sort_by
  migrate_idle current db h =
      let none_unknown =
        select_nothing (λ id. not (is_current current id)) (ids_of db.migrations)
          (λ id m. let c = (h id).1 (lookup-ne-none id db.migrations m) in rw c) in
      rw none_unknown (apply_all_idle db.migrations current db (λ id. (h id).0))

-- A second migration by the same binary runs no script and changes nothing: it ends well whatever
-- scripts and records would do.
pub migrate_again :
    {S : Type 0} (exec exec' : Text → S → Option S) (can_record can_record' : Text → Bool)
    (trim_space trim_space' : Text → Text) (now now' : ℕ) (current : List Migration)
    (db : Database S)
    → (migrate exec can_record trim_space now true current db).1 ≡ done
    → let after = (migrate exec can_record trim_space now true current db).0 in
      migrate exec' can_record' trim_space' now' true current after ≡ (after, done)
migrate_again exec exec' can_record can_record' trim_space trim_space' now now' current db h =
    migrate_idle exec' can_record' trim_space' now' current
      (migrate exec can_record trim_space now true current db).0
      (λ id.
        let e = migrate_records exec can_record trim_space now current db id h in
        ((λ c. ground (arith, e, c)), (λ held. ground (arith, e, held))))
