-- ===== src/Tests/Upgrades.antt =====
-- Tests of the migrations: a newer binary left the migration 3, and this one brings 1 and 2.
use gatewaysshd.Common.{
  ◌≡◌, refl, Bool, true, [], ◌∷◌, List, Option, some, Text, codes, ℕ_discrete, text_discrete, ◌++◌,
  text_key,
}
use gatewaysshd.Common.Dict.{lookup, insert, delete}
use gatewaysshd.Common.Sort.{text_leb, text_geb, insert_sorted, sort_by}
use gatewaysshd.Migrations.{
  Migration, Database, done, is_current, unknown_ids, revert_one, revert_all, run_sql, apply_one,
  apply_all, migrate,
}
use gatewaysshd.Migrations.Plan.{Ran, plan}
use gatewaysshd.Migrations.Progress.{migrate-Ran}
use gatewaysshd.Migrations.Records.{recorded, migrate_records}

-- The schema is the list of the scripts that ran.
abbrev run : Text → List Text → Option (List Text)
run script schema = some (schema ++ (script ∷ []))

abbrev always : Text → Bool
always id = true

abbrev same : Text → Text
same text = text

abbrev this_binary : List Migration
this_binary =
    record { id = codes "1"; sql = codes "create"; reverse_sql = codes "drop" }
    ∷ record { id = codes "2"; sql = []; reverse_sql = codes "nothing" }
    ∷ []

abbrev upgraded : Database (List Text)
upgraded = record {
  schema = [];
  migrations = (codes "3", record { migrated_at = 5; reverse_sql = codes "undo" }) ∷ [];
}

program' : Unit {0}
unfolding ℕ_discrete text_discrete lookup insert delete text_leb text_geb insert_sorted sort_by
    is_current unknown_ids revert_one revert_all run_sql apply_one apply_all migrate
program' = tt

ends_well : (migrate run always same 9 true this_binary upgraded).1 ≡ done
unfolding program'
ends_well = refl

migrate-Ran_example :
    Ran run
      (plan this_binary upgraded.migrations)
      []
      (migrate run always same 9 true this_binary upgraded)
migrate-Ran_example = migrate-Ran run always same 9 true this_binary upgraded

migrate_records_example :
    lookup (codes "1") (migrate run always same 9 true this_binary upgraded).0.migrations
    ≡ recorded this_binary 9 (lookup (codes "1") upgraded.migrations) (codes "1")
migrate_records_example =
    migrate_records run always same 9 this_binary upgraded (codes "1") ends_well
