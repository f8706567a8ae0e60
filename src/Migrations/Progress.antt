-- ===== src/Migrations/Progress.antt =====
-- db/migration.go, Migrate: the scripts run are the first part of the plan.
use gatewaysshd.Common.{
  ℕ, ◌≡◌, refl, Bool, not, ◌&&◌, List, [], ◌∷◌, ◌++◌, Option, none, some, Text, ◌==◌, text_key,
  if◌then◌else◌, arith, Option-cases, Bool-cases, inl, inr, append-nil,
}
use gatewaysshd.Common.Dict.{Dict, lookup, delete}
use gatewaysshd.Errors.{database_failed}
use gatewaysshd.Migrations.{
  MigrationModel, Migration, Database, is_some, unknown_ids, revert_one, revert_all, run_sql,
  apply_one, apply_all, migrate,
}
use gatewaysshd.Migrations.Plan.{
  reverse_scripts, forward_scripts, plan, run_all, Ran, Ran-and_then, Ran-nothing, Ran-panic,
  Ran-script,
}

module _ {S : Type 0} (exec : Text → S → Option S) (can_record : Text → Bool)
    (trim_space : Text → Text) (now : ℕ) where
  abbrev script_of : Option MigrationModel → Text
  script_of none = []
  script_of (some model) = model.reverse_sql

  revert_one-Ran :
      (existing : Dict Text MigrationModel) (id : Text) (db : Database S)
      → Ran exec
          (script_of (lookup id existing) ∷ [])
          db.schema
          (revert_one exec can_record trim_space now existing id db)
  unfolding revert_one
  revert_one-Ran existing id db = elim (Option-cases (lookup id existing)) [
    | inl lost ↦ rw (lost, revert_one) (Ran-panic exec ([] ∷ []) db id)
    | inr (model, found) ↦
        rw (found, revert_one)
          (elim (Bool-cases (trim_space model.reverse_sql == [])) [
            | inl blank ↦ rw blank (Ran-panic exec (model.reverse_sql ∷ []) db id)
            | inr script ↦ rw script (elim (Option-cases (exec model.reverse_sql db.schema)) [
              | inl failed ↦
                  rw failed (Ran-nothing exec (model.reverse_sql ∷ []) db database_failed)
              | inr (schema, ok) ↦ rw ok (elim (Bool-cases (can_record id)) [
                | inl recorded ↦ rw recorded (
                    Ran-script exec model.reverse_sql db
                      (record { schema = schema; migrations = delete id db.migrations }) ok)
                | inr failed ↦
                    rw failed (Ran-nothing exec (model.reverse_sql ∷ []) db database_failed)
              ])
            ])
          ])
  ]

  revert_all-Ran :
      (existing : Dict Text MigrationModel) (ids : List Text) (db : Database S)
      → Ran exec
          (reverse_scripts existing ids)
          db.schema
          (revert_all exec can_record trim_space now existing ids db)
  unfolding revert_all reverse_scripts run_all
  revert_all-Ran existing [] db = record {
    executed = [];
    rest = [];
    split = refl;
    ran = refl;
    left = refl;
  }
  revert_all-Ran existing (id ∷ ids) db =
      let one = revert_one exec can_record trim_space now existing id db in
      Ran-and_then exec (script_of (lookup id existing) ∷ []) (reverse_scripts existing ids)
        db.schema one.0 one.1
        (λ after. revert_all exec can_record trim_space now existing ids after)
        (revert_one-Ran existing id db) (revert_all-Ran existing ids one.0)

  -- The script of a migration, if it is not empty.
  abbrev own_script : Migration → List Text
  own_script m = if m.sql == [] then [] else m.sql ∷ []

  apply_one-Ran :
      (m : Migration) (db : Database S)
      → Ran exec (own_script m) db.schema (apply_one exec can_record trim_space now m db)
  unfolding apply_one run_sql run_all
  apply_one-Ran m db =
      elim (Option-cases (run_sql exec can_record trim_space now m.sql db.schema)) [
        | inl failed ↦ rw (failed, apply_one) (Ran-nothing exec (own_script m) db database_failed)
        | inr (schema, ok) ↦
            rw (ok, apply_one)
              (elim (Bool-cases (can_record m.id && not (is_some (lookup m.id db.migrations)))) [
                | inl recorded ↦ rw recorded (record {
                  executed = own_script m;
                  rest = [];
                  split = append-nil (own_script m);
                  ran = ground (arith, ok);
                  left = refl;
                })
                | inr failed ↦ rw failed (Ran-nothing exec (own_script m) db database_failed)
              ])
      ]

  apply_all-Ran :
      (existing : Dict Text MigrationModel) (ms : List Migration) (db : Database S)
      → Ran exec
          (forward_scripts existing ms)
          db.schema
          (apply_all exec can_record trim_space now existing ms db)
  unfolding apply_all forward_scripts run_all
  apply_all-Ran existing [] db = record {
    executed = [];
    rest = [];
    split = refl;
    ran = refl;
    left = refl;
  }
  apply_all-Ran existing (m ∷ ms) db = elim (Option-cases (lookup m.id existing)) [
    | inr (model, found) ↦ rw (found, apply_all, forward_scripts) (apply_all-Ran existing ms db)
    | inl missing ↦
        let one = apply_one exec can_record trim_space now m db in
        let both =
          Ran-and_then exec (own_script m) (forward_scripts existing ms) db.schema one.0 one.1
            (λ after. apply_all exec can_record trim_space now existing ms after)
            (apply_one-Ran m db) (apply_all-Ran existing ms one.0) in
        let scripts : own_script m ++ forward_scripts existing ms ≡ (
            if m.sql == []
            then forward_scripts existing ms
            else m.sql ∷ forward_scripts existing ms) =
          ground arith in
        rw (missing, apply_all, forward_scripts) (rw (← scripts) both)
  ]

  -- However a migration ends, the schema is what a first part of the plan makes of the schema
  -- before: the whole plan, if it ends well. A script that fails changes nothing.
  pub migrate-Ran :
      (reachable : Bool) (current : List Migration) (db : Database S)
      → Ran exec
          (plan current db.migrations)
          db.schema
          (migrate exec can_record trim_space now reachable current db)
  unfolding migrate
  migrate-Ran reachable current db = elim (Bool-cases reachable) [
    | inr down ↦
        rw (down, migrate) (Ran-nothing exec (plan current db.migrations) db database_failed)
    | inl up ↦
        let ids = unknown_ids current db.migrations in
        let reverted = revert_all exec can_record trim_space now db.migrations ids db in
        rw (up, migrate)
          (Ran-and_then exec (reverse_scripts db.migrations ids)
            (forward_scripts db.migrations current) db.schema reverted.0 reverted.1
            (λ after. apply_all exec can_record trim_space now db.migrations current after)
            (revert_all-Ran db.migrations ids db) (apply_all-Ran db.migrations current reverted.0))
  ]
