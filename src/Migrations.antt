-- ===== src/Migrations.antt =====
-- db/migration.go and db/migrations/migrations.go: the migrations of a binary, and what Migrate does
-- to the database. The schema is an abstract state, on which a script runs or fails. `trim_space`
-- stands for `strings.TrimSpace`.
pub mod Plan
pub mod Progress
pub mod Records
pub mod Again
pub mod Loading
use gatewaysshd.Common.{
  ℕ, Bool, true, false, not, ◌&&◌, List, [], ◌∷◌, ◌++◌, map, Option, none, some, Text, codes, ◌==◌,
  text_key, if◌then◌else◌, select,
}
use mathlib.Core.Option
use gatewaysshd.Common.Dict.{Dict, lookup, insert, delete}
use gatewaysshd.Common.Sort.{text_leb, text_geb, sort_by}
use gatewaysshd.Errors.{Error, database_failed}

pub record MigrationModel : Type 0 where
  pub migrated_at : ℕ
  pub reverse_sql : Text

pub record Migration : Type 0 where
  pub id : Text
  pub sql : Text
  pub reverse_sql : Text

pub record Database (S : Type 0) : Type 0 where
  pub schema : S
  pub migrations : Dict Text MigrationModel

-- Migrate ends well, returns an error, or panics for a migration.
pub data Outcome : Type 0 where
  done : Outcome
  fails : Error → Outcome
  panics : Text → Outcome

-- The keys of a map.
abbrev pub ids_of {ℓ} : {V : Type ℓ} → Dict Text V → List Text
ids_of [] = []
ids_of ((id, v) ∷ rest) = id ∷ ids_of rest

abbrev pub is_some {ℓ} : {A : Type ℓ} → Option A → Bool
is_some none = false
is_some (some a) = true

-- The set currentMigrationIds.
unfoldable pub is_current : List Migration → Text → Bool
is_current [] id = false
is_current (m ∷ ms) id = let rest = is_current ms id in if m.id == id then true else rest

-- The ids recorded by a newer binary, the last one first.
unfoldable pub unknown_ids : List Migration → Dict Text MigrationModel → List Text
unfolding is_current sort_by
unknown_ids current existing =
    sort_by text_geb (select (λ id. not (is_current current id)) (ids_of existing))

-- Go on unless the loop has returned.
abbrev pub and_then :
    {S : Type 0} → Database S × Outcome → (Database S → Database S × Outcome) → Database S × Outcome
and_then (db, done) next = next db
and_then (db, fails e) next = (db, fails e)
and_then (db, panics id) next = (db, panics id)

-- `exec` runs a script, and `can_record` says for which migrations the table can be written. A
-- transaction that fails changes nothing.
module _ {S : Type 0} (exec : Text → S → Option S) (can_record : Text → Bool)
    (trim_space : Text → Text) (now : ℕ) where
  unfoldable pub revert_one : Dict Text MigrationModel → Text → Database S → Database S × Outcome
  revert_one existing id db = elim (lookup id existing) [
    | none ↦ (db, panics id)
    | some model ↦
        if trim_space model.reverse_sql == []
        then (db, panics id)
        else elim (exec model.reverse_sql db.schema) [
          | none ↦ (db, fails database_failed)
          | some schema ↦
              if can_record id
              then (record { schema = schema; migrations = delete id db.migrations }, done)
              else (db, fails database_failed)
        ]
  ]

  unfoldable pub revert_all :
      Dict Text MigrationModel → List Text → Database S → Database S × Outcome
  revert_all existing [] db = (db, done)
  revert_all existing (id ∷ ids) db =
      and_then (revert_one existing id db) (λ after. revert_all existing ids after)

  unfoldable pub run_sql : Text → S → Option S
  run_sql sql schema = if sql == [] then some schema else exec sql schema

  -- An id that the table holds already violates its key.
  unfoldable pub apply_one : Migration → Database S → Database S × Outcome
  apply_one m db = elim (run_sql m.sql db.schema) [
    | none ↦ (db, fails database_failed)
    | some schema ↦
        if can_record m.id && not (is_some (lookup m.id db.migrations))
        then (
          record {
            schema = schema;
            migrations =
                insert m.id (record { migrated_at = now; reverse_sql = m.reverse_sql })
                  db.migrations;
          },
          done,
        )
        else (db, fails database_failed)
  ]

  unfoldable pub apply_all :
      Dict Text MigrationModel → List Migration → Database S → Database S × Outcome
  apply_all existing [] db = (db, done)
  apply_all existing (m ∷ ms) db = elim (lookup m.id existing) [
    | some model ↦ apply_all existing ms db
    | none ↦ and_then (apply_one m db) (λ after. apply_all existing ms after)
  ]

  -- `reachable` says whether the table of migrations can be read.
  unfoldable pub migrate : Bool → List Migration → Database S → Database S × Outcome
  migrate reachable current db =
      if reachable
      then and_then (revert_all db.migrations (unknown_ids current db.migrations) db)
          (λ after. apply_all db.migrations current after)
      else (db, fails database_failed)

-- `strings.HasSuffix` with `strings.TrimSuffix`.
unfoldable pub cut_suffix : Text → Text → Option Text
cut_suffix suffix [] = if suffix == [] then some [] else none
cut_suffix suffix (c ∷ s) =
    let rest = cut_suffix suffix s in
    if suffix == (c ∷ s) then some [] else elim rest [ none ↦ none | some r ↦ some (c ∷ r) ]

-- The two maps of mustLoadMigrations.
pub record Loaded : Type 0 where
  pub forward : Dict Text Text
  pub reverse : Dict Text Text

module _ (trim_space : Text → Text) where
  unfoldable pub load_file : Text × Text → Loaded → Loaded
  load_file (name, content) self = elim (cut_suffix (codes ".sql") name) [
    | none ↦ self
    | some id ↦ elim (cut_suffix (codes ".reverse.sql") name) [
      | some reversed ↦ record self { reverse = insert reversed (trim_space content) self.reverse }
      | none ↦ record self { forward = insert id (trim_space content) self.forward }
    ]
  ]

  unfoldable pub load_files : List (Text × Text) → Loaded → Loaded
  load_files [] self = self
  load_files (file ∷ files) self = load_files files (load_file file self)

  -- Each of the ids has an entry.
  unfoldable pub all_in : Dict Text Text → List Text → Bool
  all_in others [] = true
  all_in others (id ∷ ids) = is_some (lookup id others) && all_in others ids

  unfoldable pub build : Loaded → List Text → List Migration
  build self [] = []
  build self (id ∷ ids) =
      record {
        id = id;
        sql = Option.get_or (lookup id self.forward) [];
        reverse_sql = Option.get_or (lookup id self.reverse) [];
      }
      ∷ build self ids

  -- mustLoadMigrations over the names and contents of the embedded files; `none` is its panic.
  unfoldable pub must_load_migrations : List (Text × Text) → Option (List Migration)
  unfolding load_files sort_by
  must_load_migrations files =
      let self = load_files files (record { forward = []; reverse = [] }) in
      if not (all_in self.reverse (ids_of self.forward))
      then none
      else if not (all_in self.forward (ids_of self.reverse))
      then none
      else some (build self (sort_by text_leb (ids_of self.forward)))
