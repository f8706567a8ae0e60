-- ===== src/Migrations/Plan.antt =====
-- db/migration.go, Migrate: the scripts that it runs, and how far it comes.
use gatewaysshd.Common.{
  ◌≡◌, refl, ap, ◌∙◌, sym, not, select, List, [], ◌∷◌, ◌++◌, Option, none, some, Text, ◌==◌,
  text_key, if◌then◌else◌, arith, Option-cases, inl, inr, append_assoc, append-nil,
}
use gatewaysshd.Common.Dict.{Dict, lookup}
use gatewaysshd.Errors.{Error}
use gatewaysshd.Common.Sort.{text_geb, IsSorted, sort_by-IsSorted, text_leb_trans, text_leb_total}
use gatewaysshd.Migrations.{
  MigrationModel, Migration, Database, Outcome, done, fails, panics, is_current, ids_of,
  unknown_ids, and_then,
}

-- The scripts that undo the recorded migrations of these ids.
unfoldable pub reverse_scripts : Dict Text MigrationModel → List Text → List Text
reverse_scripts existing [] = []
reverse_scripts existing (id ∷ ids) =
    elim (lookup id existing) [ none ↦ [] | some model ↦ model.reverse_sql ]
    ∷ reverse_scripts existing ids

-- The scripts of the migrations that are not recorded; an empty one is not run.
unfoldable pub forward_scripts : Dict Text MigrationModel → List Migration → List Text
forward_scripts existing [] = []
forward_scripts existing (m ∷ ms) =
    let rest = forward_scripts existing ms in
    elim (lookup m.id existing) [
      | some model ↦ rest
      | none ↦ if m.sql == [] then rest else m.sql ∷ rest
    ]

-- What Migrate is to run: first the unknown migrations undone, then the missing ones in order.
abbrev pub plan : List Migration → Dict Text MigrationModel → List Text
plan current existing =
    reverse_scripts existing (unknown_ids current existing) ++ forward_scripts existing current

-- The unknown migrations are undone from the last id to the first.
pub unknown_ids-IsSorted :
    (current : List Migration) (existing : Dict Text MigrationModel)
    → IsSorted text_geb (unknown_ids current existing)
unfolding unknown_ids text_geb
unknown_ids-IsSorted current existing =
    sort_by-IsSorted text_geb (λ s t u p q. text_leb_trans u t s q p) (λ s t. text_leb_total t s)
      (select (λ id. not (is_current current id)) (ids_of existing))

unfoldable pub run_all : {S : Type 0} → (Text → S → Option S) → List Text → S → Option S
run_all exec [] s = some s
run_all exec (script ∷ scripts) s = elim (exec script s) [
  | none ↦ none
  | some s' ↦ run_all exec scripts s'
]

-- Nothing is left exactly if the outcome is a good end.
abbrev pub Left : Outcome → List Text → Type 0
Left done rest = rest ≡ []
Left (fails e) rest = Unit
Left (panics id) rest = Unit

-- The schema is the work of a first part of the scripts: of all of them, if the outcome is good.
pub record Ran {S : Type 0} (exec : Text → S → Option S) (scripts : List Text) (before : S)
    (after : Database S × Outcome) : Type 0 where
  pub executed : List Text
  pub rest : List Text
  pub split : executed ++ rest ≡ scripts
  pub ran : run_all exec executed before ≡ some after.0.schema
  pub left : Left after.1 rest

run_all-append :
    {S : Type 0} (exec : Text → S → Option S) (xs ys : List Text) (s : S) {s' : S}
    → run_all exec xs s ≡ some s'
    → run_all exec (xs ++ ys) s ≡ run_all exec ys s'
unfolding run_all
run_all-append exec [] ys s h = ground arith
run_all-append exec (x ∷ xs) ys s {s'} h = elim (Option-cases (exec x s)) [
  | inl failed ↦ absurd (ground arith)
  | inr (t, ok) ↦ ground (arith, run_all-append exec xs ys t {s' = s'})
]

module _ {S : Type 0} (exec : Text → S → Option S) where
  pub Ran-and_then :
      (xs ys : List Text) (before : S) (db : Database S) (outcome : Outcome)
      (next : Database S → Database S × Outcome)
      → Ran exec xs before (db, outcome)
      → Ran exec ys db.schema (next db)
      → Ran exec (xs ++ ys) before (and_then (db, outcome) next)
  Ran-and_then xs ys before db done next r n = record {
    executed = xs ++ n.executed;
    rest = n.rest;
    split = append_assoc xs n.executed n.rest ∙ ap (λ t. xs ++ t) n.split;
    ran =
        run_all-append exec xs n.executed before {s' = db.schema} (
          let whole : r.executed ≡ xs =
            sym (append-nil r.executed) ∙ ap (λ t. r.executed ++ t) (sym r.left) ∙ r.split in
          rw (← whole) r.ran)
        ∙ n.ran;
    left = n.left;
  }
  Ran-and_then xs ys before db (fails e) next r n = record {
    executed = r.executed;
    rest = r.rest ++ ys;
    split = sym (append_assoc r.executed r.rest ys) ∙ ap (λ t. t ++ ys) r.split;
    ran = r.ran;
    left = tt;
  }
  Ran-and_then xs ys before db (panics id) next r n = record {
    executed = r.executed;
    rest = r.rest ++ ys;
    split = sym (append_assoc r.executed r.rest ys) ∙ ap (λ t. t ++ ys) r.split;
    ran = r.ran;
    left = tt;
  }

  pub Ran-nothing :
      (scripts : List Text) (db : Database S) (e : Error) → Ran exec scripts db.schema (db, fails e)
  unfolding run_all
  Ran-nothing scripts db e = record {
    executed = [];
    rest = scripts;
    split = refl;
    ran = refl;
    left = tt;
  }

  pub Ran-panic :
      (scripts : List Text) (db : Database S) (id : Text)
      → Ran exec scripts db.schema (db, panics id)
  unfolding run_all
  Ran-panic scripts db id = record {
    executed = [];
    rest = scripts;
    split = refl;
    ran = refl;
    left = tt;
  }

  pub Ran-script :
      (script : Text) (db after : Database S)
      → exec script db.schema ≡ some after.schema
      → Ran exec (script ∷ []) db.schema (after, done)
  unfolding run_all
  Ran-script script db after e = record {
    executed = script ∷ [];
    rest = [];
    split = refl;
    ran = ground (arith, e);
    left = refl;
  }
