-- ===== src/Migrations/Loading.antt =====
-- db/migrations/migrations.go, mustLoadMigrations: what the embedded files become.
use gatewaysshd.Common.{
  ◌≡◌, ◌≢◌, refl, sym, ap, subst, true, List, [], ◌∷◌, map, Option, none, some, Text, text_key,
  arith, inl, inr, Member,
}
use mathlib.Core.Option
use gatewaysshd.Common.Dict.{Dict, lookup}
use gatewaysshd.Common.Sort.{
  text_leb, IsSorted, sort_by, sort_by-IsSorted, Member-sort_by, text_leb_trans, text_leb_total,
}
use gatewaysshd.Migrations.{
  Migration, Loaded, ids_of, load_files, all_in, build, must_load_migrations,
}
use gatewaysshd.Migrations.Records.{lookup-ne-none}

-- The two maps that the files fill.
abbrev pub maps_of : (Text → Text) → List (Text × Text) → Loaded
maps_of trim_space files = load_files trim_space files (record { forward = []; reverse = [] })

module _ (trim_space : Text → Text) where
  ids-build :
      (self : Loaded) (ids : List Text)
      → map (λ (m : Migration). m.id) (build trim_space self ids) ≡ ids
  unfolding build
  ids-build self [] = refl
  ids-build self (id ∷ ids) = ap (◌∷◌ id) (ids-build self ids)

  all_in-Member :
      (others : Dict Text Text) (ids : List Text) (id : Text)
      → all_in trim_space others ids ≡ true
      → Member id ids
      → lookup id others ≢ none
  unfolding all_in
  all_in-Member others [] id h m = absurd m
  all_in-Member others (x ∷ xs) id h (inl e) = ground arith
  all_in-Member others (x ∷ xs) id h (inr m) =
      ground (arith, all_in-Member others xs id (ground arith) m)

  Member-build :
      (self : Loaded) (ids : List Text) (m : Migration)
      → Member m (build trim_space self ids)
      → Member m.id ids
        × (m.sql ≡ Option.get_or (lookup m.id self.forward) [])
        × (m.reverse_sql ≡ Option.get_or (lookup m.id self.reverse) [])
  unfolding build
  Member-build self [] m h = absurd h
  Member-build self (id ∷ ids) m (inl e) =
      (inl (ap (λ (n : Migration). n.id) e), rw e refl, rw e refl)
  Member-build self (id ∷ ids) m (inr n) =
      let (k, f, r) = Member-build self ids m n in (inr k, f, r)

  -- What loads is in ascending order of the ids, and each migration has a forward and a reverse
  -- script, those of the files of its id.
  pub must_load_migrations_lem :
      (files : List (Text × Text)) {ms : List Migration}
      → must_load_migrations trim_space files ≡ some ms
      → IsSorted text_leb (map (λ (m : Migration). m.id) ms)
        × ((m : Migration)
            → Member m ms
            → (lookup m.id (maps_of trim_space files).forward ≡ some m.sql)
              × (lookup m.id (maps_of trim_space files).reverse ≡ some m.reverse_sql))
  unfolding must_load_migrations
  must_load_migrations_lem files {ms} h =
      let self = maps_of trim_space files in
      let ids = sort_by text_leb (ids_of self.forward) in
      let paired : all_in trim_space self.reverse (ids_of self.forward) ≡ true = ground arith in
      let built : build trim_space self ids ≡ ms = ground arith in
      (
        subst (λ l. IsSorted text_leb (map (λ (m : Migration). m.id) l)) built
            (rw (ids-build self ids)
              (sort_by-IsSorted text_leb text_leb_trans text_leb_total (ids_of self.forward))),
        (λ m n.
            let (k, f, r) = Member-build self ids m (subst (Member m) (sym built) n) in
            let known = (Member-sort_by text_leb m.id (ids_of self.forward)).0 k in
            let forward = lookup-ne-none m.id self.forward known in
            let reverse = all_in-Member self.reverse (ids_of self.forward) m.id paired known in
            (
              with_default (lookup m.id self.forward) m.sql f forward,
              with_default (lookup m.id self.reverse) m.reverse_sql r reverse,
            )),
      )
    where
      with_default : (o : Option Text) (t : Text) → t ≡ Option.get_or o [] → o ≢ none → o ≡ some t
      with_default none t e h = absurd (h refl)
      with_default (some s) t e h = cc
