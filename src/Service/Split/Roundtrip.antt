-- ===== src/Service/Split/Roundtrip.antt =====
-- gateway/utils.go, splitCommand: how a client can write a command line for any fields.
use gatewaysshd.Common.{
  ℕ, Bool, true, false, ◌≡◌, refl, not, ◌&&◌, List, [], ◌∷◌, ◌++◌, some, Text, ◌==◌, nat_key,
  if◌then◌else◌, append-nil, append_assoc, ℕ_discrete, arith, All,
}
use gatewaysshd.Service.Split.{
  other, classify, drop_returns, starting, plain, quoted, closing, next_field, read_fields,
  read_record, split_command,
}

-- A field is written as it is if it is not empty and has none of the bytes that mean something.
abbrev is_plain : ℕ → Bool
is_plain c = elim (classify 32 c) [ other ↦ true | _ ↦ false ]

abbrev all_plain : Text → Bool
all_plain [] = true
all_plain (c ∷ s) = is_plain c && all_plain s

abbrev is_bare : Text → Bool
is_bare [] = false
is_bare (c ∷ s) = all_plain (c ∷ s)

-- Any other stands between quotes, with each of its own quotes doubled.
abbrev escape : Text → Text
escape [] = []
escape (c ∷ s) = let rest = escape s in if c == 34 then 34 ∷ 34 ∷ rest else c ∷ rest

unfoldable pub write_field : Text → Text → Text
write_field field rest = if is_bare field then field ++ rest else 34 ∷ (escape field ++ (34 ∷ rest))

unfoldable pub write_rest : List Text → Text
write_rest [] = []
write_rest (field ∷ fields) = 32 ∷ write_field field (write_rest fields)

-- A command line of these fields.
unfoldable pub write_command : List Text → Text
write_command [] = []
write_command (field ∷ fields) = write_field field (write_rest fields)

abbrev pub free_of_returns : Text → Bool
free_of_returns [] = true
free_of_returns (c ∷ s) = not (c == 13) && free_of_returns s

read_fields-escape :
    (field read rest : Text)
    → read_fields 32 quoted read (escape field ++ (34 ∷ rest))
      ≡ read_fields 32 closing (read ++ field) rest
unfolding read_fields classify ℕ_discrete
read_fields-escape [] read rest = rw (append-nil read)
read_fields-escape (c ∷ s) read rest =
    ground (arith, read_fields-escape s (read ++ (c ∷ [])) rest, append_assoc read (c ∷ []) s)

read_fields-plain :
    (field read rest : Text)
    → all_plain field ≡ true
    → read_fields 32 plain read (field ++ rest) ≡ read_fields 32 plain (read ++ field) rest
unfolding read_fields classify
read_fields-plain [] read rest bare = rw (append-nil read)
read_fields-plain (c ∷ s) read rest bare =
    ground (arith, read_fields-plain s (read ++ (c ∷ [])) rest, append_assoc read (c ∷ []) s)

read_fields-written :
    (field : Text) (fields : List Text)
    → read_fields 32 starting [] (write_field field (write_rest fields)) ≡ some (field ∷ fields)
unfolding write_field write_rest read_fields classify next_field ℕ_discrete
read_fields-written [] [] = refl
read_fields-written [] (g ∷ fields) = rw (read_fields-written g fields)
read_fields-written (c ∷ s) [] =
    ground (arith, read_fields-escape (c ∷ s) [] [], read_fields-plain s (c ∷ []) [])
read_fields-written (c ∷ s) (g ∷ fields) = ground (
  arith,
  read_fields-written g fields,
  read_fields-escape (c ∷ s) [] (write_rest (g ∷ fields)),
  read_fields-plain s (c ∷ []) (write_rest (g ∷ fields)),
)

-- What has no carriage return is read as it is.
drop_returns-free : (text : Text) → free_of_returns text ≡ true → drop_returns text ≡ text
unfolding drop_returns
drop_returns-free [] free = refl
drop_returns-free (c ∷ s) free = ground (arith, drop_returns-free s)

free_of_returns-append :
    (s t : Text)
    → free_of_returns s ≡ true
    → free_of_returns t ≡ true
    → free_of_returns (s ++ t) ≡ true
free_of_returns-append [] t first second = second
free_of_returns-append (c ∷ s) t first second = ground (arith, free_of_returns-append s t)

free_of_returns-escape : (s : Text) → free_of_returns s ≡ true → free_of_returns (escape s) ≡ true
free_of_returns-escape [] free = refl
free_of_returns-escape (c ∷ s) free = ground (arith, free_of_returns-escape s)

free_of_returns-write_field :
    (field rest : Text)
    → free_of_returns field ≡ true
    → free_of_returns rest ≡ true
    → free_of_returns (write_field field rest) ≡ true
unfolding write_field ℕ_discrete
free_of_returns-write_field field rest free free_rest = ground (
  arith,
  free_of_returns-append field rest free free_rest,
  free_of_returns-append (escape field) (34 ∷ rest) (free_of_returns-escape field free) free_rest,
)

free_of_returns-write_rest :
    (fields : List Text)
    → All (λ field. free_of_returns field ≡ true) fields
    → free_of_returns (write_rest fields) ≡ true
unfolding write_rest ℕ_discrete
free_of_returns-write_rest [] free = refl
free_of_returns-write_rest (field ∷ fields) (free, others) =
    free_of_returns-write_field field (write_rest fields) free
      (free_of_returns-write_rest fields others)

-- A field that is written does not begin with the end of a line.
read_record-write_field :
    (field rest : Text)
    → read_record 32 (write_field field rest) ≡ read_fields 32 starting [] (write_field field rest)
unfolding read_record write_field classify ℕ_discrete
read_record-write_field [] rest = refl
read_record-write_field (c ∷ s) rest = ground arith

split_command-nil : split_command [] ≡ []
unfolding split_command read_record drop_returns
split_command-nil = refl

-- A command line that is written for some fields without carriage returns is split into these fields,
-- whatever spaces, quotes and ends of lines they have; none of them is lost, even if it is empty.
pub split_command-write_command :
    (fields : List Text)
    → All (λ field. free_of_returns field ≡ true) fields
    → split_command (write_command fields) ≡ fields
unfolding split_command write_command
split_command-write_command [] free = split_command-nil
split_command-write_command (field ∷ fields) (free, others) =
    let rest = write_rest fields in
    let whole =
      free_of_returns-write_field field rest free (free_of_returns-write_rest fields others) in
    grind (
      arith,
      drop_returns-free (write_field field rest) whole,
      read_record-write_field field rest,
      read_fields-written field fields,
    )
