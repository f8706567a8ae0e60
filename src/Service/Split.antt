-- ===== src/Service/Split.antt =====
-- gateway/utils.go, splitCommand: a command line is split like a record of encoding/csv whose fields
-- stand apart by a space. The reader of the standard library is written out for these settings.
pub mod Roundtrip
use gatewaysshd.Common.{
  ℕ, Bool, true, false, ◌&&◌, List, [], ◌∷◌, ◌++◌, Option, none, some, Text, ◌==◌, nat_key,
  if◌then◌else◌,
}

-- What a byte is to the reader: 34 is a double quote, and 10 ends a line.
pub data Kind : Type 0 where
  quote separator line_end other : Kind

unfoldable pub classify : ℕ → ℕ → Kind
classify comma c =
    if c == 34 then quote else if c == comma then separator else if c == 10 then line_end else other

-- readLine: "\r\n" counts as "\n", and a "\r" before the end of the text is dropped.
unfoldable pub at_line_end : Text → Bool
at_line_end [] = true
at_line_end (c ∷ rest) = c == 10

unfoldable pub drop_returns : Text → Text
unfolding at_line_end
drop_returns [] = []
drop_returns (c ∷ rest) =
    let cleaned = drop_returns rest in
    if (c == 13) && at_line_end rest then cleaned else c ∷ cleaned

-- Where the reader stands: at a field's start, in a plain field, in a quoted one, or behind a quote
-- within a quoted one.
pub data Mode : Type 0 where
  starting plain quoted closing : Mode

next_field : Text → Option (List Text) → Option (List Text)
next_field field none = none
next_field field (some fields) = some (field ∷ fields)

-- readRecord: `field` is what was read of the field so far. `none` is an error of the reader: a quote
-- in a plain field, text behind a closing quote, or a quoted field that does not end.
unfoldable pub read_fields : ℕ → Mode → Text → Text → Option (List Text)
unfolding next_field classify
read_fields comma quoted field [] = none
read_fields comma mode field [] = some (field ∷ [])
read_fields comma starting field (c ∷ rest) = elim (classify comma c) [
  | quote ↦ read_fields comma quoted [] rest
  | separator ↦ next_field [] (read_fields comma starting [] rest)
  | line_end ↦ some ([] ∷ [])
  | other ↦ read_fields comma plain (c ∷ []) rest
]
read_fields comma plain field (c ∷ rest) = elim (classify comma c) [
  | quote ↦ none
  | separator ↦ next_field field (read_fields comma starting [] rest)
  | line_end ↦ some (field ∷ [])
  | other ↦ read_fields comma plain (field ++ (c ∷ [])) rest
]
read_fields comma quoted field (c ∷ rest) = elim (classify comma c) [
  | quote ↦ read_fields comma closing field rest
  | _ ↦ read_fields comma quoted (field ++ (c ∷ [])) rest
]
read_fields comma closing field (c ∷ rest) = elim (classify comma c) [
  | quote ↦ read_fields comma quoted (field ++ (c ∷ [])) rest
  | separator ↦ next_field field (read_fields comma starting [] rest)
  | line_end ↦ some (field ∷ [])
  | other ↦ none
]

-- Empty lines before the record are skipped; a text of nothing else has no record.
unfoldable pub read_record : ℕ → Text → Option (List Text)
read_record comma [] = none
read_record comma (c ∷ rest) =
    let later = read_record comma rest in
    if c == 10 then later else read_fields comma starting [] (c ∷ rest)

-- splitCommand: the separator is a space, and an error leaves no fields.
unfoldable pub split_command : Text → List Text
split_command command = elim (read_record 32 (drop_returns command)) [
  | none ↦ []
  | some fields ↦ fields
]
