-- ===== src/Proxy/Split.antt =====
-- gateway/httpproxy.go, splitHostPort, with what it uses of the packages net, strconv and strings.
use gatewaysshd.Common.{
  ℕ, ◌+◌, ◌*◌, ◌-◌, Bool, true, false, ◌&&◌, ◌||◌, [], ◌∷◌, Option, none, some, Text, codes, ◌==◌,
  nat_key, text_key, if◌then◌else◌, ltb, leb, length, drop,
}
use gatewaysshd.Errors.{Result, ok, err, bad_address}

abbrev pub colon : ℕ
colon = b':'

abbrev pub opening : ℕ
opening = b'['

abbrev pub closing : ℕ
closing = b']'

-- The text before and behind the first byte `c`, and the last one.
unfoldable pub cut_first : ℕ → Text → Option (Text × Text)
cut_first c [] = none
cut_first c (d ∷ s) =
    let rest = cut_first c s in
    if d == c then some ([], s) else elim rest [ none ↦ none | some (a, b) ↦ some (d ∷ a, b) ]

unfoldable pub cut_last : ℕ → Text → Option (Text × Text)
cut_last c [] = none
cut_last c (d ∷ s) = elim (cut_last c s) [
  | some (a, b) ↦ some (d ∷ a, b)
  | none ↦ if d == c then some ([], s) else none
]

unfoldable pub holds : ℕ → Text → Bool
holds c [] = false
holds c (d ∷ s) = d == c || holds c s

abbrev pub starts_with : ℕ → Text → Bool
starts_with c [] = false
starts_with c (d ∷ s) = d == c

unfoldable pub has_prefix : Text → Text → Bool
has_prefix [] s = true
has_prefix (c ∷ prefix) [] = false
has_prefix (c ∷ prefix) (d ∷ s) = c == d && has_prefix prefix s

-- `strings.Contains`.
unfoldable pub contains_text : Text → Text → Bool
unfolding has_prefix
contains_text part [] = has_prefix part []
contains_text part (d ∷ s) = has_prefix part (d ∷ s) || contains_text part s

-- `net.SplitHostPort`: the host and the port, or an error, which is for a missing port or not.
pub data Split : Type 0 where
  splits : Text → Text → Split
  missing_port malformed : Split

-- The checks for brackets that are out of place.
unfoldable pub check_brackets : Text → Text → Text → Text → Split
unfolding holds
check_brackets tail1 tail2 host port =
    if holds opening tail1
    then malformed
    else if holds closing tail2
    then malformed
    else splits host port

unfoldable pub net_split_host_port : Text → Split
unfolding cut_first cut_last check_brackets holds
net_split_host_port address = elim (cut_last colon address) [
  | none ↦ missing_port
  | some (before, port) ↦
      if starts_with opening address
      then elim (cut_first closing address) [
        | none ↦ malformed
        | some (bracketed, behind) ↦
            if length behind == 0
            then missing_port
            else if length bracketed + 1 == length before
            then check_brackets (drop 1 address) behind (drop 1 bracketed) port
            else if starts_with colon behind
            then malformed
            else missing_port
      ]
      else if holds colon before
      then malformed
      else check_brackets address address before port
]

-- `strconv.ParseUint(s, 10, 16)`.
unfoldable pub parse_digits : ℕ → Text → Option ℕ
parse_digits value [] = some value
parse_digits value (d ∷ s) =
    let rest = parse_digits (value * 10 + (d - b'0')) s in
    if leb b'0' d && leb d b'9' then rest else none

unfoldable pub parse_uint : Text → Option ℕ
unfolding parse_digits
parse_uint [] = none
parse_uint (d ∷ s) = elim (parse_digits 0 (d ∷ s)) [
  | none ↦ none
  | some value ↦ if ltb 65535 value then none else some value
]

-- The text of an error names the address, so the test for a missing port also looks there.
unfoldable pub split_host_port : Text → ℕ → Result (Text × ℕ)
unfolding contains_text
split_host_port address default_port = elim (net_split_host_port address) [
  | missing_port ↦ ok (address, default_port)
  | malformed ↦
      if contains_text (codes "missing port") address
      then ok (address, default_port)
      else err bad_address
  | splits host port_text ↦ elim (parse_uint port_text) [
    | none ↦ err bad_address
    | some port ↦ ok (host, port)
  ]
]
