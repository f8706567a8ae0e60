-- ===== src/Db/Columns.antt =====
-- db/models.go, Location and Status, with lookupLocation of auth/auth.go: how a value is written to a column of json and read back. A column
-- is NULL or holds a text; the json encoder and parser are parameters.
use gatewaysshd.Common.{
  ◌≡◌, ◌≢◌, refl, Bool, true, [], ◌∷◌, Option, none, some, Text, ◌==◌, nat_key, if◌then◌else◌,
  length, arith, ℕ_discrete, Option-cases, inl, inr,
}
use gatewaysshd.Errors.{Result, ok, err, json_failed}

abbrev pub Column : Type 0
Column = Option Text

-- `Float` is the type of float64, with its zero.
pub record Location (Float : Type 0) : Type 0 where
  pub latitude : Float
  pub longitude : Float
  pub time_zone : Text
  pub country : Text
  pub city : Text

module _ {Float : Type 0} (zero_float : Float) where
  abbrev pub zero_location : Location Float
  zero_location = record {
    latitude = zero_float;
    longitude = zero_float;
    time_zone = [];
    country = [];
    city = [];
  }

  -- What a city of the geoip database gives.
  pub record City : Type 0 where
    pub iso_code : Text
    pub latitude : Option Float
    pub longitude : Option Float
    pub name : Text
    pub time_zone : Text

  abbrev or_zero : Option Float → Float
  or_zero none = zero_float
  or_zero (some x) = x

  -- lookupLocation of auth/auth.go: `reader` is the database, if it can be opened.
  unfoldable pub lookup_location : Option (Text → Option City) → Text → Location Float
  lookup_location none ip = zero_location
  lookup_location (some city_of) ip = elim (city_of ip) [
    | none ↦ zero_location
    | some city ↦ record {
      latitude = or_zero city.latitude;
      longitude = or_zero city.longitude;
      time_zone = city.time_zone;
      country = city.iso_code;
      city = city.name;
    }
  ]

  module _ (encode : Location Float → Option Text) (decode : Text → Option (Location Float)) where
    -- Location.Value.
    unfoldable pub location_value : Location Float → Result Column
    location_value self = elim (encode self) [ none ↦ err json_failed | some raw ↦ ok (some raw) ]

    -- Location.Scan: NULL reads as the zero value, and an error leaves `self` as it was.
    unfoldable pub scan_location : Location Float → Column → Location Float × Result (Unit {0})
    scan_location self none = (zero_location, ok tt)
    scan_location self (some raw) = elim (decode raw) [
      | none ↦ (self, err json_failed)
      | some location ↦ (location, ok tt)
    ]

    -- The location of an address, once written, is read back as it was, whatever was there before, if
    -- the encoder writes what the parser reads.
    pub scan_location-lookup_location :
        (reader : Option (Text → Option City)) (ip : Text) (before : Location Float)
        {column : Column}
        → ((location : Location Float) (raw : Text)
            → encode location ≡ some raw
            → decode raw ≡ some location)
        → location_value (lookup_location reader ip) ≡ ok column
        → scan_location before column ≡ (lookup_location reader ip, ok tt)
    unfolding location_value scan_location
    scan_location-lookup_location reader ip before {column} law h =
        elim (Option-cases (encode (lookup_location reader ip))) [
          | inl bad ↦ absurd (ground arith)
          | inr (raw, good) ↦
              let back = law (lookup_location reader ip) raw good in ground (arith, good, back)
        ]

-- A status is the text of its json. `valid` is the test of json.Unmarshal.
module _ (valid : Text → Bool) where
  -- Status.Value: an empty one is NULL.
  unfoldable pub status_value : Text → Column
  status_value self = if length self == 0 then none else some self

  unfoldable pub scan_status : Text → Column → Text × Result (Unit {0})
  scan_status self none = ([], ok tt)
  scan_status self (some raw) = if valid raw then (raw, ok tt) else (self, err json_failed)

  -- A status that is empty or json is read back as it was written, whatever was there before.
  pub scan_status-status_value :
      (before status : Text)
      → (status ≢ [] → valid status ≡ true)
      → scan_status before (status_value status) ≡ (status, ok tt)
  unfolding scan_status status_value ℕ_discrete
  scan_status-status_value before [] h = refl
  scan_status-status_value before (c ∷ s) h = ground (arith, h (λ e. cc))
