-- ===== src/Auth/Flags.antt =====
-- The login cache of auth/auth.go: its bound, and what it answers.
use gatewaysshd.Common.{
  ℕ, ◌+◌, ◌≤◌, ◌<◌, ◌≡◌, Bool, not, none, some, Text, ltb, if◌then◌else◌, length, arith, ◌==◌,
  text_key,
}
use gatewaysshd.Common.Dict.{
  Distinct, lookup, lookup-insert, lookup-delete, length-insert-le, length-delete-le,
  insert-Distinct, delete-Distinct, retain-Distinct, lookup-retain_sound,
}
use gatewaysshd.Db.{User}
use gatewaysshd.Auth.{
  UserFlags, FlagsCache, user_flags_max_entries, user_flags_time_to_live, get_user_flags, make_room,
  put_user_flags, revoke_user_flags, flags_of,
}

pub record IsBounded (self : FlagsCache) : Type 0 where
  pub size : length self ≤ user_flags_max_entries
  pub distinct : Distinct self

abbrev fresh : ℕ → Text → UserFlags → Bool
fresh now _ flags = not (ltb flags.expires_at now)

length-make_room-lt :
    (self : FlagsCache) (now : ℕ) → length (make_room self now) < user_flags_max_entries
unfolding make_room
length-make_room-lt self now = ground arith

make_room-Distinct : (self : FlagsCache) (now : ℕ) → Distinct self → Distinct (make_room self now)
unfolding make_room
make_room-Distinct self now d = ground (arith, retain-Distinct (fresh now) self d)

make_room_sound :
    (self : FlagsCache) (now : ℕ) (user_id : Text) {flags : UserFlags}
    → Distinct self
    → lookup user_id (make_room self now) ≡ some flags
    → lookup user_id self ≡ some flags
unfolding make_room lookup
make_room_sound self now user_id {flags} d h =
    ground (arith, lookup-retain_sound (fresh now) user_id {v = flags} self d)

-- The cache stays within its limit, and holds each user once, whatever is read, stored or revoked.
pub put_user_flags-IsBounded :
    (self : FlagsCache) (user_id : Text) (user : User) (now : ℕ)
    → IsBounded self
    → IsBounded (put_user_flags self user_id user now)
unfolding put_user_flags
put_user_flags-IsBounded self user_id user now v = record {
  size = omega (
    arith,
    length-make_room-lt self now,
    length-insert-le user_id (flags_of user now) (make_room self now),
  );
  distinct = insert-Distinct user_id _ _ (make_room-Distinct self now v.distinct);
}

pub get_user_flags-IsBounded :
    (self : FlagsCache) (user_id : Text) (now : ℕ)
    → IsBounded self
    → IsBounded (get_user_flags self user_id now).0
unfolding get_user_flags
get_user_flags-IsBounded self user_id now v =
    ground (arith, length-delete-le user_id self, delete-Distinct user_id self v.distinct)

pub revoke_user_flags-IsBounded :
    (self : FlagsCache) (user_id : Text)
    → IsBounded self
    → IsBounded (revoke_user_flags user_id self)
unfolding revoke_user_flags
revoke_user_flags-IsBounded self user_id v = record {
  size = omega (arith, length-delete-le user_id self, v.size);
  distinct = delete-Distinct user_id self v.distinct;
}

-- Stored flags are answered for a minute and not after it.
pub get_user_flags-put_user_flags :
    (self : FlagsCache) (user_id : Text) (user : User) (now later : ℕ)
    → (get_user_flags (put_user_flags self user_id user now) user_id later).1
      ≡ (if ltb (now + user_flags_time_to_live) later then none else some (flags_of user now))
unfolding get_user_flags put_user_flags
get_user_flags-put_user_flags self user_id user now later =
    ground (arith, lookup-insert user_id user_id (flags_of user now) (make_room self now))

pub get_user_flags-revoke_user_flags :
    (self : FlagsCache) (user_id user : Text) (now : ℕ)
    → (get_user_flags (revoke_user_flags user_id self) user now).1
      ≡ (if user_id == user then none else (get_user_flags self user now).1)
unfolding get_user_flags revoke_user_flags
get_user_flags-revoke_user_flags self user_id user now =
    ground (arith, lookup-delete user_id user self)
