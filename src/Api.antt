-- ===== src/Api.antt =====
-- cli/http.go, and GetUser, GetUserScreenshot and the listing response of gateway/gateway.go: what the
-- http server answers. The router of gorilla/mux gives the route of a request, and `marshal` is the
-- encoder of json.
pub mod Users
pub mod Screenshots
use gatewaysshd.Common.{
  ℕ, Bool, true, false, ◌||◌, List, [], ◌∷◌, Option, none, some, Text, ◌==◌, text_key, nat_key,
  if◌then◌else◌, ltb, length, map, select,
}
use gatewaysshd.Common.Dict.{Dict}
use gatewaysshd.Errors.{Error, Result, ok, err, page_not_found, database_failed}
use gatewaysshd.Connection.Usage.{UsageStats}
use gatewaysshd.Connection.Status.{ConnectionStatus, gather_status}
use gatewaysshd.Gateway.{Gateway}
use gatewaysshd.Gateway.Index.{of_user}
use gatewaysshd.Db.{User, Db}
use gatewaysshd.Db
use gatewaysshd.Heartbeat.{is_user_online, list_users_online}

-- A user of the database with its fields Online and Connections.
pub record UserView : Type 0 where
  pub user : User
  pub online : Bool
  pub connections : List ConnectionStatus

-- userListResponse.
pub record UserList : Type 0 where
  pub users : Dict Text (User × Bool)
  pub total_count : ℕ

unfoldable pub user_list_response : Dict Text (User × Bool) → UserList
user_list_response users = record { users = users; total_count = length users }

-- What a handler gives to be encoded or written.
pub data Content : Type 0 where
  user_list : UserList → Content
  one_user : UserView → Content
  screenshot : Text → Content

pub data Response : Type 0 where
  status : ℕ → Response
  json png : Text → Response

pub data Route : Type 0 where
  all_users unknown : Route
  user_of screenshot_of : Text → Route

-- The usage counters of the connections, whether the database is in reach, and the time.
module _ (usage : ℕ → UsageStats) (reachable : Bool) (gateway : Gateway) (db : Db) (now : ℕ) where
  unfoldable pub list_users : Result UserList
  unfolding user_list_response
  list_users =
      if reachable
      then ok (user_list_response (list_users_online gateway db now))
      else err database_failed

  -- The statuses of the connections of a user, and whether it has any or a fresh heartbeat.
  unfoldable pub view_user : Text → User → UserView
  view_user user_id user =
      let connections =
        map (λ c. gather_status (gateway.store c) (usage c) now) (of_user gateway user_id) in
      record {
        user = user;
        online = ltb 0 (length connections) || is_user_online now user;
        connections = connections;
      }

  -- gateway.GetUser, which gives nothing for an unknown user.
  unfoldable pub get_user : Text → Result (Option UserView)
  unfolding view_user
  get_user user_id =
      if reachable
      then elim (Db.get_user db user_id) [
        | none ↦ ok none
        | some user ↦ ok (some (view_user user_id user))
      ]
      else err database_failed

  -- gateway.GetUserScreenshot.
  unfoldable pub get_user_screenshot : Text → Result Text
  get_user_screenshot user_id =
      if reachable then ok (Db.get_user_screenshot db user_id) else err database_failed

  -- The handlers of newHttpHandler.
  unfoldable pub handle : Route → Result Content
  unfolding list_users get_user get_user_screenshot
  handle all_users = elim list_users [ err e ↦ err e | ok users ↦ ok (user_list users) ]
  handle (user_of user_id) = elim (get_user user_id) [
    | err e ↦ err e
    | ok none ↦ err page_not_found
    | ok (some user) ↦ ok (one_user user)
  ]
  handle (screenshot_of user_id) = elim (get_user_screenshot user_id) [
    | err e ↦ err e
    | ok image ↦ if length image == 0 then err page_not_found else ok (screenshot image)
  ]
  handle unknown = err page_not_found

-- wrapHttpHandler: errors get a status, an image is written as it is, and all else as json.
abbrev error_status : Error → ℕ
error_status page_not_found = 404
error_status e = 500

unfoldable pub wrap_http_handler : (Content → Option Text) → Result Content → Response
wrap_http_handler marshal (err e) = status (error_status e)
wrap_http_handler marshal (ok (screenshot image)) = png image
wrap_http_handler marshal (ok (user_list users)) = elim (marshal (user_list users)) [
  | none ↦ status 500
  | some raw ↦ json raw
]
wrap_http_handler marshal (ok (one_user user)) = elim (marshal (one_user user)) [
  | none ↦ status 500
  | some raw ↦ json raw
]

unfoldable pub respond :
    (Content → Option Text) → (ℕ → UsageStats) → Bool → Gateway → Db → ℕ → Route → Response
unfolding handle wrap_http_handler
respond marshal usage reachable gateway db now route =
    wrap_http_handler marshal (handle usage reachable gateway db now route)
