-- ===== src/Api/Screenshots.antt =====
-- cli/http.go and gateway/connection.go: a screenshot from the report to the browser.
use gatewaysshd.Common.{
  ℕ, ◌≡◌, true, [], ◌∷◌, Option, Text, ◌==◌, text_key, nat_key, if◌then◌else◌, arith, length,
}
use gatewaysshd.Errors.{ok, err, page_not_found}
use gatewaysshd.Connection.Usage.{UsageStats}
use gatewaysshd.Gateway.{Gateway}
use gatewaysshd.Db.{Db, update_user_screenshot}
use gatewaysshd.Db
use gatewaysshd.Db.Reports.{get_user_screenshot-update_user_screenshot}
use gatewaysshd.Api.{
  Content, Response, status, png, screenshot, screenshot_of, get_user_screenshot, handle,
  wrap_http_handler, respond,
}

-- The answer for an image.
abbrev pub image_response : Text → Response
image_response [] = status 404
image_response (c ∷ image) = png (c ∷ image)

image_answer :
    (marshal : Content → Option Text) (image : Text)
    → wrap_http_handler marshal
        (if length image == 0 then err page_not_found else ok (screenshot image))
      ≡ image_response image
unfolding wrap_http_handler
image_answer marshal [] = ground arith
image_answer marshal (c ∷ image) = ground arith

respond-screenshot_of :
    (marshal : Content → Option Text) (usage : ℕ → UsageStats) (gateway : Gateway) (db : Db)
    (now : ℕ) (asked : Text)
    → respond marshal usage true gateway db now (screenshot_of asked)
      ≡ image_response (Db.get_user_screenshot db asked)
unfolding respond handle get_user_screenshot
respond-screenshot_of marshal usage gateway db now asked =
    image_answer marshal (Db.get_user_screenshot db asked)

-- After a screenshot of a user was stored, the server answers with that image where it is asked for
-- that user's, and for any other user as before; no image is answered by the status 404.
pub respond-update_user_screenshot :
    (marshal : Content → Option Text) (usage : ℕ → UsageStats) (gateway : Gateway) (db : Db)
    (stored_at now : ℕ) (user_id image : Text) {db' : Db} (asked : Text)
    → update_user_screenshot db user_id image stored_at ≡ ok db'
    → respond marshal usage true gateway db' now (screenshot_of asked) ≡ (
        if asked == user_id
        then image_response image
        else respond marshal usage true gateway db now (screenshot_of asked))
respond-update_user_screenshot marshal usage gateway db stored_at now user_id image {db'} asked h =
    ground (
      arith,
      get_user_screenshot-update_user_screenshot db user_id image stored_at {db' = db'} asked h,
      respond-screenshot_of marshal usage gateway db now asked,
      respond-screenshot_of marshal usage gateway db' now asked,
    )
