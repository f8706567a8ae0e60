-- ===== src/Tests/Pages.antt =====
-- Tests of the http server.
use gatewaysshd.Common.{◌≡◌, refl, true, none, codes, text_key, ◌==◌, if◌then◌else◌}
use gatewaysshd.Errors.{ok, err}
use gatewaysshd.Connection.Usage.{new_usage}
use gatewaysshd.Db.{Db, update_user_screenshot, update_user_column}
use gatewaysshd.Api.{respond, screenshot_of}
use gatewaysshd.Api.Screenshots.{image_response, respond-update_user_screenshot}
use gatewaysshd.Tests.{program, alice, gateway, db}

program' : Unit {0}
unfolding program update_user_screenshot update_user_column
program' = tt

abbrev with_image : Db
with_image = elim (update_user_screenshot db alice (codes "png") 300) [ ok db' ↦ db' | err e ↦ db ]

stored : update_user_screenshot db alice (codes "png") 300 ≡ ok with_image
unfolding program'
stored = refl

respond-update_user_screenshot_example :
    respond (λ content. none) (λ c. new_usage 1) true gateway with_image 400 (screenshot_of alice)
    ≡ (if alice == alice
        then image_response (codes "png")
        else respond (λ content. none) (λ c. new_usage 1) true gateway db 400 (screenshot_of alice))
respond-update_user_screenshot_example =
    respond-update_user_screenshot (λ content. none) (λ c. new_usage 1) gateway db 300 400 alice
      (codes "png") {db' = with_image} alice stored
