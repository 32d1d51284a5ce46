-- ===== src/Mock/Routes/Tests.antt =====
-- Requests at the simulated device, and the theorems at them.
use esphome_gplug.Base.{◌≡◌, refl, true, false, ◌&&◌, arith, if◌then◌else◌}
use esphome_gplug.Text.Utf8.{codes, utf8, bytes_eq}
use esphome_gplug.Text.Decimal.Value.{read_number}
use esphome_gplug.Service.{request, get, post, frame_raw, update_install}
use esphome_gplug.Mock.Update.{bad_auth, post_install}
use esphome_gplug.Mock.Update.Tests.{device}
use esphome_gplug.Mock.Routes.{
  dispatch, dispatch_path, split_query, is_get, or_table, match_frame, frame_number, frame_kind,
  strip, in_table, method_name, offline, page, missing, install_route,
}
use esphome_gplug.Mock.Routes.Served.{served, needs_api, request-served}
use esphome_gplug.Mock.Routes.Password.{install_route-password}

request-served_example :
    dispatch false (request (frame_raw 12)).method (request (frame_raw 12)).path
    ≡ (if false && needs_api (frame_raw 12) then offline else served (frame_raw 12))
request-served_example = request-served false (frame_raw 12)

others :
    (dispatch false get (codes "/index.html") ≡ page)
    × (dispatch false post (codes "/api/status") ≡ missing)
    × (dispatch false get (codes "/api/frames/1/hex") ≡ page)
unfolding dispatch dispatch_path split_query is_get or_table match_frame frame_number strip in_table
    method_name bytes_eq frame_kind read_number
others = (refl, refl, refl)

install_route-password_example :
    install_route (codes "geheim") (request (update_install (codes "Geheim"))).headers device ≡ (
      if bytes_eq (utf8 (codes "Geheim")) (utf8 (codes "geheim"))
      then post_install true device
      else (device, bad_auth))
install_route-password_example =
    install_route-password (codes "geheim") (codes "Geheim") device (λ e. absurd (ground arith))
      (ground arith) (ground arith)
