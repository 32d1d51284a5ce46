-- ===== src/Mock/Routes/Password.antt =====
-- The password of an install, from the page to the simulated device.
use esphome_gplug.Base.{
  ℕ, All, ◌≡◌, ◌≢◌, refl, sym, ap, Bool, true, false, [], ◌∷◌, arith, if◌then◌else◌,
}
use mathlib.Core.Path.{◌∙◌}
use esphome_gplug.Text.Utf8.{Text, bytes_eq, utf8, utf8_char}
use esphome_gplug.Service.Auth.{IsCode, same_credentials}
use esphome_gplug.Mock.Update.{Device, bad_auth, post_install}
use esphome_gplug.Service.{request, options, credentials, update_install}
use esphome_gplug.Mock.Routes.{install_route, allowed, authorization}

no_bytes : (c : ℕ) (w : Text) → bytes_eq [] (utf8 (c ∷ w)) ≡ false
unfolding bytes_eq utf8 utf8_char
no_bytes c w = ground arith

post_install-cases :
    (b : Bool) (d : Device) → post_install b d ≡ (if b then post_install true d else (d, bad_auth))
unfolding post_install
post_install-cases true d = refl
post_install-cases false d = refl

allowed-same :
    (w p : Text)
    → w ≢ []
    → All IsCode w
    → All IsCode p
    → allowed w (authorization (request (update_install p)).headers) ≡ bytes_eq (utf8 p) (utf8 w)
unfolding allowed authorization request options credentials bytes_eq utf8
allowed-same [] p full hw hp = absurd (full refl)
allowed-same (c ∷ w) [] full hw hp = sym (no_bytes c w)
allowed-same (c ∷ w) (d ∷ p) full hw hp = same_credentials (d ∷ p) (c ∷ w) hp hw

-- When the device asks for a password, the page's request for an install is taken exactly if the
-- password that the user has typed has the same bytes: it does then what the route does without a
-- password, and with any other password it changes nothing and answers that the password is wrong.
pub install_route-password :
    (w p : Text) (d : Device)
    → w ≢ []
    → All IsCode w
    → All IsCode p
    → install_route w (request (update_install p)).headers d
      ≡ (if bytes_eq (utf8 p) (utf8 w) then post_install true d else (d, bad_auth))
unfolding install_route
install_route-password w p d full hw hp =
    ap (λ (b : Bool). post_install b d) (allowed-same w p full hw hp)
    ∙ post_install-cases (bytes_eq (utf8 p) (utf8 w)) d
