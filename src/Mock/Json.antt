-- ===== src/Mock/Json.antt =====
-- The JSON values that a request of spa/mock/server.mjs may hold for one key.
use esphome_gplug.Base.{ℕ, Bool, true, false, not, [], ◌∷◌, ◌==◌}
use esphome_gplug.Text.Utf8.{Text}

-- A whole number from 0 on is `int`; any other number is `other_number`, an array or object `composite`.
pub data Json : Type 0 where
  null : Json
  bool : Bool → Json
  int : ℕ → Json
  other_number : Json
  str : Text → Json
  composite : Json

-- `!!v`.
unfoldable pub truthy : Json → Bool
truthy null = false
truthy (bool b) = b
truthy (int n) = not (n == 0)
truthy other_number = true
truthy (str []) = false
truthy (str (c ∷ s)) = true
truthy composite = true
