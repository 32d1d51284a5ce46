-- ===== src/Setup/Wizard.antt =====
-- The wizard as a whole, the component `App` of spa/src/main.js: the page on screen, the presses of its
-- buttons and the answers of the device, in the order in which they happen.
pub mod Patient
use esphome_gplug.Base.{
  ℕ, zero, suc, ◌+◌, ◌-◌, Bool, true, false, Option, none, some, List, [], ◌∷◌, ◌==◌, if◌then◌else◌,
  any,
}
use esphome_gplug.Text.Utf8.{Text}
use esphome_gplug.Setup.Meter.{Choice}
use esphome_gplug.Setup.Route.{Route, live, wizard, Hash, parse_hash}

-- The step that `commit` saves.
pub data From : Type 0 where
  hardware meter : From

-- The component's state, with the commits that wait for an answer and those that the device accepted.
pub record App : Type 0 where
  pub route : Option Route
  pub step : ℕ
  pub choice : Choice
  pub pending : List From
  pub saved : List From

-- What is on screen once status and profiles are there; `STEPS`.
pub data Page : Type 0 where
  loading live_view welcome done : Page
  saving : From → Page

unfoldable pub step_page : ℕ → Page
step_page zero = welcome
step_page (suc zero) = saving hardware
step_page (suc (suc zero)) = saving meter
step_page _ = done

unfoldable pub page_in : Option Route → ℕ → Page
unfolding step_page
page_in none n = loading
page_in (some live) n = live_view
page_in (some wizard) n = step_page n

abbrev pub page : App → Page
page a = page_in a.route a.step

pub data Event : Type 0 where
  press_start press_back press_open_live : Event
  press_next : From → Event
  answer : From → Bool → Event
  hash_change : Text → Event

abbrev pub is_from : From → From → Bool
is_from hardware hardware = true
is_from meter meter = true
is_from _ _ = false

unfoldable pub remove : From → List From → List From
remove f [] = []
remove f (g ∷ rest) = let later = remove f rest in if is_from f g then rest else g ∷ later

-- The end of a commit that waits: an error leaves the step.
unfoldable pub settle : Bool → From → Bool → App → App
unfolding remove
settle false f accepted a = a
settle true f true a = record a {
  step = a.step + 1;
  pending = remove f a.pending;
  saved = f ∷ a.saved;
}
settle true f false a = record a { pending = remove f a.pending }

-- The end of `commit`.
unfoldable pub answered : From → Bool → App → App
answered f accepted a = settle (any (is_from f) a.pending) f accepted a

-- `onHash`.
unfoldable pub on_hash : Text → App → App
on_hash s a =
    let h = parse_hash s in
    elim h.route [
      | none ↦ a
      | some live ↦ record a { route = some live }
      | some wizard ↦ record a {
        route = some wizard;
        step = h.step;
        choice = record a.choice { key = []; keep_key = if h.new_key then false else true };
      }
    ]

-- A press of a button that the page has; on another page nothing happens.
unfoldable pub press : Event → Page → App → App
press press_start welcome a = record a { step = 1 }
press press_back (saving f) a = record a { step = a.step - 1 }
press press_open_live done a = record a { route = some live }
press (press_next f) (saving g) a = if is_from f g then record a { pending = f ∷ a.pending } else a
press _ _ a = a

unfoldable pub handle : App → Event → App
unfolding press answered on_hash
handle a (answer f accepted) = answered f accepted a
handle a (hash_change s) = on_hash s a
handle a e = press e (page a) a

unfoldable pub run : App → List Event → App
unfolding handle
run a [] = a
run a (e ∷ es) = run (handle a e) es
