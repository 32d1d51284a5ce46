-- ===== src/Setup/Route.antt =====
-- The routes in the fragment of the address: `parseHash` of spa/src/main.js.
use esphome_gplug.Base.{ℕ, Bool, false, not, Option, none, some, List, [], ◌∷◌, ◌==◌, if◌then◌else◌}
use esphome_gplug.Text.Utf8.{Text, codes, bytes_eq}

pub data Route : Type 0 where
  live wizard : Route

-- `split("/")`.
unfoldable pub split_slash : Text → Text × List Text
split_slash [] = ([], [])
split_slash (c ∷ s) =
    let (head, rest) = split_slash s in if c == 47 then ([], head ∷ rest) else (c ∷ head, rest)

pub record Hash : Type 0 where
  pub route : Option Route
  pub step : ℕ
  pub new_key : Bool

abbrev pub first_of : List Text → Text
first_of [] = []
first_of (s ∷ rest) = s

-- The step that the second part names.
unfoldable pub step_of : Text → ℕ
step_of sub =
    if bytes_eq sub (codes "hardware")
    then 1
    else if bytes_eq sub (codes "meter")
    then 2
    else if bytes_eq sub (codes "key")
    then 2
    else 0

-- `parseHash` of the fragment without its `#`; a part that is missing is taken as an empty one, which
-- names no step either.
unfoldable pub parse_hash : Text → Hash
unfolding split_slash step_of
parse_hash hash =
    let (r, subs) = split_slash hash in
    if bytes_eq r (codes "live")
    then record { route = some live; step = 0; new_key = false }
    else if not (bytes_eq r (codes "setup"))
    then record { route = none; step = 0; new_key = false }
    else record {
      route = some wizard;
      step = step_of (first_of subs);
      new_key = bytes_eq (first_of subs) (codes "key");
    }
