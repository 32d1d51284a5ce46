-- ===== src/Setup/Wizard/Patient.antt =====
-- Runs of the wizard.
use esphome_gplug.Base.{
  ℕ, zero, suc, ◌≤◌, ◌≡◌, refl, Bool, true, false, Option, none, some, List, [], ◌∷◌, if◌then◌else◌,
  any, arith,
}
use mathlib.Core.Path.{subst, sym}
use esphome_gplug.Text.Utf8.{Text}
use esphome_gplug.Setup.Route.{Route, live, wizard, parse_hash, step_of}
use esphome_gplug.Setup.Wizard.{
  From, hardware, meter, App, Page, welcome, done, saving, step_page, page_in, page, Event,
  press_start, press_back, press_open_live, press_next, answer, hash_change, is_from, remove,
  settle, answered, on_hash, press, handle, run,
}

abbrev pub is_answer : Event → Bool
is_answer (answer f accepted) = true
is_answer _ = false

-- A user who waits for the answer to a commit before doing anything else.
abbrev pub Waits : List From → Event → Type 0
Waits [] e = Unit
Waits (f ∷ rest) e = is_answer e ≡ true

unfoldable pub Patient : App → List Event → Type 0
unfolding run
Patient a [] = Unit
Patient a (e ∷ es) = Waits a.pending e × Patient (handle a e) es

-- The commit that waits is the one of the step on screen.
abbrev pub PendingAt : ℕ → List From → Type 0
PendingAt step [] = Unit
PendingAt step (hardware ∷ []) = step ≡ 1
PendingAt step (meter ∷ []) = step ≡ 2
PendingAt step _ = ⊥

pub record IsOrderly (a : App) : Type 0 where
  pub in_steps : a.step ≤ 3
  pub pending_at : PendingAt a.step a.pending
  pub done_saved : a.step ≡ 3 → any (is_from meter) a.saved ≡ true

PageStep : Page → ℕ → Type 0
PageStep (saving hardware) n = n ≡ 1
PageStep (saving meter) n = n ≡ 2
PageStep _ n = Unit

step_page-PageStep : (n : ℕ) → PageStep (step_page n) n
unfolding PageStep step_page
step_page-PageStep zero = tt
step_page-PageStep (suc zero) = refl
step_page-PageStep (suc (suc zero)) = refl
step_page-PageStep (suc (suc (suc n))) = tt

page_in-PageStep : (r : Option Route) (n : ℕ) → PageStep (page_in r n) n
unfolding PageStep page_in
page_in-PageStep none n = tt
page_in-PageStep (some live) n = tt
page_in-PageStep (some wizard) n = step_page-PageStep n

-- A press when no commit waits.
press-IsOrderly :
    (e : Event) (p : Page) (a : App)
    → PageStep p a.step
    → a.pending ≡ []
    → IsOrderly a
    → IsOrderly (press e p a)
unfolding press PageStep
press-IsOrderly press_start welcome a at idle v = record {
  in_steps = omega arith;
  pending_at = rw idle tt;
  done_saved = λ h. absurd (omega arith);
}
press-IsOrderly press_back (saving f) a at idle v = record {
  in_steps = omega (arith, v.in_steps);
  pending_at = rw idle tt;
  done_saved = λ h. absurd (omega (arith, v.in_steps));
}
press-IsOrderly press_open_live done a at idle v = record {
  in_steps = v.in_steps;
  pending_at = v.pending_at;
  done_saved = v.done_saved;
}
press-IsOrderly (press_next hardware) (saving hardware) a at idle v = record {
  in_steps = v.in_steps;
  pending_at = rw idle at;
  done_saved = v.done_saved;
}
press-IsOrderly (press_next meter) (saving meter) a at idle v = record {
  in_steps = v.in_steps;
  pending_at = rw idle at;
  done_saved = v.done_saved;
}
press-IsOrderly _ _ a at idle v = v

-- An answer that is awaited.
settle-IsOrderly :
    (f : From) (accepted : Bool) (a : App)
    → a.pending ≡ f ∷ []
    → IsOrderly a
    → IsOrderly (settle true f accepted a)
unfolding settle
settle-IsOrderly hardware true a e v = record {
  in_steps = omega (arith, rw e at v.pending_at);
  pending_at = rw e tt;
  done_saved = λ h. absurd (omega (arith, rw e at v.pending_at));
}
settle-IsOrderly meter true a e v = record {
  in_steps = omega (arith, rw e at v.pending_at);
  pending_at = rw e tt;
  done_saved = λ h. refl;
}
settle-IsOrderly hardware false a e v = record {
  in_steps = v.in_steps;
  pending_at = rw e tt;
  done_saved = v.done_saved;
}
settle-IsOrderly meter false a e v = record {
  in_steps = v.in_steps;
  pending_at = rw e tt;
  done_saved = v.done_saved;
}

-- An answer, whether it is awaited or not.
answered-IsOrderly :
    (f : From) (accepted : Bool) (a : App) (waiting : List From)
    → a.pending ≡ waiting
    → IsOrderly a
    → IsOrderly (answered f accepted a)
unfolding answered settle
answered-IsOrderly f accepted a [] e v =
    subst (λ (l : List From). IsOrderly (settle (any (is_from f) l) f accepted a)) (sym e) v
answered-IsOrderly hardware accepted a (hardware ∷ []) e v =
    subst (λ (l : List From). IsOrderly (settle (any (is_from hardware) l) hardware accepted a))
      (sym e) (settle-IsOrderly hardware accepted a e v)
answered-IsOrderly meter accepted a (meter ∷ []) e v =
    subst (λ (l : List From). IsOrderly (settle (any (is_from meter) l) meter accepted a)) (sym e)
      (settle-IsOrderly meter accepted a e v)
answered-IsOrderly meter accepted a (hardware ∷ []) e v =
    subst (λ (l : List From). IsOrderly (settle (any (is_from meter) l) meter accepted a)) (sym e) v
answered-IsOrderly hardware accepted a (meter ∷ []) e v =
    subst (λ (l : List From). IsOrderly (settle (any (is_from hardware) l) hardware accepted a))
      (sym e) v
answered-IsOrderly f accepted a (hardware ∷ g ∷ rest) e v = absurd (rw e at v.pending_at)
answered-IsOrderly f accepted a (meter ∷ g ∷ rest) e v = absurd (rw e at v.pending_at)

step_of-le : (s : Text) → step_of s ≤ 2
unfolding step_of
step_of-le s = grind arith

hash-step : (s : Text) → (parse_hash s).step ≤ 2
unfolding parse_hash
hash-step s = grind (arith, step_of-le)

on_hash-IsOrderly : (s : Text) (a : App) → a.pending ≡ [] → IsOrderly a → IsOrderly (on_hash s a)
unfolding on_hash
on_hash-IsOrderly s a idle v = by_route (parse_hash s).route refl
  where
    opened : IsOrderly (record a {
      route = some wizard;
      step = (parse_hash s).step;
      choice = record a.choice {
        key = [];
        keep_key = if (parse_hash s).new_key then false else true;
      };
    })
    opened = record {
      in_steps = omega (arith, hash-step s);
      pending_at = rw idle tt;
      done_saved = λ h. absurd (omega (arith, hash-step s));
    }

    by_route : (r : Option Route) → (parse_hash s).route ≡ r → IsOrderly (on_hash s a)
    by_route none e = rw (e, on_hash) v
    by_route (some live) e =
        rw (e, on_hash)
          (record { in_steps = v.in_steps; pending_at = v.pending_at; done_saved = v.done_saved })
    by_route (some wizard) e = rw (e, on_hash) opened

idle : (l : List From) (e : Event) → is_answer e ≡ false → Waits l e → l ≡ []
idle [] e h w = refl
idle (f ∷ rest) e h w = absurd (ground arith)

handle-IsOrderly : (a : App) (e : Event) → Waits a.pending e → IsOrderly a → IsOrderly (handle a e)
unfolding handle
handle-IsOrderly a (answer f accepted) w v = answered-IsOrderly f accepted a a.pending refl v
handle-IsOrderly a (hash_change s) w v =
    on_hash-IsOrderly s a (idle a.pending (hash_change s) refl w) v
handle-IsOrderly a press_start w v =
    press-IsOrderly press_start (page a) a (page_in-PageStep a.route a.step)
      (idle a.pending press_start refl w) v
handle-IsOrderly a press_back w v =
    press-IsOrderly press_back (page a) a (page_in-PageStep a.route a.step)
      (idle a.pending press_back refl w) v
handle-IsOrderly a press_open_live w v =
    press-IsOrderly press_open_live (page a) a (page_in-PageStep a.route a.step)
      (idle a.pending press_open_live refl w) v
handle-IsOrderly a (press_next f) w v =
    press-IsOrderly (press_next f) (page a) a (page_in-PageStep a.route a.step)
      (idle a.pending (press_next f) refl w) v

-- From a wizard that does so, and when every commit is answered before the user does anything else:
-- the wizard stays within its four steps, a commit that waits is the one of the step on screen, and
-- on the last step the device has accepted a meter profile.
pub run-IsOrderly : (a : App) (es : List Event) → Patient a es → IsOrderly a → IsOrderly (run a es)
unfolding run Patient
run-IsOrderly a [] w v = v
run-IsOrderly a (e ∷ es) (w, ws) v = run-IsOrderly (handle a e) es ws (handle-IsOrderly a e w v)

-- The meter step can be left out: from the hardware step, with nothing pending, a second press of
-- "next" before the first answer makes two accepting answers lead to the last step, with only the
-- hardware saved twice.
pub double_next :
    (a : App)
    → a.route ≡ some wizard
    → a.step ≡ 1
    → a.pending ≡ []
    → run a (
        press_next hardware
        ∷ press_next hardware
        ∷ answer hardware true
        ∷ answer hardware true
        ∷ [])
      ≡ record a { step = 3; pending = []; saved = hardware ∷ hardware ∷ a.saved }
unfolding run handle press answered settle remove page_in step_page
double_next a on at idle_now = rw (on, at, idle_now) refl
