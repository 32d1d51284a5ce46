-- ===== src/Live/Stream/Rounds.antt =====
-- The stream tab at a device, round by round: a poll, and then what the user does until the next one.
-- Every text that is asked for comes before anything else happens, and as the device has it.
use esphome_gplug.Base.{
  ℕ, ◌≡◌, refl, sym, ap, ap₂, ◌⊎◌, inl, inr, Bool, true, false, Bool-cases, Option, none, some,
  List, [], ◌∷◌, ◌==◌, ◌&&◌, not, arith, if◌then◌else◌,
}
use mathlib.Core.Path.{subst, ◌∙◌}
use esphome_gplug.Text.Utf8.{Text}
use esphome_gplug.Live.Stream.{
  Form, raw, plain, same_form, Listing, Tab, Cache, no_texts, set_text, Asked, ask, ask_open,
  ask_again, toggle_open, pick_mode, toggle_sel, select_all, fill_pane, moved, drop_texts, polled,
  text_came, first_of, head_of, is_open,
}

pub data Act : Type 0 where
  toggle select : ℕ → Act
  pick : Form → Act
  fill all : Act

-- What an act does on its own, and what it asks for.
unfoldable pub do_act : Bool → Listing → Act → Tab → Tab × Asked
unfolding toggle_open pick_mode toggle_sel fill_pane select_all
do_act wide l (toggle i) tab = toggle_open wide i tab
do_act wide l (select i) tab = (toggle_sel i tab, [])
do_act wide l (pick k) tab = pick_mode k tab
do_act wide l fill tab = fill_pane wide tab
do_act wide l all tab = (select_all l tab, [])

-- A round: the poll's time and answer, how many frames the device had received by then, and the acts.
pub record Round : Type 0 where
  pub now : ℕ
  pub listing : Listing
  pub n : ℕ
  pub acts : List Act

same_form_refl : (k : Form) → same_form k k ≡ true
unfolding same_form
same_form_refl raw = refl
same_form_refl plain = refl

same_form-eq : (k m : Form) → same_form m k ≡ true → m ≡ k
unfolding same_form
same_form-eq raw raw h = refl
same_form-eq plain plain h = refl
same_form-eq raw plain h = absurd (ground arith)
same_form-eq plain raw h = absurd (ground arith)

set_text-same : (i : ℕ) (k : Form) (x : Text) (c : Cache) → set_text i k x c i k ≡ some x
unfolding set_text
set_text-same i k x c = rw (same_form_refl k) (ground arith)

-- The texts of the device: by the number of frames that it has received, a position and a form.
module _ (wide : Bool) (content : ℕ → ℕ → Form → Text) where
  unfoldable pub answer_all : ℕ → Asked → Tab → Tab
  unfolding text_came
  answer_all n [] tab = tab
  answer_all n ((i, k) ∷ rest) tab = answer_all n rest (text_came i k (content n i k) tab)

  unfoldable pub settled : ℕ → Tab × Asked → Tab
  unfolding answer_all
  settled n r = answer_all n (r.1) (r.0)

  unfoldable pub do_acts : ℕ → Listing → List Act → Tab → Tab
  unfolding settled do_act
  do_acts n l [] tab = tab
  do_acts n l (a ∷ rest) tab = do_acts n l rest (settled n (do_act wide l a tab))

  unfoldable pub round : Round → Tab → Tab
  unfolding do_acts polled settled
  round r tab = do_acts r.n r.listing r.acts (settled r.n (polled r.now r.listing tab))

  -- A cached text, if there is one, is the device's.
  abbrev pub Agrees : Option Text → Text → Type 0
  Agrees none x = Unit {0}
  Agrees (some y) x = y ≡ x

  abbrev pub CacheAgrees : ℕ → Cache → Type 0
  CacheAgrees n c = (i : ℕ) (k : Form) → Agrees (c i k) (content n i k)

  -- The text of the open position is there, and is the device's.
  abbrev pub OpenIsShown : ℕ → Cache → Option ℕ → Form → Type 0
  OpenIsShown n c none k = Unit {0}
  OpenIsShown n c (some i) k = c i k ≡ some (content n i k)

  abbrev pub IsCurrent : ℕ → Tab → Type 0
  IsCurrent n tab = CacheAgrees n tab.cache × OpenIsShown n tab.cache tab.open_at tab.mode

  same_content :
      (n i j : ℕ) (k m : Form) → (j == i && same_form m k) ≡ true → content n i k ≡ content n j m
  same_content n i j k m h = ap₂ (content n) (ground arith) (sym (same_form-eq k m (ground arith)))

  in_cache :
      (n i : ℕ) (k : Form) (x : Text) (o : Option Text)
      → o ≡ some x
      → Agrees o (content n i k)
      → x ≡ content n i k
  in_cache n i k x none e h = absurd (ground arith)
  in_cache n i k x (some y) e h = cc

  -- What is answered of a text that is asked for if it is not in the cache.
  set_text-Agrees :
      (n i j : ℕ) (k m : Form) (c : Cache)
      → Agrees (c j m) (content n j m)
      → Agrees (set_text i k (content n i k) c j m) (content n j m)
  unfolding set_text
  set_text-Agrees n i j k m c h = elim (Bool-cases (j == i && same_form m k)) [
    | inl hit ↦ rw hit (same_content n i j k m hit)
    | inr miss ↦ rw miss h
  ]

  came-CacheAgrees :
      (n i : ℕ) (k : Form) (tab : Tab)
      → CacheAgrees n tab.cache
      → CacheAgrees n ((text_came i k (content n i k) tab).cache)
  unfolding text_came
  came-CacheAgrees n i k tab h j m = set_text-Agrees n i j k m tab.cache (h j m)

  -- The position that is opened is shown once what is asked for has come.
  ask-IsCurrent :
      (n i : ℕ) (k : Form) (o : Option Text) (tab : Tab)
      → tab.cache i k ≡ o
      → CacheAgrees n tab.cache
      → IsCurrent n (answer_all n (ask o i k) (record tab { open_at = some i; mode = k }))
  unfolding answer_all ask text_came
  ask-IsCurrent n i k none tab e h =
      (came-CacheAgrees n i k tab h, set_text-same i k (content n i k) tab.cache)
  ask-IsCurrent n i k (some x) tab e h =
      (h, e ∙ ap some (in_cache n i k x (tab.cache i k) e (h i k)))

  -- Opening a position, or none, in a form.
  focus-IsCurrent :
      (n : ℕ) (next : Option ℕ) (k : Form) (tab : Tab)
      → CacheAgrees n tab.cache
      → IsCurrent n
          (answer_all n (ask_open tab.cache next k) (record tab { open_at = next; mode = k }))
  unfolding ask_open answer_all
  focus-IsCurrent n none k tab h = (h, tt)
  focus-IsCurrent n (some i) k tab h = ask-IsCurrent n i k (tab.cache i k) tab refl h

  toggle-IsCurrent :
      (n i : ℕ) (tab : Tab) → IsCurrent n tab → IsCurrent n (settled n (toggle_open wide i tab))
  unfolding settled toggle_open
  toggle-IsCurrent n i tab h =
      focus-IsCurrent n (if is_open tab.open_at i && not wide then none else some i) tab.mode tab
        (h.0)

  if-IsCurrent :
      (n : ℕ) (b : Bool) (r : Tab × Asked) (tab : Tab)
      → IsCurrent n (settled n r)
      → IsCurrent n tab
      → IsCurrent n (settled n (if b then r else (tab, [])))
  unfolding settled answer_all
  if-IsCurrent n true r tab h g = h
  if-IsCurrent n false r tab h g = g

  act-IsCurrent :
      (n : ℕ) (l : Listing) (a : Act) (tab : Tab)
      → IsCurrent n tab
      → IsCurrent n (settled n (do_act wide l a tab))
  unfolding do_act settled answer_all pick_mode toggle_sel fill_pane select_all
  act-IsCurrent n l (toggle i) tab h = toggle-IsCurrent n i tab h
  act-IsCurrent n l (select i) tab h = h
  act-IsCurrent n l (pick k) tab h = focus-IsCurrent n tab.open_at k tab (h.0)
  act-IsCurrent n l fill tab h =
      if-IsCurrent n _ (toggle_open wide 0 tab) tab (toggle-IsCurrent n 0 tab h) h
  act-IsCurrent n l all tab h = h

  pub acts-IsCurrent :
      (n : ℕ) (l : Listing) (as' : List Act) (tab : Tab)
      → IsCurrent n tab
      → IsCurrent n (do_acts n l as' tab)
  unfolding do_acts
  acts-IsCurrent n l [] tab h = h
  acts-IsCurrent n l (a ∷ rest) tab h =
      acts-IsCurrent n l rest (settled n (do_act wide l a tab)) (act-IsCurrent n l a tab h)

  again-IsCurrent :
      (n : ℕ) (o : Option ℕ) (tab : Tab)
      → IsCurrent n
          (answer_all n (ask_again o tab.mode) (record tab { cache = no_texts; open_at = o }))
  unfolding ask_again answer_all text_came
  again-IsCurrent n none tab = (λ j m. tt, tt)
  again-IsCurrent n (some i) tab = (
    λ j m. set_text-Agrees n i j tab.mode m no_texts tt,
    set_text-same i tab.mode (content n i tab.mode) no_texts,
  )

  -- A poll that drops the texts.
  drop-IsCurrent : (n : ℕ) (tab : Tab) → IsCurrent n (settled n (drop_texts true tab))
  unfolding settled drop_texts answer_all
  drop-IsCurrent n tab = again-IsCurrent n tab.open_at tab

  -- After a poll that drops the texts, or that finds as many frames received as the one before.
  pub poll-IsCurrent :
      (n m now : ℕ) (l : Listing) (tab : Tab)
      → IsCurrent n tab
      → ((m ≡ n) ⊎ (moved tab.head (first_of l.list) l.count now ≡ true))
      → IsCurrent m (settled m (polled now l tab))
  unfolding polled settled answer_all
  poll-IsCurrent n m now l tab h seen = by_cases (moved tab.head (first_of l.list) l.count now) seen
    where
      next : Tab
      next = record tab {
        frames = some l;
        err = none;
        head = head_of (first_of l.list) l.count now;
      }

      by_cases : (b : Bool) → ((m ≡ n) ⊎ (b ≡ true)) → IsCurrent m (settled m (drop_texts b next))
      by_cases true s = drop-IsCurrent m next
      by_cases false (inl e) = subst (λ (j : ℕ). IsCurrent j tab) (sym e) h
      by_cases false (inr e) = absurd (ground arith)
