-- ===== src/Live/Stream/Current.antt =====
-- The stream tab polled for a while: its texts and the headers above them.
use esphome_gplug.Base.{
  ℕ, zero, suc, ◌+◌, ◌≤◌, ◌<◌, ◌≡◌, refl, sym, ap, ap₂, ◌⊎◌, inl, inr, Bool, true, false,
  Bool-cases, ◌==◌, Option, none, some, List, [], ◌∷◌, arith, if◌then◌else◌,
}
use mathlib.Core.Path.{subst, ◌∙◌}
use esphome_gplug.Text.Utf8.{Text}
use esphome_gplug.Live.Stream.{
  Form, Frame, Listing, Head, Tab, Asked, opened, toggle_open, pick_mode, toggle_sel, select_all,
  fill_pane, moved, drop_texts, polled, text_came, first_of, head_of,
}
use esphome_gplug.Live.Stream.Moved.{IsAge, moved-later}
use esphome_gplug.Live.Stream.Rounds.{
  Act, toggle, select, pick, fill, all, do_act, Round, answer_all, settled, do_acts, round,
  IsCurrent, poll-IsCurrent, acts-IsCurrent,
}

module _ (wide : Bool) (content : ℕ → ℕ → Form → Text) where
  -- That neither the listing nor what the next poll is compared with has changed.
  Keeps : Tab → Tab → Type 0
  Keeps tab next = (next.frames ≡ tab.frames) × (next.head ≡ tab.head)

  answer_all-Keeps :
      (n : ℕ) (asked : Asked) (tab : Tab) → Keeps tab (answer_all wide content n asked tab)
  unfolding Keeps answer_all text_came
  answer_all-Keeps n [] tab = (refl, refl)
  answer_all-Keeps n (x ∷ rest) tab =
      answer_all-Keeps n rest (text_came (x.0) (x.1) (content n (x.0) (x.1)) tab)

  if-Keeps :
      (n : ℕ) (b : Bool) (r : Tab × Asked) (tab : Tab)
      → Keeps tab (settled wide content n r)
      → Keeps tab (settled wide content n (if b then r else (tab, [])))
  unfolding Keeps settled answer_all
  if-Keeps n true r tab h = h
  if-Keeps n false r tab h = (refl, refl)

  toggle-Keeps : (n i : ℕ) (tab : Tab) → Keeps tab (settled wide content n (toggle_open wide i tab))
  unfolding Keeps settled toggle_open
  toggle-Keeps n i tab =
      answer_all-Keeps n ((toggle_open wide i tab).1) ((toggle_open wide i tab).0)

  act-Keeps :
      (n : ℕ) (l : Listing) (a : Act) (tab : Tab)
      → Keeps tab (settled wide content n (do_act wide l a tab))
  unfolding Keeps do_act settled pick_mode answer_all toggle_sel select_all fill_pane
  act-Keeps n l (toggle i) tab = toggle-Keeps n i tab
  act-Keeps n l (select i) tab = (refl, refl)
  act-Keeps n l (pick k) tab = answer_all-Keeps n ((pick_mode k tab).1) ((pick_mode k tab).0)
  act-Keeps n l fill tab = if-Keeps n _ (toggle_open wide 0 tab) tab (toggle-Keeps n 0 tab)
  act-Keeps n l all tab = (refl, refl)

  acts-Keeps :
      (n : ℕ) (l : Listing) (as' : List Act) (tab : Tab)
      → Keeps tab (do_acts wide content n l as' tab)
  unfolding Keeps do_acts
  acts-Keeps n l [] tab = (refl, refl)
  acts-Keeps n l (a ∷ rest) tab =
      let next = settled wide content n (do_act wide l a tab) in
      let (f, h) = act-Keeps n l a tab in let (g, k) = acts-Keeps n l rest next in (g ∙ f, k ∙ h)

module _ (wide : Bool) (content : ℕ → ℕ → Form → Text) (arrival : ℕ → ℕ) where
  -- A poll's answer of a device that has frames: the newest one's age is right.
  pub record HasFrames (r : Round) : Type 0 where
    pub newest : Frame
    pub others : List Frame
    pub list_is : r.listing.list ≡ newest ∷ others
    pub age_is : IsAge (arrival r.n) r.now newest.age

  -- The rounds from a time on at which `n` frames had come.
  abbrev pub Follows : ℕ → ℕ → List Round → Type 0
  Follows n t [] = Unit {0}
  Follows n t (r ∷ rest) = (n ≤ r.n) × (t ≤ r.now) × HasFrames r × Follows r.n r.now rest

  abbrev pub rounds : List Round → Tab → Tab
  rounds [] tab = tab
  rounds (r ∷ rest) tab = rounds rest (round wide content r tab)

  abbrev pub latest : Round → List Round → Round
  latest r [] = r
  latest r (q ∷ rest) = latest q rest

  -- The state after a round: its listing is drawn, the next poll is compared with it, and the texts are
  -- those that the device has.
  pub record IsUpToDate (r : Round) (tab : Tab) : Type 0 where
    pub drawn : tab.frames ≡ some r.listing
    pub prev : Head
    pub head_is : tab.head ≡ some prev
    pub time_is : prev.t ≡ r.now
    pub prev_is : IsAge (arrival r.n) prev.t prev.age
    pub current : IsCurrent wide content r.n tab

  -- What a poll leaves, whether or not it drops the texts.
  dropped :
      (m : ℕ) (b : Bool) (tab : Tab)
      → Keeps wide content tab (settled wide content m (drop_texts b tab))
  unfolding Keeps drop_texts settled answer_all
  dropped m true tab =
      answer_all-Keeps wide content m ((drop_texts true tab).1) ((drop_texts true tab).0)
  dropped m false tab = (refl, refl)

  polled-drawn :
      (r : Round) (tab : Tab)
      → let next = settled wide content r.n (polled r.now r.listing tab) in
        (next.frames ≡ some r.listing)
        × (next.head ≡ head_of (first_of r.listing.list) r.listing.count r.now)
  unfolding polled Keeps
  polled-drawn r tab =
      dropped r.n (moved tab.head (first_of r.listing.list) r.listing.count r.now) (record tab {
        frames = some r.listing;
        err = none;
        head = head_of (first_of r.listing.list) r.listing.count r.now;
      })

  head-newest :
      (r : Round) (h : HasFrames r)
      → head_of (first_of r.listing.list) r.listing.count r.now
        ≡ some (record { age = h.newest.age; count = r.listing.count; t = r.now })
  unfolding head_of first_of
  head-newest r h = ap (λ (l : List Frame). head_of (first_of l) r.listing.count r.now) h.list_is

  round-IsUpToDate :
      (r : Round) (tab : Tab)
      → HasFrames r
      → IsCurrent wide content r.n (settled wide content r.n (polled r.now r.listing tab))
      → IsUpToDate r (round wide content r tab)
  unfolding round Keeps
  round-IsUpToDate r tab h now_current =
      let next = settled wide content r.n (polled r.now r.listing tab) in
      let (drawn, head) = polled-drawn r tab in
      let (same, kept) = acts-Keeps wide content r.n r.listing r.acts next in
      record {
        drawn = same ∙ drawn;
        prev = record { age = h.newest.age; count = r.listing.count; t = r.now };
        head_is = kept ∙ head ∙ head-newest r h;
        time_is = refl;
        prev_is = h.age_is;
        current = acts-IsCurrent wide content r.n r.listing r.acts next now_current;
      }

  same_number : (n m : ℕ) → (n == m) ≡ true → n ≡ m
  same_number n m h = ground arith

  earlier : (n m : ℕ) → n < suc m → (n == m) ≡ false → n < m
  earlier n m h k = ground arith

  spaced :
      ((k : ℕ) → arrival k + 4000 ≤ arrival (suc k))
      → (n m : ℕ) → n < m
      → arrival n + 4000 ≤ arrival m
  spaced apart n zero h = absurd (omega arith)
  spaced apart n (suc m) h = elim (Bool-cases (n == m)) [
    | inl last ↦
        subst (λ (j : ℕ). arrival j + 4000 ≤ arrival (suc m)) (sym (same_number n m last)) (apart m)
    | inr before ↦ omega (arith, spaced apart n m (earlier n m h before), apart m)
  ]

  grown : (n m : ℕ) → n ≤ m → (m == n) ≡ false → n < m
  grown n m h k = ground arith

  next-seen :
      ((k : ℕ) → arrival k + 4000 ≤ arrival (suc k))
      → (r q : Round) (tab : Tab) → IsUpToDate r tab
      → HasFrames q
      → r.n ≤ q.n
      → r.now ≤ q.now
      → (q.n ≡ r.n) ⊎ (moved tab.head (first_of q.listing.list) q.listing.count q.now ≡ true)
  unfolding first_of
  next-seen apart r q tab u h le later = elim (Bool-cases (q.n == r.n)) [
    | inl same ↦ inl (same_number q.n r.n same)
    | inr more ↦ inr (
        ap₂ (λ (p : Option Head) (l : List Frame). moved p (first_of l) q.listing.count q.now)
          u.head_is h.list_is
        ∙ moved-later (arrival r.n) (arrival q.n) u.prev h.newest q.listing.count q.now u.prev_is
            h.age_is (omega (arith, u.time_is)) (spaced apart r.n q.n (grown r.n q.n le more)))
  ]

  -- The rounds that follow one after which the tab is up to date.
  rounds-IsUpToDate :
      ((k : ℕ) → arrival k + 4000 ≤ arrival (suc k))
      → (r : Round) (rest : List Round) (tab : Tab) → IsUpToDate r tab
      → Follows r.n r.now rest
      → IsUpToDate (latest r rest) (rounds rest tab)
  rounds-IsUpToDate apart r [] tab u h = u
  rounds-IsUpToDate apart r (q ∷ rest) tab u (le, later, frames, after) =
      rounds-IsUpToDate apart q rest (round wide content q tab)
        (round-IsUpToDate q tab frames (
          poll-IsCurrent wide content r.n q.n q.now q.listing tab u.current
            (next-seen apart r q tab u frames le later)))
        after

-- On a device that has frames, where they come 4 s or more apart and an age is read at most a second
-- before the page sees it: as long as no frame comes between a poll and what the user does until the
-- next one, and every text comes before the next poll, the tab draws the listing of the last poll, any
-- text below its headers is the device's text of the frame at that position, and the text of the open
-- position is there.
pub tab-IsUpToDate :
    (wide : Bool) (content : ℕ → ℕ → Form → Text) (arrival : ℕ → ℕ)
    → ((k : ℕ) → arrival k + 4000 ≤ arrival (suc k))
    → (r : Round) (rest : List Round) → HasFrames wide content arrival r
    → Follows wide content arrival r.n r.now rest
    → IsUpToDate wide content arrival
        (latest wide content arrival r rest)
        (rounds wide content arrival (r ∷ rest) opened)
tab-IsUpToDate wide content arrival apart r rest h follows =
    rounds-IsUpToDate wide content arrival apart r rest (round wide content r opened)
      (round-IsUpToDate wide content arrival r opened h
        (poll-IsCurrent wide content r.n r.n r.now r.listing opened (λ i k. tt, tt) (inl refl)))
      follows
