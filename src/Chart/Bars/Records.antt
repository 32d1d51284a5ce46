-- ===== src/Chart/Bars/Records.antt =====
-- The records among the bars of a history.
use esphome_gplug.Base.{
  ℕ, zero, suc, ◌+◌, ◌-◌, ◌≡◌, refl, ap, ap₂, ◌∙◌, ◌%◌, inl, inr, Bool, true, false, not, ◌&&◌,
  ◌||◌, Option, none, some, List, [], ◌∷◌, ◌++◌, map, ltb, ◌==◌, if◌then◌else◌, Bool-cases, arith,
  length, filter,
}
use esphome_gplug.Text.Utf8.{Text}
use esphome_gplug.Chart.Bars.{
  max_bars, no_data, Point, Bar, is_known, or_zero, point_bar, gaps, gaps_before, latest, bars_loop,
  hist_bars,
}

filter-append :
    {A : Type 0} (p : A → Bool) (xs ys : List A) → filter p (xs ++ ys) ≡ filter p xs ++ filter p ys
filter-append p [] ys = refl
filter-append p (x ∷ xs) ys = elim (Bool-cases (p x)) [
  | inl e ↦ rw e (ap (◌∷◌ x) (filter-append p xs ys))
  | inr e ↦ rw e (filter-append p xs ys)
]

module _ {V : Type 0} (zero_wh : V) (minus : V → V → V) (bucket_label : ℕ → Text) where
  abbrev pub has_value : Bar zero_wh minus bucket_label → Bool
  has_value b = not b.missing

  -- Whether a record holds data: an energy, and not the bit of the value 16 among its flags.
  abbrev pub has_data : Point zero_wh minus bucket_label → Bool
  has_data p =
      (is_known zero_wh minus bucket_label p.import_wh
        || is_known zero_wh minus bucket_label p.export_wh)
      && ltb (p.flags % 32) 16

  -- What a bar shows of a record: the energy that the house has taken, less what it has given, at the
  -- time and under the label of its bucket.
  abbrev pub net : Option V → Option V → V
  net none none = minus zero_wh zero_wh
  net (some i) none = minus i zero_wh
  net none (some e) = minus zero_wh e
  net (some i) (some e) = minus i e

  abbrev pub label_of : Option ℕ → Option Text
  label_of none = none
  label_of (some q) = some (bucket_label q)

  abbrev pub bar_of : Point zero_wh minus bucket_label → Bar zero_wh minus bucket_label
  bar_of p = record {
    v = net p.import_wh p.export_wh;
    label = label_of p.qh;
    qh = p.qh;
    missing = false;
  }

  -- Whether the bar that is drawn of a record shows a value.
  abbrev shows : Point zero_wh minus bucket_label → Bool
  shows p = has_value (point_bar zero_wh minus bucket_label p)

  no_data_bit : (flags : ℕ) → no_data flags ≡ not (ltb (flags % 32) 16)
  unfolding no_data
  no_data_bit flags = ground arith

  not_missing : (k b : Bool) → not (not k || not b) ≡ (k && b)
  not_missing k b = ground arith

  shows-has_data : (p : Point zero_wh minus bucket_label) → shows p ≡ has_data p
  unfolding point_bar
  shows-has_data p = rw (no_data_bit p.flags) (not_missing _ (ltb (p.flags % 32) 16))

  net-or_zero :
      (i e : Option V)
      → minus (or_zero zero_wh minus bucket_label i) (or_zero zero_wh minus bucket_label e)
        ≡ net i e
  net-or_zero none none = refl
  net-or_zero (some i) none = refl
  net-or_zero none (some e) = refl
  net-or_zero (some i) (some e) = refl

  label-point_bar :
      (p : Point zero_wh minus bucket_label) (q : Option ℕ)
      → p.qh ≡ q
      → (point_bar zero_wh minus bucket_label p).label ≡ label_of q
  unfolding point_bar
  label-point_bar p none e = rw e refl
  label-point_bar p (some q) e = rw e refl

  unmissed : (b : Bool) → not b ≡ true → b ≡ false
  unmissed b h = ground arith

  same_bar :
      {v w : V} {l m : Option Text} {a b : Bool} (q : Option ℕ)
      → v ≡ w
      → l ≡ m
      → a ≡ b
      → Path
          (Bar zero_wh minus bucket_label)
          (record { v = v; label = l; qh = q; missing = a })
          (record { v = w; label = m; qh = q; missing = b })
  same_bar q e f g = rw (e, f, g) refl

  bar_of-point_bar :
      (p : Point zero_wh minus bucket_label)
      → shows p ≡ true
      → point_bar zero_wh minus bucket_label p ≡ bar_of p
  unfolding point_bar
  bar_of-point_bar p h =
      same_bar p.qh (net-or_zero p.import_wh p.export_wh) (label-point_bar p p.qh refl)
        (unmissed _ h)

  filter-gaps :
      (room step g qh : ℕ) → filter has_value (gaps zero_wh minus bucket_label room step g qh) ≡ []
  unfolding gaps
  filter-gaps zero step g qh = refl
  filter-gaps (suc room) step g qh = elim (Bool-cases (ltb g qh)) [
    | inl hole ↦ rw hole (filter-gaps room step (g + step) qh)
    | inr met ↦ rw met refl
  ]

  filter-gaps_before :
      (step count : ℕ) (prev qh : Option ℕ)
      → filter has_value (gaps_before zero_wh minus bucket_label step prev count qh) ≡ []
  unfolding gaps_before
  filter-gaps_before step count none qh = refl
  filter-gaps_before step count (some a) none = refl
  filter-gaps_before step count (some a) (some q) = filter-gaps (max_bars - count) step (a + step) q

  filter-bars_loop :
      (step count : ℕ) (prev : Option ℕ) (pts : List (Point zero_wh minus bucket_label))
      → filter has_value (bars_loop zero_wh minus bucket_label step prev count pts)
        ≡ map (point_bar zero_wh minus bucket_label) (filter shows pts)
  unfolding bars_loop
  filter-bars_loop step count prev [] = refl
  filter-bars_loop step count prev (p ∷ pts) =
      let before = gaps_before zero_wh minus bucket_label step prev count p.qh in
      let later =
        filter-bars_loop step (count + length before + 1)
          (latest zero_wh minus bucket_label p.qh prev) pts in
      let after =
        bars_loop zero_wh minus bucket_label step (latest zero_wh minus bucket_label p.qh prev)
          (count + length before + 1) pts in
      filter-append has_value before (point_bar zero_wh minus bucket_label p ∷ after)
      ∙ ap
          (λ (l : List (Bar zero_wh minus bucket_label)).
            l ++ filter has_value (point_bar zero_wh minus bucket_label p ∷ after))
          (filter-gaps_before step count prev p.qh)
      ∙ elim (Bool-cases (shows p)) [
        | inl e ↦ rw e (ap (◌∷◌ (point_bar zero_wh minus bucket_label p)) later)
        | inr e ↦ rw e later
      ]

  map-filter :
      (pts : List (Point zero_wh minus bucket_label))
      → map (point_bar zero_wh minus bucket_label) (filter shows pts)
        ≡ map bar_of (filter has_data pts)
  map-filter [] = refl
  map-filter (p ∷ pts) = elim (Bool-cases (has_data p)) [
    | inl e ↦
        let shown = shows-has_data p ∙ e in
        rw (e, shown) (ap₂ ◌∷◌ (bar_of-point_bar p shown) (map-filter pts))
    | inr e ↦ rw (e, shows-has_data p ∙ e) (map-filter pts)
  ]

  -- The bars of the history that show a value are those of the records that hold data, all of them and
  -- in their order, whatever holes are filled between them: a record holds data when it has an energy
  -- and its flags do not say that there is none, and its bar shows the energy taken less the energy
  -- given, where one that is missing counts as zero.
  pub filter-hist_bars :
      (bucket : ℕ) (pts : List (Point zero_wh minus bucket_label))
      → filter has_value (hist_bars zero_wh minus bucket_label bucket pts)
        ≡ map bar_of (filter has_data pts)
  unfolding hist_bars
  filter-hist_bars bucket pts =
      filter-bars_loop (if bucket == 0 then 1 else bucket) 0 none pts ∙ map-filter pts
