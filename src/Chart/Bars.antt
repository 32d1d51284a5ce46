-- ===== src/Chart/Bars.antt =====
-- `histBars` of spa/src/live/hist-tab.js: the bars of the history chart. The energies are a type of
-- numbers with a zero and a difference, and the label of a bucket is a parameter, since the browser
-- formats it.
pub mod Records
pub mod Gaps
use esphome_gplug.Base.{
  ℕ, zero, suc, ◌+◌, ◌-◌, ◌/◌, ◌%◌, Bool, true, false, not, ◌&&◌, ◌||◌, Option, none, some, List,
  [], ◌∷◌, ◌++◌, ltb, ◌==◌, if◌then◌else◌, length,
}
use esphome_gplug.Text.Utf8.{Text}

abbrev pub max_bars : ℕ
max_bars = 400

-- `flags & HF_NO_DATA`.
unfoldable pub no_data : ℕ → Bool
no_data flags = flags / 16 % 2 == 1

module _ {V : Type 0} (zero_wh : V) (minus : V → V → V) (bucket_label : ℕ → Text) where
  -- A record of the history; what is null is `none`.
  pub record Point : Type 0 where
    pub qh : Option ℕ
    pub import_wh : Option V
    pub export_wh : Option V
    pub flags : ℕ

  pub record Bar : Type 0 where
    pub v : V
    pub label : Option Text
    pub qh : Option ℕ
    pub missing : Bool

  abbrev pub is_known : Option V → Bool
  is_known none = false
  is_known (some v) = true

  abbrev pub or_zero : Option V → V
  or_zero none = zero_wh
  or_zero (some v) = v

  -- The bar of a record.
  unfoldable pub point_bar : Point → Bar
  unfolding no_data
  point_bar p = record {
    v = minus (or_zero p.import_wh) (or_zero p.export_wh);
    label = elim p.qh [ none ↦ none | some q ↦ some (bucket_label q) ];
    qh = p.qh;
    missing = not (is_known p.import_wh || is_known p.export_wh) || no_data p.flags;
  }

  -- The bars of a hole from `g` up to `qh`, as long as there is room.
  unfoldable pub gaps : ℕ → ℕ → ℕ → ℕ → List Bar
  gaps zero step g qh = []
  gaps (suc room) step g qh =
      let later = gaps room step (g + step) qh in
      if ltb g qh
      then record { v = zero_wh; label = some (bucket_label g); qh = some g; missing = true }
        ∷ later
      else []

  -- The bars before a record, of `count` ones so far.
  unfoldable pub gaps_before : ℕ → Option ℕ → ℕ → Option ℕ → List Bar
  unfolding gaps
  gaps_before step (some prev) count (some qh) = gaps (max_bars - count) step (prev + step) qh
  gaps_before step _ count _ = []

  abbrev pub latest : Option ℕ → Option ℕ → Option ℕ
  latest (some qh) prev = some qh
  latest none prev = prev

  unfoldable pub bars_loop : ℕ → Option ℕ → ℕ → List Point → List Bar
  bars_loop step prev count [] = []
  bars_loop step prev count (p ∷ pts) =
      let before = gaps_before step prev count p.qh in
      before ++ point_bar p ∷ bars_loop step (latest p.qh prev) (count + length before + 1) pts

  -- `histBars`; `bucket` is 0 where the device sends none.
  unfoldable pub hist_bars : ℕ → List Point → List Bar
  hist_bars bucket pts = bars_loop (if bucket == 0 then 1 else bucket) none 0 pts
