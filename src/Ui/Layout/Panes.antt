-- ===== src/Ui/Layout/Panes.antt =====
-- The panes of ComputeLayout in internal/ui/layout.go, cell by cell, and their widths.
use beautiful_aerc.Prelude.{
  ℕ, ◌+◌, ◌-◌, ◌≤◌, ◌≡◌, arith, List, [], ◌∷◌, Bool, ◌&&◌, ◌||◌, ◌==◌, nat_eq, ltb, leb,
  if◌then◌else◌, Bool-cases, inl, inr, Map,
}
use beautiful_aerc.Ui.Screen.{
  PaneId, pane_eq, PaneRect, Divider, WidthClass, width_floor, width_spartan, width_standard,
  width_wide, width_index, height_index,
}
use beautiful_aerc.Ui.Layout.{
  image_rect, base_pane, classify_width, classify_height, compute_layout, wanted, drop_panes,
  lay_panes, reader_card,
}
use beautiful_aerc.Ui.Layout.Bands.{holds}

-- the narrowest terminal of a rung
abbrev pub least_width : WidthClass → ℕ
least_width width_floor = 0
least_width width_spartan = 60
least_width width_standard = 100
least_width width_wide = 140

pub classify_width-least : (width : ℕ) → least_width (classify_width width) ≤ width
unfolding classify_width
classify_width-least width = ground arith

-- no rung wants more than its narrowest terminal has
pub drop_panes-wanted :
    (c : WidthClass) (width : ℕ) → least_width c ≤ width → drop_panes width (wanted c) ≡ wanted c
unfolding drop_panes wanted
drop_panes-wanted width_floor width h = ground arith
drop_panes-wanted width_spartan width h = ground arith
drop_panes-wanted width_standard width h = ground arith
drop_panes-wanted width_wide width h = ground arith

-- how many panes hold the cell
abbrev pub pane_cover : Map PaneId PaneRect → ℕ → ℕ → ℕ
pane_cover [] x y = 0
pane_cover ((id, p) ∷ ps) x y = holds p x y + pane_cover ps x y

-- how many dividers pass the cell
abbrev pub divider_cover : List Divider → ℕ → ℕ → ℕ
divider_cover [] x y = 0
divider_cover (d ∷ ds) x y =
    (if (d.x == x) && leb d.y0 y && ltb y d.y1 then 1 else 0) + divider_cover ds x y

abbrev cover : Map PaneId PaneRect × List Divider → ℕ → ℕ → ℕ
cover (panes, dividers) x y = pane_cover panes x y + divider_cover dividers x y

-- the panes of each rung
cover-lay_panes :
    (c : WidthClass) (width top bottom x y : ℕ)
    → least_width c ≤ width
    → top + 10 ≤ bottom
    → cover (lay_panes (wanted c) width top bottom) x y ≤ holds (base_pane 0 top width bottom) x y
unfolding lay_panes wanted image_rect reader_card
cover-lay_panes width_floor width top bottom x y h k = ground arith
cover-lay_panes width_spartan width top bottom x y h k = ground arith
cover-lay_panes width_standard width top bottom x y h k = ground arith
cover-lay_panes width_wide width top bottom x y h k = ground arith

chrome-cover :
    (width height x y : ℕ) (shown : Bool)
    → 15 ≤ height
    → let top : ℕ = if shown then 2 else 1 in
      cover
        (lay_panes (drop_panes width (wanted (classify_width width))) width top (height - 1))
        x
        y
      ≤ holds (base_pane 0 top width (height - 1)) x y
chrome-cover width height x y shown h =
    let least = classify_width-least width in
    let top : ℕ = if shown then 2 else 1 in
    rw (drop_panes-wanted (classify_width width) width least)
      (cover-lay_panes (classify_width width) width top (height - 1) x y least (ground arith))

-- No cell is in two panes, none that a divider passes is in a pane, and the panes and dividers all
-- lie in the main band.
pub compute_layout-panes :
    (width height x y : ℕ) (banner_row : Bool)
    → let lm = compute_layout width height banner_row in
      pane_cover lm.panes x y + divider_cover lm.dividers x y ≤ holds lm.main x y
unfolding compute_layout
compute_layout-panes width height x y banner_row =
    elim (Bool-cases
      (width_index (classify_width width) == 0 || height_index (classify_height height) == 0)) [
        | inl small ↦ rw small (omega arith)
        | inr large ↦ rw large (
            chrome-cover width height x y (banner_row && height_index (classify_height height) == 2)
              (unfold classify_height in ground arith))
      ]
