-- ===== src/Ui/Layout/Bands.antt =====
-- The bands of ComputeLayout in internal/ui/layout.go, cell by cell.
use beautiful_aerc.Prelude.{
  ℕ, ◌+◌, ◌-◌, ◌<◌, ◌≤◌, ◌≡◌, arith, Bool, true, false, ◌&&◌, ◌||◌, ◌==◌, nat_eq, ltb, leb,
  if◌then◌else◌, Bool-cases, inl, inr,
}
use beautiful_aerc.Ui.Screen.{PaneRect, width_index, height_index}
use beautiful_aerc.Ui.Layout.{
  image_rect, status_band, base_pane, no_rect, classify_width, classify_height, compute_layout,
}

-- 1 where the rectangle holds the cell, which its far edges do not
abbrev pub holds : PaneRect → ℕ → ℕ → ℕ
holds p x y =
    if leb p.rect.x0 x && ltb x p.rect.x1 && leb p.rect.y0 y && ltb y p.rect.y1 then 1 else 0

-- the bands of a screen with chrome: the banner is there or is not
chrome-bands :
    (width height x y : ℕ) (shown : Bool)
    → 15 ≤ height
    → x < width
    → y < height
    → holds (status_band width 0) x y
        + holds (if shown then status_band width 1 else no_rect) x y
        + holds (base_pane 0 (if shown then 2 else 1) width (height - 1)) x y
        + holds (status_band width (height - 1)) x y
      ≡ 1
unfolding status_band image_rect
chrome-bands width height x y true h p q = ground arith
chrome-bands width height x y false h p q = ground arith

-- Every cell of the screen lies in exactly one of the four bands: the status row, the banner, the
-- main band and the footer.
pub compute_layout-bands :
    (width height x y : ℕ) (banner_row : Bool)
    → x < width
    → y < height
    → let lm = compute_layout width height banner_row in
      holds lm.status_row x y + holds lm.banner x y + holds lm.main x y + holds lm.footer x y ≡ 1
unfolding compute_layout
compute_layout-bands width height x y banner_row p q =
    elim (Bool-cases
      (width_index (classify_width width) == 0 || height_index (classify_height height) == 0)) [
        | inl small ↦ rw small (unfold image_rect in ground arith)
        | inr large ↦ rw large (
            chrome-bands width height x y (banner_row && height_index (classify_height height) == 2)
              (unfold classify_height in ground arith) p q)
      ]
