-- ===== src/Ui/Layout/Widths.antt =====
-- The panes that ComputeLayout in internal/ui/layout.go shows at each width, and how wide they are.
use beautiful_aerc.Prelude.{
  ℕ, ◌-◌, ◌<◌, ◌≤◌, ◌≡◌, arith, Bool, false, ◌||◌, ◌&&◌, ◌==◌, nat_eq, ltb, if◌then◌else◌, Map,
  none, some, lookup,
}
use beautiful_aerc.Ui.Screen.{
  PaneId, pane_split, pane_sidebar, pane_content, pane_eq, PaneRect, WidthClass, width_floor,
  width_spartan, width_standard, width_wide, width_index, height_index,
}
use beautiful_aerc.Ui.Layout.{
  image_rect, classify_width, classify_height, compute_layout, wanted, lay_panes, reader_card,
}
use beautiful_aerc.Ui.Layout.Panes.{classify_width-least, drop_panes-wanted}

-- the columns of a pane, 0 where it is not shown
abbrev pub pane_width : PaneId → Map PaneId PaneRect → ℕ
pane_width id panes = elim (lookup id panes) [ none ↦ 0 | some p ↦ p.rect.x1 - p.rect.x0 ]

-- what a terminal of this width shows: the rail, the list or content, and the reader card
abbrev pub Widths : ℕ → Map PaneId PaneRect → Type 0
Widths width panes =
    (pane_width pane_sidebar panes ≡ (if ltb width 100 then 0 else 22))
    × (pane_width pane_content panes
        ≡ (if ltb width 100 then width else if ltb width 140 then width - 25 else 62))
    × (if ltb width 140
        then pane_width pane_split panes ≡ 0
        else (40 ≤ pane_width pane_split panes) × (pane_width pane_split panes ≤ 104))

-- a rung is known by the widths it starts and ends at
abbrev InRung : ℕ → WidthClass → Type 0
InRung width width_floor = width < 60
InRung width width_spartan = (60 ≤ width) × (width < 100)
InRung width width_standard = (100 ≤ width) × (width < 140)
InRung width width_wide = 140 ≤ width

classify_width-InRung : (width : ℕ) → InRung width (classify_width width)
unfolding classify_width
classify_width-InRung width = ground arith

lay_panes-Widths :
    (c : WidthClass) (width top bottom : ℕ)
    → InRung width c
    → 60 ≤ width
    → Widths width (lay_panes (wanted c) width top bottom).0
unfolding lay_panes wanted image_rect reader_card
lay_panes-Widths width_floor width top bottom r h = ground arith
lay_panes-Widths width_spartan width top bottom r h = ground arith
lay_panes-Widths width_standard width top bottom r h = ground arith
lay_panes-Widths width_wide width top bottom r h = ground arith

-- On a terminal of at least 60 columns and 15 rows the rail has 22 columns from 100 columns on, the
-- content has the rest, and from 140 columns on the list has 62 and the reader card between 40 and 104.
pub compute_layout-Widths :
    (width height : ℕ) (banner_row : Bool)
    → 60 ≤ width
    → 15 ≤ height
    → Widths width (compute_layout width height banner_row).panes
unfolding compute_layout
compute_layout-Widths width height banner_row p q =
    let large : width_index (classify_width width) == 0
          || height_index (classify_height height) == 0
        ≡ false =
      unfold classify_width classify_height in ground arith in
    let top : ℕ = if banner_row && (height_index (classify_height height) == 2) then 2 else 1 in
    rw (large, drop_panes-wanted (classify_width width) width (classify_width-least width))
      (lay_panes-Widths (classify_width width) width top (height - 1) (classify_width-InRung width)
        p)
