-- ===== src/Ui/Layout.antt =====
-- internal/ui/layout.go: the rectangles of a screen of a given size.
pub mod Bands
pub mod Panes
pub mod Widths
use beautiful_aerc.Prelude.{
  ℕ, ◌+◌, ◌-◌, ◌*◌, ◌/◌, min, Eq, ◌==◌, nat_eq, ◌≡◌, refl, ◌↔◌, arith, List, [], ◌∷◌, ◌++◌, Bool,
  true, false, not, ◌&&◌, ◌||◌, ltb, leb, if◌then◌else◌, Map, assign, filter,
}
use beautiful_aerc.Ui.Screen.{
  WidthClass, HeightClass, PaneId, Ground, Rectangle, PaneRect, Divider, LayoutMode, PaneSpec,
  pane_index, same_pane, pane_eq, width_index, height_index, gap_pane, pad_card, rail_width, pane_x,
  list_width, card_gutter, sidebar_min, content_min, split_min, reader_content_cap, reader_card_cap,
  width_floor, width_spartan, width_standard, width_wide, height_floor, height_short, height_full,
  pane_split, pane_sidebar, pane_content, ground_base, ground_panel, ground_selected, ground_code,
}

-- `image.Rect`, which puts the corners in order
unfoldable pub image_rect : ℕ → ℕ → ℕ → ℕ → Rectangle
image_rect x0 y0 x1 y1 =
    let left = if ltb x1 x0 then x1 else x0 in
    let right = if ltb x1 x0 then x0 else x1 in
    let top = if ltb y1 y0 then y1 else y0 in
    let bottom = if ltb y1 y0 then y0 else y1 in
    record { x0 = left; y0 = top; x1 = right; y1 = bottom }

unfoldable pub classify_width : ℕ → WidthClass
classify_width width =
    if ltb width 60
    then width_floor
    else if ltb width 100
    then width_spartan
    else if ltb width 140
    then width_standard
    else width_wide

unfoldable pub classify_height : ℕ → HeightClass
classify_height height =
    if ltb height 15 then height_floor else if ltb height 20 then height_short else height_full

unfoldable pub status_band : ℕ → ℕ → PaneRect
unfolding image_rect
status_band width y = record { rect = image_rect 0 y width (y + 1); ground = ground_panel }

-- the widths it is called with leave room: `right - x0 - gap_pane` is never below 0
unfoldable pub reader_card : ℕ → ℕ → ℕ → ℕ → PaneRect
unfolding image_rect
reader_card x0 right y bottom =
    let avail = right - x0 - gap_pane in
    let width = min avail reader_card_cap in
    let left = x0 + (avail - width) / 2 in
    record { rect = image_rect left (y + 1) (left + width) (bottom - 1); ground = ground_panel }

abbrev pub sum_min : List PaneSpec → ℕ
sum_min [] = 0
sum_min (s ∷ ss) = s.least + sum_min ss

-- the loop of dropPanes over the drop order
abbrev pub drop_in : List PaneId → ℕ → List PaneSpec → List PaneSpec
drop_in [] width kept = kept
drop_in (id ∷ ids) width kept =
    let rest = drop_in ids width (filter (λ s. not (same_pane s.id id)) kept) in
    if leb (sum_min kept) width then kept else rest

unfoldable pub drop_panes : ℕ → List PaneSpec → List PaneSpec
drop_panes = drop_in (pane_split ∷ pane_sidebar ∷ [])

abbrev pub has_pane : List PaneSpec → PaneId → Bool
has_pane [] id = false
has_pane (s ∷ ss) id = same_pane s.id id || has_pane ss id

-- the panes that a rung wants
unfoldable pub wanted : WidthClass → List PaneSpec
wanted class =
    let content = if width_index class == 3 then list_width else content_min in
    let sidebar : List PaneSpec =
      if leb 2 (width_index class)
      then record { id = pane_sidebar; least = sidebar_min } ∷ []
      else [] in
    let split : List PaneSpec =
      if width_index class == 3 then record { id = pane_split; least = split_min } ∷ [] else [] in
    record { id = pane_content; least = content } ∷ sidebar ++ split

abbrev pub base_pane : ℕ → ℕ → ℕ → ℕ → PaneRect
base_pane x0 y0 x1 y1 = record { rect = image_rect x0 y0 x1 y1; ground = ground_base }

-- the zero PaneRect
abbrev pub no_rect : PaneRect
no_rect = record { rect = record { x0 = 0; y0 = 0; x1 = 0; y1 = 0 }; ground = ground_base }

-- the sidebar and its divider, and where the content starts
abbrev pub lay_sidebar : Bool → ℕ → ℕ → Map PaneId PaneRect × List Divider × ℕ
lay_sidebar true y bottom = (
  (pane_sidebar, base_pane 0 y rail_width bottom) ∷ [],
  record { x = rail_width; y0 = y; y1 = bottom; degrade = false } ∷ [],
  pane_x,
)
lay_sidebar false y bottom = ([], [], 0)

-- the content, and the card after it
abbrev pub lay_content : Bool → ℕ → ℕ → ℕ → ℕ → Map PaneId PaneRect × List Divider
lay_content true x0 width y bottom =
    let list_end = x0 + list_width in
    (
      (pane_content, base_pane x0 y list_end bottom)
          ∷ (pane_split, reader_card (list_end + card_gutter) width y bottom)
          ∷ [],
      record { x = list_end; y0 = y; y1 = bottom; degrade = true } ∷ [],
    )
lay_content false x0 width y bottom = ((pane_content, base_pane x0 y width bottom) ∷ [], [])

unfoldable pub lay_panes : List PaneSpec → ℕ → ℕ → ℕ → Map PaneId PaneRect × List Divider
lay_panes kept width y bottom =
    let (side, lines, x0) = lay_sidebar (has_pane kept pane_sidebar) y bottom in
    let (rest, more) = lay_content (has_pane kept pane_split) x0 width y bottom in
    (side ++ rest, lines ++ more)

-- the notice's canvas
abbrev pub floor_layout : ℕ → ℕ → LayoutMode
floor_layout width height =
    let all = base_pane 0 0 width height in
    record {
      width = width;
      height = height;
      class = classify_width width;
      height_class = classify_height height;
      status_row = no_rect;
      banner = no_rect;
      banner_row = false;
      main = all;
      panes = (pane_content, all) ∷ [];
      footer = no_rect;
      footer_rows = 0;
      dividers = [];
    }

abbrev pub chrome_layout : ℕ → ℕ → Bool → LayoutMode
chrome_layout width height banner_row =
    let shown = banner_row && (height_index (classify_height height) == 2) in
    let y = if shown then 2 else 1 in
    let bottom = height - 1 in
    let (panes, dividers) =
      lay_panes (drop_panes width (wanted (classify_width width))) width y bottom in
    record {
      width = width;
      height = height;
      class = classify_width width;
      height_class = classify_height height;
      status_row = status_band width 0;
      banner = if shown then status_band width 1 else no_rect;
      banner_row = shown;
      main = base_pane 0 y width bottom;
      panes = panes;
      footer = status_band width bottom;
      footer_rows = 1;
      dividers = dividers;
    }

unfoldable pub compute_layout : ℕ → ℕ → Bool → LayoutMode
unfolding classify_width classify_height
compute_layout width height banner_row =
    if (width_index (classify_width width) == 0) || (height_index (classify_height height) == 0)
    then floor_layout width height
    else chrome_layout width height banner_row

-- `Content`, with the zero value where there is none
abbrev pub content : LayoutMode → PaneRect
content lm = content_of lm.panes
  where
    content_of : Map PaneId PaneRect → PaneRect
    content_of [] = no_rect
    content_of ((id, p) ∷ ps) = if same_pane id pane_content then p else content_of ps
