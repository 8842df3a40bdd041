-- ===== src/Ui/Screen.antt =====
-- internal/ui/layout.go: the vocabulary of a layout, and its constants with those of
-- internal/theme/spacing.go. Coordinates are natural numbers, as every rectangle of a terminal has them.
use beautiful_aerc.Prelude.{ℕ, ◌+◌, ◌*◌, Eq, ◌==◌, nat_eq, ◌≡◌, ◌↔◌, arith, List, Bool, true, Map}

pub data WidthClass : Type 0 where
  width_floor : WidthClass
  width_spartan : WidthClass
  width_standard : WidthClass
  width_wide : WidthClass

pub data HeightClass : Type 0 where
  height_floor : HeightClass
  height_short : HeightClass
  height_full : HeightClass

pub data PaneId : Type 0 where
  pane_split : PaneId
  pane_sidebar : PaneId
  pane_content : PaneId

-- `theme.Ground`, whose zero value is the base ground
pub data Ground : Type 0 where
  ground_base : Ground
  ground_panel : Ground
  ground_selected : Ground
  ground_code : Ground

-- `image.Rectangle`
pub record Rectangle : Type 0 where
  pub x0 : ℕ
  pub y0 : ℕ
  pub x1 : ℕ
  pub y1 : ℕ

pub record PaneRect : Type 0 where
  pub rect : Rectangle
  pub ground : Ground

pub record Divider : Type 0 where
  pub x : ℕ
  pub y0 : ℕ
  pub y1 : ℕ
  pub degrade : Bool

pub record LayoutMode : Type 0 where
  pub width : ℕ
  pub height : ℕ
  pub class : WidthClass
  pub height_class : HeightClass
  pub status_row : PaneRect
  pub banner : PaneRect
  pub banner_row : Bool
  pub main : PaneRect
  pub panes : Map PaneId PaneRect
  pub footer : PaneRect
  pub footer_rows : ℕ
  pub dividers : List Divider

pub record PaneSpec : Type 0 where
  pub id : PaneId
  pub least : ℕ

-- `==` on the values of the three enumerations, and their order
abbrev pub pane_index : PaneId → ℕ
pane_index pane_split = 0
pane_index pane_sidebar = 1
pane_index pane_content = 2

abbrev pub same_pane : PaneId → PaneId → Bool
same_pane a b = pane_index a == pane_index b

pub same_pane_iff : (a b : PaneId) → (same_pane a b ≡ true) ↔ (a ≡ b)
same_pane_iff a b = ground arith

instance abbrev pub pane_eq : Eq PaneId
pane_eq = record { same = same_pane; same_iff = same_pane_iff }

abbrev pub width_index : WidthClass → ℕ
width_index width_floor = 0
width_index width_spartan = 1
width_index width_standard = 2
width_index width_wide = 3

abbrev pub height_index : HeightClass → ℕ
height_index height_floor = 0
height_index height_short = 1
height_index height_full = 2

-- internal/theme/spacing.go
abbrev pub gap_pane : ℕ
gap_pane = 2

abbrev pub pad_card : ℕ
pad_card = 2

abbrev pub rail_width : ℕ
rail_width = 22

abbrev pub pane_x : ℕ
pane_x = rail_width + 1 + gap_pane

abbrev pub list_width : ℕ
list_width = 62

abbrev pub card_gutter : ℕ
card_gutter = gap_pane

abbrev pub sidebar_min : ℕ
sidebar_min = pane_x

abbrev pub content_min : ℕ
content_min = 30

abbrev pub split_min : ℕ
split_min = gap_pane + 40

abbrev pub reader_content_cap : ℕ
reader_content_cap = 100

abbrev pub reader_card_cap : ℕ
reader_card_cap = reader_content_cap + 2 * pad_card
