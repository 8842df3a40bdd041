-- ===== src/Tests/Screens.antt =====
-- Layouts of concrete screens.
use beautiful_aerc.Prelude.{◌+◌, ◌≤◌, arith, true}
use beautiful_aerc.Ui.Screen.{LayoutMode}
use beautiful_aerc.Ui.Layout.{compute_layout}
use beautiful_aerc.Ui.Layout.Bands.{holds}
use beautiful_aerc.Ui.Layout.Panes.{pane_cover, divider_cover, compute_layout-panes}
use beautiful_aerc.Ui.Layout.Widths.{Widths, compute_layout-Widths}

abbrev wide : LayoutMode
wide = compute_layout 160 40 true

compute_layout-panes_example :
    pane_cover wide.panes 80 20 + divider_cover wide.dividers 80 20 ≤ holds wide.main 80 20
compute_layout-panes_example = compute_layout-panes 160 40 80 20 true

compute_layout-Widths_example : Widths 160 wide.panes
compute_layout-Widths_example = compute_layout-Widths 160 40 true (omega arith) (omega arith)
