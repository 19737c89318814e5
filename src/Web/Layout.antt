-- ===== src/Web/Layout.antt =====
-- web/src/layouts/BasicLayout.vue: the drawer, the version and the menu. Logging out is with the session.
pub mod Drawer
use Prim.Native.String.{◌++◌ as ◌<>◌}
use windsurf_to_api_go.Prelude.{
  String, Bool, true, false, not, Option, none, some, List, [], ◌∷◌, if◌then◌else◌,
}
use windsurf_to_api_go.Prelude.Texts.{first_chars}
use windsurf_to_api_go.Web.Request.{truthy, or_empty, or_else}
use windsurf_to_api_go.Web.Api.Call.{Reply, resolved, rejected}
use windsurf_to_api_go.Web.Api.Types.Overview.{HealthInfo}

pub record LayoutState : Type 0 where
  pub version : String
  pub version_title : String
  pub is_narrow : Bool
  pub drawer_open : Bool

abbrev pub initial : LayoutState
initial = record { version = "—"; version_title = ""; is_narrow = false; drawer_open = false }

unfoldable pub selected_keys : Option String → List String
selected_keys name = or_else name "Overview" ∷ []

unfoldable pub current_title : Option String → String
current_title title = or_else title "仪表盘"

abbrev pub narrow_query : String
narrow_query = "(max-width: 899.98px)"

unfoldable pub sync_viewport : Bool → LayoutState → LayoutState
sync_viewport matches s = record s {
  is_narrow = matches;
  drawer_open = if not matches then false else s.drawer_open;
}

abbrev branch_text : Option String → String
branch_text branch = if truthy branch then " (" <> or_empty branch <> ")" else ""

-- `onMounted`: whether the query matches, and the answer of `getHealth`.
unfoldable pub on_mounted : Bool → Reply HealthInfo → LayoutState → LayoutState
unfolding sync_viewport first_chars
on_mounted matches (rejected message) s = record (sync_viewport matches s) { version = "—" }
on_mounted matches (resolved h) s = record (sync_viewport matches s) {
  version =
      if truthy h.commit
      then "v" <> h.version <> " · " <> first_chars 7 (or_empty h.commit)
      else "v" <> h.version;
  version_title =
      if truthy h.commit_message
      then or_empty h.commit_message <> branch_text h.branch
      else "版本 " <> h.version;
}

-- The watch on the path of the route.
unfoldable pub on_route : LayoutState → LayoutState
on_route s = record s { drawer_open = false }

-- `onSelect`: the name of the route that is pushed, and the state.
unfoldable pub on_select : String → LayoutState → String × LayoutState
on_select key s = (key, record s { drawer_open = false })

-- The button that opens the drawer.
unfoldable pub open_drawer : LayoutState → LayoutState
open_drawer s = record s { drawer_open = true }

-- What happens to the layout. The button is in a bar that only a narrow window shows.
pub data LayoutEvent : Type 0 where
  viewport : Bool → LayoutEvent
  mounted : Bool → Reply HealthInfo → LayoutEvent
  route_changed : LayoutEvent
  selected : String → LayoutEvent
  opened : LayoutEvent

unfoldable pub layout_step : LayoutEvent → LayoutState → LayoutState
unfolding sync_viewport on_mounted on_route on_select open_drawer
layout_step (viewport matches) s = sync_viewport matches s
layout_step (mounted matches health) s = on_mounted matches health s
layout_step route_changed s = on_route s
layout_step (selected key) s = (on_select key s).1
layout_step opened s = if s.is_narrow then open_drawer s else s

unfoldable pub layout_run : List LayoutEvent → LayoutState → LayoutState
unfolding layout_step
layout_run [] s = s
layout_run (e ∷ events) s = layout_run events (layout_step e s)
