-- ===== src/Web/Layout/Drawer.antt =====
-- The drawer of web/src/layouts/BasicLayout.vue over any sequence of events.
use windsurf_to_api_go.Prelude.{◌≡◌, refl, true, false, List, [], ◌∷◌, arith}
use windsurf_to_api_go.Web.Api.Call.{resolved, rejected}
use windsurf_to_api_go.Web.Layout.{
  LayoutState, LayoutEvent, viewport, mounted, route_changed, selected, opened, sync_viewport,
  on_mounted, on_route, on_select, open_drawer, layout_step, layout_run,
}

-- An open drawer is in a narrow window.
abbrev pub DrawerFits : LayoutState → Type 0
DrawerFits s = s.drawer_open ≡ true → s.is_narrow ≡ true

layout_step-DrawerFits :
    (e : LayoutEvent) (s : LayoutState) → DrawerFits s → DrawerFits (layout_step e s)
unfolding layout_step sync_viewport on_mounted on_route on_select open_drawer
layout_step-DrawerFits (viewport true) s h = λ is_open. refl
layout_step-DrawerFits (viewport false) s h = λ is_open. is_open
layout_step-DrawerFits (mounted true (resolved health)) s h = λ is_open. refl
layout_step-DrawerFits (mounted false (resolved health)) s h = λ is_open. is_open
layout_step-DrawerFits (mounted true (rejected message)) s h = λ is_open. refl
layout_step-DrawerFits (mounted false (rejected message)) s h = λ is_open. is_open
layout_step-DrawerFits route_changed s h = λ is_open. ground arith
layout_step-DrawerFits (selected key) s h = λ is_open. ground arith
layout_step-DrawerFits opened s h = λ is_open. ground (arith, h)

-- Over any sequence of events a drawer that is open only in a narrow window stays so: widening the
-- window closes it.
pub layout_run-DrawerFits :
    (events : List LayoutEvent) (s : LayoutState) → DrawerFits s → DrawerFits (layout_run events s)
unfolding layout_run
layout_run-DrawerFits [] s h = h
layout_run-DrawerFits (e ∷ events) s h =
    layout_run-DrawerFits events (layout_step e s) (layout_step-DrawerFits e s h)
