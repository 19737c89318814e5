-- ===== src/Web/Views/Models/Toggle.antt =====
-- The access list of web/src/views/Models.vue against the server's: what a toggle does to both.
use windsurf_to_api_go.Prelude.{◌≡◌, String, Bool, not, same, if◌then◌else◌}
use windsurf_to_api_go.ModelAccess.{Access}
use windsurf_to_api_go.Web.Views.Models.{ModelsPage, is_selected, toggle}
use windsurf_to_api_go.Web.Views.Models.Endpoints.{add_access, remove_access}

-- The page shows the configuration that the server has.
abbrev pub InSync : ModelsPage → Access → Type 0
InSync page server = (page.config.mode ≡ server.cfg.mode) × (page.config.list ≡ server.cfg.list)

-- A click on a model, answered by the server.
unfoldable pub click : String → ModelsPage × Access → ModelsPage × Access
unfolding is_selected toggle add_access remove_access
click id (page, server) =
    let r = (if is_selected id page then remove_access id server else add_access id server) in
    ((toggle id r.0 page).0, r.1)

-- A set of models, as its membership test, and the flip of one member.
abbrev pub flip : String → (String → Bool) → String → Bool
flip id members j = if same j id then not (members j) else members j

-- What a click keeps and changes: the page stays in step with the server, and the model's membership
-- flips.
abbrev pub Flips : String → ModelsPage → ModelsPage × Access → Type 0
Flips id page after =
    InSync after.0 after.1
    × ((j : String) → is_selected j after.0 ≡ flip id (λ k. is_selected k page) j)
