-- ===== src/Web/Views/Models/Endpoints.antt =====
-- The handlers of /model-access in internal/dashapi/dashapi.go, on the calls that the dashboard makes.
use windsurf_to_api_go.Prelude.{String, true, some, same, if◌then◌else◌}
use windsurf_to_api_go.ModelAccess.{Access, Config, set_mode, set_list, add, remove}
use windsurf_to_api_go.ModelAccess
use windsurf_to_api_go.Web.Api.Call.{Reply, resolved, rejected}
use windsurf_to_api_go.Web.Api.Calls.{WithConfig}
use windsurf_to_api_go.Web.Api.Types.Models.{ModelAccessAnswer, ModelAccessConfig}

abbrev answer_of : Config → ModelAccessAnswer
answer_of c = record { mode = c.mode; list = some c.list }

abbrev done : Access → Reply (WithConfig ModelAccessAnswer) × Access
done s = (resolved (record { success = true; config = answer_of (ModelAccess.get s) }), s)

unfoldable pub get_access : Access → Reply ModelAccessAnswer × Access
unfolding ModelAccess.get
get_access s = (resolved (answer_of (ModelAccess.get s)), s)

unfoldable pub put_access :
    ModelAccessConfig → Access → Reply (WithConfig ModelAccessAnswer) × Access
unfolding set_mode set_list ModelAccess.get
put_access body s = done (set_list body.list (set_mode body.mode s))

-- An empty model is refused with status 400 and this error.
unfoldable pub add_access : String → Access → Reply (WithConfig ModelAccessAnswer) × Access
unfolding add ModelAccess.get
add_access model s =
    if same model "" then (rejected (some "model is required"), s) else done (add model s)

unfoldable pub remove_access : String → Access → Reply (WithConfig ModelAccessAnswer) × Access
unfolding remove ModelAccess.get
remove_access model s =
    if same model "" then (rejected (some "model is required"), s) else done (remove model s)
