-- ===== src/Web/FirebaseOAuth/Once.antt =====
-- How often the SDK is loaded, web/src/composables/useFirebaseOAuth.ts.
use windsurf_to_api_go.Prelude.{suc, ◌≡◌, refl, none, some, List, [], ◌∷◌}
use windsurf_to_api_go.Web.Api.Call.{Reply}
use windsurf_to_api_go.Web.FirebaseOAuth.{
  FirebaseConfig, firebase_config, FirebaseBundle, FirebaseOAuthPayload, Provider, Loader, ensure,
  with_bundle, sign_in_with_oauth,
}

-- The sign-ins of a page, each with what the network gives at its time.
unfoldable pub sign_ins :
    List ((FirebaseConfig → Reply FirebaseBundle) × Provider)
    → Loader
    → List (Reply FirebaseOAuthPayload) × Loader
unfolding sign_in_with_oauth
sign_ins [] s = ([], s)
sign_ins ((load, provider) ∷ rest) s =
    let r = sign_in_with_oauth load provider s in let q = sign_ins rest r.1 in (r.0 ∷ q.0, q.1)

abbrev pub providers_of : List ((FirebaseConfig → Reply FirebaseBundle) × Provider) → List Provider
providers_of [] = []
providers_of ((load, provider) ∷ rest) = provider ∷ providers_of rest

abbrev pub answers : Reply FirebaseBundle → List Provider → List (Reply FirebaseOAuthPayload)
answers bundle [] = []
answers bundle (p ∷ ps) = with_bundle p bundle ∷ answers bundle ps

ensure_loaded :
    (load : FirebaseConfig → Reply FirebaseBundle) (bundle : Reply FirebaseBundle) (s : Loader)
    → s.init_promise ≡ some bundle
    → ensure load s ≡ (bundle, s)
unfolding ensure
ensure_loaded load bundle s h = simp (ensure, h)

ensure_first :
    (load : FirebaseConfig → Reply FirebaseBundle) (s : Loader)
    → s.init_promise ≡ none
    → ensure load s ≡ (
      load firebase_config,
      record { init_promise = some (load firebase_config); loads = suc s.loads },
    )
unfolding ensure
ensure_first load s h = simp (ensure, h)

sign_ins_loaded :
    (bundle : Reply FirebaseBundle)
    (calls : List ((FirebaseConfig → Reply FirebaseBundle) × Provider)) (s : Loader)
    → s.init_promise ≡ some bundle
    → sign_ins calls s ≡ (answers bundle (providers_of calls), s)
unfolding sign_ins sign_in_with_oauth
sign_ins_loaded bundle [] s h = refl
sign_ins_loaded bundle ((load, provider) ∷ rest) s h =
    rw (ensure_loaded load bundle s h, sign_ins_loaded bundle rest s h) refl

-- Whatever the later sign-ins of a page would find, all of them use what the first one loaded, and the
-- SDK is loaded once. That holds for a failure as well: it is the answer to every later sign-in.
pub sign_ins-answers :
    (load : FirebaseConfig → Reply FirebaseBundle) (provider : Provider)
    (rest : List ((FirebaseConfig → Reply FirebaseBundle) × Provider)) (s : Loader)
    → s.init_promise ≡ none
    → ((sign_ins ((load, provider) ∷ rest) s).0
        ≡ answers (load firebase_config) (provider ∷ providers_of rest))
      × ((sign_ins ((load, provider) ∷ rest) s).1.loads ≡ suc s.loads)
unfolding sign_ins sign_in_with_oauth
sign_ins-answers load provider rest s h =
    rw
      (
        ensure_first load s h,
        sign_ins_loaded (load firebase_config) rest
            (record { init_promise = some (load firebase_config); loads = suc s.loads }) refl,
      )
      (refl, refl)
