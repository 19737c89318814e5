-- ===== src/Web/Views/Proxy/Body.antt =====
-- What the server reads of the body that web/src/views/Proxy.vue sends.
use windsurf_to_api_go.Prelude.{
  ◌≡◌, refl, ◌∙◌, ℕ, String, false, Option, none, some, same, same_refl,
}
use windsurf_to_api_go.Web.Request.{or_empty}
use windsurf_to_api_go.Web.Api.Json.{Fields, no_fields, text_at, number_at, property}
use windsurf_to_api_go.Web.Api.Types.Proxy.{ProxySpec}
use windsurf_to_api_go.Web.Views.Proxy.Server.{
  text_field, number_field, spec_json, decode_proxy, or_http, or_8080, or_default,
}

-- A field is skipped in the search for another one.
skip_text :
    (name other : String) (t : Option String) (rest : Fields)
    → same other name ≡ false
    → text_at name (text_field other t rest) ≡ text_at name rest
unfolding text_at property
skip_text name other none rest e = refl
skip_text name other (some s) rest e = rw (text_at, e) refl

skip_number :
    (name other : String) (n : Option ℕ) (rest : Fields)
    → same other name ≡ false
    → text_at name (number_field other n rest) ≡ text_at name rest
unfolding text_at property
skip_number name other none rest e = refl
skip_number name other (some n) rest e = rw (text_at, e) refl

skip_text_number :
    (name other : String) (t : Option String) (rest : Fields)
    → same other name ≡ false
    → number_at name (text_field other t rest) ≡ number_at name rest
unfolding number_at property
skip_text_number name other none rest e = refl
skip_text_number name other (some s) rest e = rw (number_at, e) refl

-- A field is found, where no later one has its name.
own_text :
    (name : String) (t : Option String) (rest : Fields)
    → text_at name rest ≡ none
    → text_at name (text_field name t rest) ≡ t
unfolding text_at property
own_text name none rest e = e
own_text name (some s) rest e = rw (text_at, same_refl name) refl

own_number :
    (name : String) (n : Option ℕ) (rest : Fields)
    → number_at name rest ≡ none
    → number_at name (number_field name n rest) ≡ n
unfolding number_at property
own_number name none rest e = e
own_number name (some n) rest e = rw (number_at, same_refl name) refl

abbrev user_on : ProxySpec → Fields
user_on p = text_field "user" p.user (text_field "pass" p.pass no_fields)

abbrev port_on : ProxySpec → Fields
port_on p = number_field "port" p.port (user_on p)

abbrev host_on : ProxySpec → Fields
host_on p = text_field "host" p.host (port_on p)

-- A text that is looked for behind the fields of the port, the user and the password.
behind_port :
    (name : String) (p : ProxySpec)
    → same "port" name ≡ false
    → same "user" name ≡ false
    → same "pass" name ≡ false
    → text_at name (port_on p) ≡ none
unfolding text_at property
behind_port name p e f g =
    skip_number name "port" p.port (user_on p) e
    ∙ skip_text name "user" p.user (text_field "pass" p.pass no_fields) f
    ∙ skip_text name "pass" p.pass no_fields g

absent :
    (name : String) (p : ProxySpec)
    → same "type" name ≡ false
    → same "host" name ≡ false
    → same "port" name ≡ false
    → same "user" name ≡ false
    → same "pass" name ≡ false
    → text_at name (spec_json p) ≡ none
unfolding spec_json
absent name p d c e f g =
    skip_text name "type" p.type_ (host_on p) d
    ∙ skip_text name "host" p.host (port_on p) c
    ∙ behind_port name p e f g

type_found : (p : ProxySpec) → text_at "type" (spec_json p) ≡ p.type_
unfolding spec_json
type_found p =
    own_text "type" p.type_ (host_on p)
      (skip_text "type" "host" p.host (port_on p) refl ∙ behind_port "type" p refl refl refl)

host_found : (p : ProxySpec) → text_at "host" (spec_json p) ≡ p.host
unfolding spec_json
host_found p =
    skip_text "host" "type" p.type_ (host_on p) refl
    ∙ own_text "host" p.host (port_on p) (behind_port "host" p refl refl refl)

port_found : (p : ProxySpec) → number_at "port" (spec_json p) ≡ p.port
unfolding spec_json number_at property
port_found p =
    skip_text_number "port" "type" p.type_ (host_on p) refl
    ∙ skip_text_number "port" "host" p.host (port_on p) refl
    ∙ own_number "port" p.port (user_on p) (
        skip_text_number "port" "user" p.user (text_field "pass" p.pass no_fields) refl
        ∙ skip_text_number "port" "pass" p.pass no_fields refl)

pub decode_proxy-spec_json :
    (p : ProxySpec)
    → same (or_empty p.host) "" ≡ false
    → decode_proxy (spec_json p)
      ≡ some (record {
        type_ = or_http (or_empty p.type_);
        host = or_empty p.host;
        port = or_8080 (or_default 0 p.port);
        username = "";
        password = "";
      })
unfolding decode_proxy
decode_proxy-spec_json p filled =
    rw
      (
        decode_proxy,
        type_found p,
        host_found p,
        port_found p,
        absent "username" p refl refl refl refl refl,
        absent "password" p refl refl refl refl refl,
        filled,
      )
      refl
