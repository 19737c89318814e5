-- ===== src/ProxyCfg.antt =====
-- The proxies of the server, internal/proxycfg/proxycfg.go: one for all accounts and one for each that
-- has its own. The writer of the file is modelled by what is pending.
pub mod Effective
use windsurf_to_api_go.Prelude.{
  ℕ, String, Bool, true, false, not, ◌||◌, Option, none, some, List, [], ◌==◌, same, if◌then◌else◌,
}
use windsurf_to_api_go.Prelude.Dict.{Dict}
use windsurf_to_api_go.Prelude.Dict

-- `langserver.Proxy`.
pub record Proxy : Type 0 where
  pub type_ : String
  pub host : String
  pub port : ℕ
  pub username : String
  pub password : String

-- `file`: an entry of the map may be null in the file, but none is written so.
pub record File : Type 0 where
  pub global : Option Proxy
  pub per_account : Dict Proxy

-- The state, the snapshot that waits for the writer, and the content of the file.
pub record ProxyState : Type 0 where
  pub state : File
  pub pending : Option File
  pub file : Option File

abbrev no_file : File
no_file = record { global = none; per_account = [] }

-- `Init`, with `none` for a file that cannot be read or parsed.
unfoldable pub init : Option File → ProxyState
init none = record { state = no_file; pending = none; file = none }
init (some loaded) = record { state = loaded; pending = none; file = some loaded }

unfoldable pub save : ProxyState → ProxyState
save s = record s { pending = some s.state }

-- A round of the writer: the last snapshot is written, if there is one.
abbrev written : Option File → ProxyState → ProxyState
written none s = s
written (some snapshot) s = record s { pending = none; file = some snapshot }

unfoldable pub run_save_writer : ProxyState → ProxyState
run_save_writer s = written s.pending s

unfoldable pub get : ProxyState → File
get s = s.state

-- A proxy that is set: it has a host, and a port, 8080 by default.
unfoldable pub accepted : Option Proxy → Option Proxy
accepted none = none
accepted (some p) =
    if same p.host "" then none else some (if p.port == 0 then record p { port = 8080 } else p)

unfoldable pub set_global : Option Proxy → ProxyState → ProxyState
unfolding save accepted
set_global p s = save (record s { state = record (s.state) { global = accepted p } })

abbrev with_account : String → Option Proxy → Dict Proxy → Dict Proxy
with_account id none m = Dict.delete id m
with_account id (some p) m = Dict.put id p m

unfoldable pub set_account : String → Option Proxy → ProxyState → ProxyState
unfolding save accepted Dict.put Dict.delete
set_account id p s = save (record s {
  state = record (s.state) { per_account = with_account id (accepted p) s.state.per_account };
})

pub data Scope : Type 0 where
  global_scope : Scope
  account_scope : Scope
  other_scope : Scope

abbrev removed : Scope → String → File → File
removed global_scope id f = record f { global = none }
removed account_scope id f = record f { per_account = Dict.delete id f.per_account }
removed other_scope id f = f

unfoldable pub remove : Scope → String → ProxyState → ProxyState
unfolding save Dict.delete
remove scope id s = save (record s { state = removed scope id s.state })

abbrev pub or_global : Option Proxy → Option Proxy → Option Proxy
or_global none global = global
or_global (some p) global = some p

unfoldable pub effective : String → ProxyState → Option Proxy
unfolding Dict.get
effective id s =
    if same id ""
    then s.state.global
    else or_global (Dict.get id s.state.per_account) s.state.global
