-- ===== src/Tests/Guard.antt =====
-- The guard against private addresses on a few of them.
use mathlib.Core.List.{Memᴰ}
use mathlib.Core.Path.{subst}
use windsurf_to_api_go.Prelude.Tests.{same_iff}
use windsurf_to_api_go.Prelude.{
  String, true, false, Option, none, some, List, [], ◌∷◌, same, ◌≡◌, refl, sym, inl, inr, arith,
  Bool-cases, if◌then◌else◌,
}
use windsurf_to_api_go.Netguard.{
  Ip, zeros, bare, is_private_ip, is_reserved, is_reserved4, in_networks, same_network, to4,
  or_same, is_private_name, is_private_literal, is_private_host, Guarded, ok, any_private,
  check_answer, literal_or_answer, resolve_and_check_host,
}
use windsurf_to_api_go.Netguard.Public.{IsNormal, resolve_and_check_host-is_private_ip}
use windsurf_to_api_go.Netguard.Ranges.{is_private_number, number, is_private_ip-is_private_number}

abbrev name_server : Ip
name_server = 8 ∷ 8 ∷ 8 ∷ 8 ∷ []

abbrev parse_ip : String → Option Ip
parse_ip host = if same host "8.8.8.8" then some name_server else none

abbrev lookup_ip : String → Guarded (List Ip)
lookup_ip host = ok ((93 ∷ 184 ∷ 216 ∷ 34 ∷ []) ∷ [])

parse_ip-IsNormal : IsNormal parse_ip
unfolding bare
parse_ip-IsNormal host ip e = elim (Bool-cases (same host "8.8.8.8")) [
  | inl b ↦
      let named = (same_iff host "8.8.8.8").0 b in
      subst (λ h. parse_ip (bare h) ≡ some ip) (sym named)
        (subst (λ h. parse_ip h ≡ some ip) named e)
  | inr b ↦ ground arith
]

home_router : is_private_host parse_ip " [Router.LAN] " ≡ true
unfolding is_private_host is_private_literal is_private_name bare
home_router = refl

resolve_and_check_host-is_private_ip_example :
    is_private_host parse_ip "proxy.example.com" ≡ false
    × ((ip : Ip) → Memᴰ ip ((93 ∷ 184 ∷ 216 ∷ 34 ∷ []) ∷ []) → is_private_ip (some ip) ≡ false)
unfolding resolve_and_check_host is_private_host is_private_literal is_private_name bare
    literal_or_answer check_answer any_private is_private_ip is_reserved in_networks same_network
    or_same to4 is_reserved4
resolve_and_check_host-is_private_ip_example =
    resolve_and_check_host-is_private_ip parse_ip lookup_ip "proxy.example.com"
      ((93 ∷ 184 ∷ 216 ∷ 34 ∷ []) ∷ []) parse_ip-IsNormal refl

is_private_ip-is_private_number_example :
    (is_private_ip (some (172 ∷ 31 ∷ 0 ∷ 9 ∷ [])) ≡ is_private_number (number 172 31 0 9))
    × (is_private_ip (some (zeros 10 (255 ∷ 255 ∷ 172 ∷ 31 ∷ 0 ∷ 9 ∷ [])))
        ≡ is_private_number (number 172 31 0 9))
is_private_ip-is_private_number_example =
    is_private_ip-is_private_number 172 31 0 9 (ground arith) (ground arith) (ground arith)
      (ground arith)
