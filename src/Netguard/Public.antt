-- ===== src/Netguard/Public.antt =====
-- What the guard of internal/netguard/netguard.go lets through.
use mathlib.Core.List.{Memᴰ}
use mathlib.Core.Path.{ap, sym}
use windsurf_to_api_go.Prelude.{arith}
use windsurf_to_api_go.Prelude.{
  String, false, Option, none, some, List, [], ◌∷◌, same, ◌≡◌, ◌∙◌, refl, inl, inr, Bool-cases,
}
use windsurf_to_api_go.Netguard.{
  Ip, bare, is_private_ip, is_private_literal, is_private_host, Guarded, ok, refused, any_private,
  check_answer, literal_or_answer, resolve_and_check_host,
}

-- `net.ParseIP` refuses white space and brackets and reads letters of either case alike.
abbrev pub IsNormal : (String → Option Ip) → Type 0
IsNormal parse = (host : String) (ip : Ip) → parse host ≡ some ip → parse (bare host) ≡ some ip

any_private-mem :
    (ip : Ip) (ips : List Ip)
    → any_private ips ≡ false
    → Memᴰ ip ips
    → is_private_ip (some ip) ≡ false
unfolding any_private
any_private-mem ip [] h m = elim m [ ]
any_private-mem ip (x ∷ ips) h (Memᴰ.head e) = rw e (ground arith)
any_private-mem ip (x ∷ ips) h (Memᴰ.tail m) = any_private-mem ip ips (ground arith) m

unfoldable answered : Guarded (List Ip) → List Ip
answered (ok ips) = ips
answered (refused e) = []

check_answer-any_private :
    (answer : Guarded (List Ip)) (ips : List Ip)
    → check_answer answer ≡ ok ips
    → any_private ips ≡ false
unfolding check_answer
check_answer-any_private (refused e) ips h = ground arith
check_answer-any_private (ok []) ips h = ground arith
check_answer-any_private (ok (x ∷ xs)) ips h = ground arith

literal_or_answer-any_private :
    (literal : Option Ip) (answer : Guarded (List Ip)) (ips : List Ip)
    → ((ip : Ip) → literal ≡ some ip → is_private_ip (some ip) ≡ false)
    → literal_or_answer literal answer ≡ ok ips
    → any_private ips ≡ false
unfolding literal_or_answer any_private answered
literal_or_answer-any_private (some ip) answer ips public h =
    let e = ap answered h in rw (sym e, public ip refl) refl
literal_or_answer-any_private none answer ips public h = check_answer-any_private answer ips h

is_private_host-literal :
    (parse : String → Option Ip) (host : String) (ip : Ip)
    → is_private_host parse host ≡ false
    → parse (bare host) ≡ some ip
    → is_private_ip (some ip) ≡ false
unfolding is_private_host is_private_literal
is_private_host-literal parse host ip h e = elim (Bool-cases (same (bare host) "")) [
  | inl b ↦ ground arith
  | inr b ↦
      let agrees : is_private_host parse host ≡ is_private_ip (some ip) = rw (b, e) refl in
      sym agrees ∙ h
]

resolve_and_check_host-any_private :
    (parse : String → Option Ip) (lookup : String → Guarded (List Ip)) (host : String)
    (ips : List Ip)
    → IsNormal parse
    → resolve_and_check_host parse lookup host ≡ ok ips
    → is_private_host parse host ≡ false × any_private ips ≡ false
unfolding resolve_and_check_host
resolve_and_check_host-any_private parse lookup host ips normal h =
    elim (Bool-cases (is_private_host parse host)) [
      | inl b ↦ ground arith
      | inr b ↦ (
        b,
        literal_or_answer-any_private (parse host) (lookup host) ips
            (λ ip e. is_private_host-literal parse host ip b (normal host ip e))
            (let agrees : resolve_and_check_host parse lookup host
                  ≡ literal_or_answer (parse host) (lookup host) =
                rw b refl in
              sym agrees ∙ h),
      )
    ]

-- The guard lets no private host through, and every address that `ResolveAndCheckHost` returns is a
-- public one, for a `net.ParseIP` that refuses white space and brackets and ignores the case of letters.
pub resolve_and_check_host-is_private_ip :
    (parse : String → Option Ip) (lookup : String → Guarded (List Ip)) (host : String)
    (ips : List Ip)
    → IsNormal parse
    → resolve_and_check_host parse lookup host ≡ ok ips
    → is_private_host parse host ≡ false
      × ((ip : Ip) → Memᴰ ip ips → is_private_ip (some ip) ≡ false)
resolve_and_check_host-is_private_ip parse lookup host ips normal h =
    let (named, answered) = resolve_and_check_host-any_private parse lookup host ips normal h in
    (named, λ ip m. any_private-mem ip ips answered m)
