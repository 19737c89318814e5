-- ===== src/Netguard.antt =====
-- The guard against private addresses of outbound connections, internal/netguard/netguard.go, with the
-- tests and networks of Go's `net` package that it uses. `net.ParseIP`, the resolver and `url.Parse` are
-- arguments. The letters that change case are those of ASCII.
pub mod Public
pub mod Ranges
use Prim.Native.Char.{code}
use Prim.Native.String
use Prim.Native.String.{len, slice}
use windsurf_to_api_go.Prelude.{
  ℕ, zero, suc, ◌+◌, ◌-◌, ◌*◌, ◌/◌, ◌%◌, ◌^◌, String, Bool, true, false, not, ◌&&◌, ◌||◌, Option,
  none, some, List, [], ◌∷◌, length, take, drop, ◌==◌, leb, same, contains, if◌then◌else◌,
}
use windsurf_to_api_go.Prelude.Texts.{lower_text}

-- `net.IP`: four bytes, or sixteen.
abbrev pub Ip : Type 0
Ip = List ℕ

unfoldable pub byte_at : ℕ → Ip → ℕ
byte_at i [] = 0
byte_at zero (b ∷ bs) = b
byte_at (suc i) (b ∷ bs) = byte_at i bs

unfoldable pub all_zero : Ip → Bool
all_zero [] = true
all_zero (b ∷ bs) = b == 0 && all_zero bs

-- `To4`: an address of version four, in either form, as four bytes.
unfoldable pub to4 : Ip → Option Ip
unfolding byte_at all_zero
to4 ip =
    if length ip == 4
    then some ip
    else if length ip == 16 && all_zero (take 10 ip) && byte_at 10 ip == 255 && byte_at 11 ip == 255
    then some (drop 12 ip)
    else none

-- A byte under the mask of its first `ones` bits.
unfoldable pub masked : ℕ → ℕ → ℕ
masked ones b = b / 2 ^ (8 - ones) * 2 ^ (8 - ones)

-- `IsLoopback`, `IsLinkLocalUnicast`, `IsLinkLocalMulticast`, `IsInterfaceLocalMulticast` (which no
-- address of version four is), `IsMulticast` and `IsUnspecified`, in this order: on the four bytes of
-- version four, and on sixteen bytes.
unfoldable pub is_reserved4 : Ip → Bool
unfolding byte_at all_zero masked
is_reserved4 ip =
    byte_at 0 ip == 127
    || byte_at 0 ip == 169 && byte_at 1 ip == 254
    || byte_at 0 ip == 224 && byte_at 1 ip == 0 && byte_at 2 ip == 0
    || masked 4 (byte_at 0 ip) == 224
    || all_zero ip

unfoldable pub is_reserved16 : Ip → Bool
unfolding byte_at all_zero masked
is_reserved16 ip =
    length ip == 16
    && (all_zero (take 15 ip) && byte_at 15 ip == 1
        || byte_at 0 ip == 254 && masked 2 (byte_at 1 ip) == 128
        || byte_at 0 ip == 255 && byte_at 1 ip % 16 == 2
        || byte_at 0 ip == 255 && byte_at 1 ip % 16 == 1
        || byte_at 0 ip == 255
        || all_zero ip)

-- `net.IPNet`, and whether the first `ones` bits of two addresses agree.
pub record IpNet : Type 0 where
  pub address : Ip
  pub ones : ℕ

unfoldable pub same_network : ℕ → Ip → Ip → Bool
unfolding masked
same_network ones [] [] = true
same_network ones [] (b ∷ bs) = false
same_network ones (n ∷ ns) [] = false
same_network ones (n ∷ ns) (b ∷ bs) =
    masked ones n == masked ones b && same_network (ones - 8) ns bs

unfoldable pub or_same : Ip → Option Ip → Ip
or_same ip none = ip
or_same ip (some v4) = v4

abbrev pub zeros : ℕ → Ip → Ip
zeros zero rest = rest
zeros (suc n) rest = 0 ∷ zeros n rest

abbrev pub network : Ip → ℕ → IpNet
network address ones = record { address = address; ones = ones }

abbrev pub private_cidrs : List IpNet
private_cidrs =
    network (10 ∷ 0 ∷ 0 ∷ 0 ∷ []) 8
    ∷ network (172 ∷ 16 ∷ 0 ∷ 0 ∷ []) 12
    ∷ network (192 ∷ 168 ∷ 0 ∷ 0 ∷ []) 16
    ∷ network (169 ∷ 254 ∷ 0 ∷ 0 ∷ []) 16
    ∷ network (127 ∷ 0 ∷ 0 ∷ 0 ∷ []) 8
    ∷ network (100 ∷ 64 ∷ 0 ∷ 0 ∷ []) 10
    ∷ network (252 ∷ zeros 15 []) 7
    ∷ network (254 ∷ 128 ∷ zeros 14 []) 10
    ∷ network (zeros 15 (1 ∷ [])) 128
    ∷ []

unfoldable pub in_networks : List IpNet → Ip → Bool
in_networks [] ip = false
in_networks (n ∷ ns) ip = same_network n.ones n.address ip || in_networks ns ip

unfoldable pub is_reserved : Ip → Option Ip → Bool
is_reserved ip none = is_reserved16 ip
is_reserved ip (some v4) = is_reserved4 v4

-- `IsPrivateIP`.
unfoldable pub is_private_ip : Option Ip → Bool
is_private_ip none = true
is_private_ip (some ip) = is_reserved ip (to4 ip) || in_networks private_cidrs (or_same ip (to4 ip))

-- `strings.TrimSpace`.
abbrev is_space : ℕ → Bool
is_space c =
    leb 9 c && leb c 13
    || c == 32
    || c == 133
    || c == 160
    || c == 5760
    || leb 8192 c && leb c 8202
    || c == 8232
    || c == 8233
    || c == 8239
    || c == 8287
    || c == 12288

unfoldable skip_spaces : String → String
skip_spaces String.[] = ""
skip_spaces (String.◌∷◌ c s) =
    let rest = skip_spaces s in if is_space (code c) then rest else String.◌∷◌ c s

unfoldable drop_end_spaces : String → String
drop_end_spaces String.[] = ""
drop_end_spaces (String.◌∷◌ c s) =
    let rest = drop_end_spaces s in
    if is_space (code c) && same rest "" then "" else String.◌∷◌ c rest

unfoldable pub trim_space : String → String
unfolding skip_spaces drop_end_spaces
trim_space s = drop_end_spaces (skip_spaces s)

abbrev pub has_suffix : String → String → Bool
has_suffix s suffix = leb (len suffix) (len s) && same (slice s (len s - len suffix) (len s)) suffix

unfoldable pub trim_brackets : String → String
trim_brackets host =
    let inner = if has_suffix host "]" then slice host 0 (len host - 1) else host in
    if same (slice inner 0 1) "[" then slice inner 1 (len inner) else inner

unfoldable pub bare : String → String
unfolding trim_space trim_brackets lower_text
bare host = lower_text (trim_brackets (trim_space host))

abbrev pub private_names : List String
private_names =
    "localhost" ∷ "metadata.google.internal" ∷ "metadata.aws.internal" ∷ "169.254.169.254"
    ∷ "100.100.100.200" ∷ []

unfoldable pub is_private_name : String → Bool
is_private_name host =
    contains host private_names
    || has_suffix host ".local"
    || has_suffix host ".internal"
    || has_suffix host ".lan"
    || has_suffix host ".home"

unfoldable pub is_private_literal : String → Option Ip → Bool
is_private_literal host (some ip) = is_private_ip (some ip)
is_private_literal host none = is_private_name host

-- `IsPrivateHost`, where `parse` is `net.ParseIP`.
unfoldable pub is_private_host : (String → Option Ip) → String → Bool
is_private_host parse host =
    if same (bare host) "" then true else is_private_literal (bare host) (parse (bare host))

-- What the guard refuses, and an error of the resolver or of `url.Parse`.
pub data GuardError : Type 0 where
  private_ip : GuardError
  private_host : GuardError
  invalid_host : GuardError
  failed : String → GuardError

pub data Guarded {ℓ} (A : Type ℓ) : Type ℓ where
  ok : A → Guarded A
  refused : GuardError → Guarded A

unfoldable pub any_private : List Ip → Bool
any_private [] = false
any_private (ip ∷ ips) = is_private_ip (some ip) || any_private ips

unfoldable pub check_answer : Guarded (List Ip) → Guarded (List Ip)
check_answer (refused e) = refused e
check_answer (ok []) = refused invalid_host
check_answer (ok (ip ∷ ips)) = if any_private (ip ∷ ips) then refused private_ip else ok (ip ∷ ips)

unfoldable pub literal_or_answer : Option Ip → Guarded (List Ip) → Guarded (List Ip)
literal_or_answer (some ip) answer = ok (ip ∷ [])
literal_or_answer none answer = check_answer answer

-- `ResolveAndCheckHost`; `lookup` is the resolver's `LookupIP`. The source calls it with a nil
-- context, at which Go's resolver panics for a name; the answer here is that of a call with a context.
unfoldable pub resolve_and_check_host :
    (String → Option Ip) → (String → Guarded (List Ip)) → String → Guarded (List Ip)
resolve_and_check_host parse lookup host =
    if is_private_host parse host
    then refused private_host
    else literal_or_answer (parse host) (lookup host)

-- `CheckProxyURL`, for an answer of `url.Parse` and the host name of the URL.
unfoldable pub check_answered : {U : Type 0} → U → Guarded (List Ip) → Guarded U
check_answered u (ok ips) = ok u
check_answered u (refused e) = refused e

unfoldable pub check_proxy_url :
    {U : Type 0}
    → (String → Option Ip)
    → (String → Guarded (List Ip))
    → (U → String)
    → Guarded U
    → Guarded U
unfolding resolve_and_check_host check_answered
check_proxy_url parse lookup hostname (refused e) = refused e
check_proxy_url parse lookup hostname (ok u) =
    if same (hostname u) ""
    then refused invalid_host
    else check_answered u (resolve_and_check_host parse lookup (hostname u))
