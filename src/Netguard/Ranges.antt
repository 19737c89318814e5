-- ===== src/Netguard/Ranges.antt =====
-- The private addresses of version four as ranges, for `IsPrivateIP` of internal/netguard/netguard.go.
use windsurf_to_api_go.Prelude.{
  ℕ, ◌+◌, ◌*◌, ◌<◌, Bool, false, ◌&&◌, ◌||◌, some, List, [], ◌∷◌, ◌==◌, leb, ◌≡◌, ◌∙◌, refl, arith,
}
use windsurf_to_api_go.Netguard.{
  private_cidrs, zeros, is_private_ip, to4, or_same, is_reserved, is_reserved4, byte_at, all_zero,
  masked, in_networks, same_network,
}

abbrev pub between : ℕ → ℕ → ℕ → Bool
between lo hi n = leb lo n && leb n hi

-- Bytes as the number of an address.
abbrev pub number : ℕ → ℕ → ℕ → ℕ → ℕ
number a b c d = ((a * 256 + b) * 256 + c) * 256 + d

abbrev pub in_ten : ℕ → Bool
in_ten = between (number 10 0 0 0) (number 10 255 255 255)

abbrev pub in_carrier : ℕ → Bool
in_carrier = between (number 100 64 0 0) (number 100 127 255 255)

abbrev pub in_loopback : ℕ → Bool
in_loopback = between (number 127 0 0 0) (number 127 255 255 255)

abbrev pub in_link_local : ℕ → Bool
in_link_local = between (number 169 254 0 0) (number 169 254 255 255)

abbrev pub in_rfc_1918 : ℕ → Bool
in_rfc_1918 = between (number 172 16 0 0) (number 172 31 255 255)

abbrev pub in_home : ℕ → Bool
in_home = between (number 192 168 0 0) (number 192 168 255 255)

abbrev pub in_multicast : ℕ → Bool
in_multicast = between (number 224 0 0 0) (number 239 255 255 255)

unfoldable pub is_private_number : ℕ → Bool
is_private_number n =
    n == 0
    || in_ten n
    || in_carrier n
    || in_loopback n
    || in_link_local n
    || in_rfc_1918 n
    || in_home n
    || in_multicast n

or_cong : {p p' q q' : Bool} → p ≡ p' → q ≡ q' → (p || q) ≡ (p' || q')
or_cong e f = rw (e, f) refl

rearranged :
    (l k m z t r h v : Bool)
    → ((l || k || m || z)
        || (t || (r || (h || (k || (l || (v || (false || (false || (false || false))))))))))
      ≡ (z || t || v || l || k || r || h || m)
rearranged l k m z t r h v = ground arith

module _ (a b c d : ℕ) (ha : a < 256) (hb : b < 256) (hc : c < 256) (hd : d < 256) where
  network_ten : same_network 8 (10 ∷ 0 ∷ 0 ∷ 0 ∷ []) (a ∷ b ∷ c ∷ d ∷ []) ≡ in_ten (number a b c d)
  unfolding same_network masked
  network_ten = ground arith

  network_rfc_1918 :
      same_network 12 (172 ∷ 16 ∷ 0 ∷ 0 ∷ []) (a ∷ b ∷ c ∷ d ∷ []) ≡ in_rfc_1918 (number a b c d)
  unfolding same_network masked
  network_rfc_1918 = ground arith

  network_home :
      same_network 16 (192 ∷ 168 ∷ 0 ∷ 0 ∷ []) (a ∷ b ∷ c ∷ d ∷ []) ≡ in_home (number a b c d)
  unfolding same_network masked
  network_home = ground arith

  network_link_local :
      same_network 16 (169 ∷ 254 ∷ 0 ∷ 0 ∷ []) (a ∷ b ∷ c ∷ d ∷ []) ≡ in_link_local (number a b c d)
  unfolding same_network masked
  network_link_local = ground arith

  network_loopback :
      same_network 8 (127 ∷ 0 ∷ 0 ∷ 0 ∷ []) (a ∷ b ∷ c ∷ d ∷ []) ≡ in_loopback (number a b c d)
  unfolding same_network masked
  network_loopback = ground arith

  network_carrier :
      same_network 10 (100 ∷ 64 ∷ 0 ∷ 0 ∷ []) (a ∷ b ∷ c ∷ d ∷ []) ≡ in_carrier (number a b c d)
  unfolding same_network masked
  network_carrier = ground arith

  number_of_multicast : (masked 4 a == 224) ≡ in_multicast (number a b c d)
  unfolding masked
  number_of_multicast = ground arith

  number_of_loopback : (a == 127) ≡ in_loopback (number a b c d)
  number_of_loopback = ground arith

  number_of_link_local : ((a == 169) && (b == 254)) ≡ in_link_local (number a b c d)
  number_of_link_local = ground arith

  number_of_zero : all_zero (a ∷ b ∷ c ∷ d ∷ []) ≡ (number a b c d == 0)
  unfolding all_zero
  number_of_zero = ground arith

  absorbed :
      (p : Bool)
      → ((p || (a == 224) && (b == 0) && (c == 0)) || (masked 4 a == 224))
        ≡ (p || (masked 4 a == 224))
  unfolding masked
  absorbed p = ground arith

  is_reserved4-number : is_reserved4 (a ∷ b ∷ c ∷ d ∷ []) ≡ (
      in_loopback (number a b c d)
      || in_link_local (number a b c d)
      || in_multicast (number a b c d)
      || number a b c d == 0)
  unfolding is_reserved4 byte_at
  is_reserved4-number =
      or_cong
        (absorbed _ ∙ or_cong (or_cong number_of_loopback number_of_link_local) number_of_multicast)
        number_of_zero

  sixteen_bytes :
      (ones k l e : ℕ) (es : List ℕ)
      → same_network ones (k ∷ l ∷ 0 ∷ 0 ∷ e ∷ es) (a ∷ b ∷ c ∷ d ∷ []) ≡ false
  unfolding same_network
  sixteen_bytes ones k l e es = ground arith

  in_networks-number : in_networks private_cidrs (a ∷ b ∷ c ∷ d ∷ []) ≡ (
      in_ten (number a b c d)
      || (in_rfc_1918 (number a b c d)
          || (in_home (number a b c d)
              || (in_link_local (number a b c d)
                  || (in_loopback (number a b c d)
                      || (in_carrier (number a b c d)
                          || (false || (false || (false || false)))))))))
  unfolding in_networks
  in_networks-number = or_cong network_ten (
      or_cong network_rfc_1918 (
        or_cong network_home (
          or_cong network_link_local (
            or_cong network_loopback (
              or_cong network_carrier (
                or_cong (sixteen_bytes 7 252 0 0 _) (
                  or_cong (sixteen_bytes 10 254 128 0 _)
                    (or_cong (sixteen_bytes 128 0 0 0 _) refl))))))))

  -- `IsPrivateIP` refuses exactly the addresses of version four in the private ranges, written in four
  -- bytes or as the last four of sixteen.
  pub is_private_ip-is_private_number :
      (is_private_ip (some (a ∷ b ∷ c ∷ d ∷ [])) ≡ is_private_number (number a b c d))
      × (is_private_ip (some (zeros 10 (255 ∷ 255 ∷ a ∷ b ∷ c ∷ d ∷ [])))
          ≡ is_private_number (number a b c d))
  unfolding is_private_ip is_private_number is_reserved to4 or_same
  is_private_ip-is_private_number =
      let n = number a b c d in
      let agrees =
        or_cong is_reserved4-number in_networks-number
        ∙ rearranged (in_loopback n) (in_link_local n) (in_multicast n) (n == 0) (in_ten n)
            (in_rfc_1918 n) (in_home n) (in_carrier n) in
      (agrees, agrees)
