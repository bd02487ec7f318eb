-- ===== src/Provider/Addresses.antt =====
-- ProviderDestination.go: addresses as the bytes of a net.IP, and the classes that are refused.
use velm.Base.{
  ℕ, zero, suc, ◌-◌, ◌/◌, ◌^◌, Bool, true, false, ◌&&◌, ◌||◌, if◌then◌else◌, Option, none, some,
  List, [], ◌∷◌, Text, ◌==◌, leb, nat_eq, length, any, take_bytes, drop_bytes,
}

abbrev pub Address : Type 0
Address = Text

abbrev mapped_prefix : Text
mapped_prefix = 0 ∷ 0 ∷ 0 ∷ 0 ∷ 0 ∷ 0 ∷ 0 ∷ 0 ∷ 0 ∷ 0 ∷ 255 ∷ 255 ∷ []

abbrev zeros : ℕ → Text
zeros zero = []
zeros (suc n) = 0 ∷ zeros n

-- To4: the four bytes of an IPv4 address in either form
unfoldable pub to4 : Address → Option Address
unfolding ◌==◌ take_bytes drop_bytes
to4 ip =
    if nat_eq (length ip) 4
    then some ip
    else if nat_eq (length ip) 16 && take_bytes 12 ip == mapped_prefix
    then some (drop_bytes 12 ip)
    else none

-- the four-byte form where there is one
unfoldable pub normal_form : Address → Address
unfolding to4
normal_form ip = elim (to4 ip) [ some v4 ↦ v4 | none ↦ ip ]

-- The first `bits` bits of two addresses of one length are the same.
unfoldable pub same_bits : ℕ → Address → Address → Bool
same_bits bits [] [] = true
same_bits bits [] (b ∷ ip) = false
same_bits bits (n ∷ net) [] = false
same_bits bits (n ∷ net) (b ∷ ip) =
    let rest = same_bits (bits - 8) net ip in
    (if leb 8 bits then nat_eq n b else nat_eq (n / 2 ^ (8 - bits)) (b / 2 ^ (8 - bits))) && rest

-- one entry of a list of networks: the bytes of its address, and its number of bits
abbrev pub Network : Type 0
Network = Address × ℕ

-- IPNet.Contains
unfoldable pub contains_address : Address → Network → Bool
unfolding normal_form same_bits
contains_address ip (net, bits) = same_bits bits net (normal_form ip)

-- IsLoopback, IsPrivate, IsUnspecified, IsLinkLocalUnicast, IsLinkLocalMulticast and IsMulticast of
-- net.IP, as the networks that they name
abbrev pub special_networks : List Network
special_networks =
    (127 ∷ 0 ∷ 0 ∷ 0 ∷ [], 8)
    ∷ (0 ∷ 0 ∷ 0 ∷ 0 ∷ 0 ∷ 0 ∷ 0 ∷ 0 ∷ 0 ∷ 0 ∷ 0 ∷ 0 ∷ 0 ∷ 0 ∷ 0 ∷ 1 ∷ [], 128)
    ∷ (10 ∷ 0 ∷ 0 ∷ 0 ∷ [], 8)
    ∷ (172 ∷ 16 ∷ 0 ∷ 0 ∷ [], 12)
    ∷ (192 ∷ 168 ∷ 0 ∷ 0 ∷ [], 16)
    ∷ (252 ∷ zeros 15, 7)
    ∷ (zeros 4, 32)
    ∷ (zeros 16, 128)
    ∷ (169 ∷ 254 ∷ 0 ∷ 0 ∷ [], 16)
    ∷ (254 ∷ 128 ∷ zeros 14, 10)
    ∷ (224 ∷ 0 ∷ 0 ∷ 0 ∷ [], 4)
    ∷ (255 ∷ zeros 15, 8)
    ∷ []

-- blockedProviderCIDRs
abbrev pub blocked_provider_cidrs : List Network
blocked_provider_cidrs =
    (100 ∷ 64 ∷ 0 ∷ 0 ∷ [], 10)
    ∷ (192 ∷ 0 ∷ 0 ∷ 0 ∷ [], 24)
    ∷ (192 ∷ 0 ∷ 2 ∷ 0 ∷ [], 24)
    ∷ (198 ∷ 18 ∷ 0 ∷ 0 ∷ [], 15)
    ∷ (198 ∷ 51 ∷ 100 ∷ 0 ∷ [], 24)
    ∷ (203 ∷ 0 ∷ 113 ∷ 0 ∷ [], 24)
    ∷ (240 ∷ 0 ∷ 0 ∷ 0 ∷ [], 4)
    ∷ (0 ∷ 100 ∷ 255 ∷ 155 ∷ 0 ∷ 1 ∷ zeros 10, 48)
    ∷ (32 ∷ 1 ∷ 13 ∷ 184 ∷ zeros 12, 32)
    ∷ (32 ∷ 2 ∷ zeros 14, 16)
    ∷ []

-- isBlockedProviderIP; a nil address has no bytes
unfoldable pub is_blocked_provider_ip : Address → Bool
unfolding normal_form contains_address
is_blocked_provider_ip ip =
    nat_eq (length ip) 0
    || any (contains_address (normal_form ip)) special_networks
    || any (contains_address (normal_form ip)) blocked_provider_cidrs
