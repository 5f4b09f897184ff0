-- ===== src/Address.antt =====
-- src/socket/ipaddress.h and ipaddress.cpp: the order of addresses, masks, the numbers of ones, and
-- what Lookup makes of a host. An address is the list of its bytes, as getAddr and getAddrLen give it.
-- getaddrinfo and inet_pton are outside of the program.
pub mod Order
pub mod Ones
use cpp_server_framework.Prelude.{
  ℕ, zero, suc, ◌+◌, ◌-◌, ◌*◌, ◌/◌, ◌%◌, ◌^◌, min, Bool, true, false, not, ◌&&◌, ◌||◌, Text, bytes,
  List, [], ◌∷◌, ◌++◌, Option, none, some, and_then, length, take, drop, ltb, leb, ◌==◌,
  if◌then◌else◌, bit_and, bit_or,
}
use cpp_server_framework.Endians.{Endian, byteswap_on_little_endian, bswap_16, bswap_32, shl}

-- The sign of what memcmp gives.
pub data Sign : Type 0 where
  below : Sign
  same : Sign
  above : Sign

-- memcmp over that many bytes.
abbrev pub mem_cmp : ℕ → Text → Text → Sign
mem_cmp (suc n) (x ∷ a) (y ∷ b) =
    let rest = mem_cmp n a b in if ltb x y then below else if ltb y x then above else rest
mem_cmp n a b = same

abbrev pub by_length : Sign → Text → Text → Bool
by_length below a b = true
by_length above a b = false
by_length same a b = ltb (length a) (length b)

-- Address::operator<
unfoldable pub is_less : Text → Text → Bool
is_less a b = by_length (mem_cmp (min (length a) (length b)) a b) a b

abbrev pub is_same : Sign → Bool
is_same same = true
is_same below = false
is_same above = false

-- Address::operator==
unfoldable pub is_equal : Text → Text → Bool
is_equal a b = (length a == length b) && is_same (mem_cmp (length a) a b)

-- CreateMask for an unsigned type of w bits: ~(~0 << bits); a shift by w bits or more is undefined.
unfoldable pub create_mask : ℕ → ℕ → Option ℕ
create_mask w bits = if ltb bits w then some (2 ^ w - 1 - shl w (2 ^ w - 1) bits) else none

-- The loop of CountBytes, on fuel.
unfoldable pub count_bytes : ℕ → ℕ → ℕ
count_bytes zero value = 0
count_bytes (suc fuel) value =
    let rest = count_bytes fuel (bit_and value (value - 1)) in if value == 0 then 0 else suc rest

-- m_addr of an IPv4Address, as it stands in memory.
pub record Ipv4Address : Type 0 where
  pub sin_port : ℕ
  pub s_addr : ℕ

-- A new address, a null pointer, or undefined behaviour.
pub data Created : Type 0 where
  created : Ipv4Address → Created
  null_pointer : Created
  undefined : Created

abbrev pub of_mask : (ℕ → Ipv4Address) → Option ℕ → Created
of_mask f none = undefined
of_mask f (some m) = created (f m)

module _ (byte_order : Endian) where
  unfoldable pub new_ipv4 : ℕ → ℕ → Ipv4Address
  new_ipv4 address port = record {
    sin_port = byteswap_on_little_endian byte_order bswap_16 port;
    s_addr = byteswap_on_little_endian byte_order bswap_32 address;
  }

  unfoldable pub broadcast_address : ℕ → Ipv4Address → Created
  broadcast_address prefix_len a =
      if ltb 32 prefix_len
      then null_pointer
      else of_mask
          (λ m. record a {
            s_addr =
                bit_or a.s_addr (byteswap_on_little_endian byte_order bswap_32 (2 ^ 32 - 1 - m));
          })
          (create_mask 32 prefix_len)

  unfoldable pub network_address : ℕ → Ipv4Address → Created
  network_address prefix_len a =
      if ltb 32 prefix_len
      then null_pointer
      else of_mask
          (λ m. record a {
            s_addr = bit_and a.s_addr (byteswap_on_little_endian byte_order bswap_32 m);
          })
          (create_mask 32 prefix_len)

  unfoldable pub subnet_mask : ℕ → Created
  subnet_mask prefix_len =
      of_mask
        (λ m. record { sin_port = 0; s_addr = byteswap_on_little_endian byte_order bswap_32 m })
        (create_mask 32 prefix_len)

  unfoldable pub get_port : Ipv4Address → ℕ
  get_port a = byteswap_on_little_endian byte_order bswap_16 a.sin_port

  unfoldable pub set_port : ℕ → Ipv4Address → Ipv4Address
  set_port v a = record a { sin_port = byteswap_on_little_endian byte_order bswap_16 v }

-- The path and the length of a UnixAddress; `none` is the exception. The member sun_path has 108
-- bytes and stands behind two others.
unfoldable pub new_unix : Text → Option (Text × ℕ)
new_unix path =
    let abstract_path = elim path as (λ _. Bool) [ [] ↦ false | c ∷ rest ↦ c == 0 ] in
    let len = if abstract_path then length path else length path + 1 in
    if ltb 108 len then none else some (take len (path ++ (0 ∷ [])), len + 2)
