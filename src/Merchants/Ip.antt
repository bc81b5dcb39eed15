-- ===== src/Merchants/Ip.antt =====
-- modules/merchants/ip-utils.ts: addresses, CIDR blocks and the address of a client behind proxies.
-- Texts are lists of codes; whether a text is an address is for node's `net` to say.
use Prim.Native.Nat.{bit_and, bit_or}
use facilpay_api.Common.{
  ℕ, zero, suc, ◌+◌, ◌-◌, ◌*◌, ◌/◌, ◌%◌, ◌^◌, Bool, true, false, not, ◌&&◌, ◌||◌, Option, none,
  some, List, [], ◌∷◌, ◌++◌, map, leb, ltb, ◌==◌, if◌then◌else◌, filter, any, is_empty, length,
  or_else, or_other, includes,
}
use facilpay_api.Common.Text.{
  Text, same_text, split, digit, hex_digit, parse_int, to_lower_case, trim, trim_start,
  without_prefix,
}
pub mod Laws

-- `net.isIPv4` and `net.isIPv6`
pub record Net : Type 0 where
  pub is_ipv4 : Text → Bool
  pub is_ipv6 : Text → Bool

-- `(acc << 8) | octet` on 32 bits, taken without a sign as `>>> 0` does at the end.
abbrev pub shift_in : ℕ → ℕ → ℕ
shift_in acc octet = bit_or (acc * 256 % 2 ^ 32) (octet % 2 ^ 32)

abbrev pub shift_all : ℕ → List Text → ℕ
shift_all acc [] = acc
shift_all acc (octet ∷ octets) =
    shift_all (shift_in acc (or_else (parse_int digit 10 octet) 0)) octets

-- A part that is no number counts as 0, as NaN does for `|`. The full stop has the code 46.
pub ipv4_to_int : Text → ℕ
ipv4_to_int ip = shift_all 0 (split 46 ip) % 2 ^ 32

-- `(~0 << (32 - prefix)) >>> 0`
pub mask : ℕ → ℕ
mask zero = 0
mask (suc p) = (2 ^ 32 - 1) * 2 ^ (32 - suc p) % 2 ^ 32

abbrev pub same_ipv4_block : Text → Text → ℕ → Bool
same_ipv4_block ip range prefix =
    bit_and (ipv4_to_int ip) (mask prefix) == bit_and (ipv4_to_int range) (mask prefix)

-- The two parts around the first `::`, if there is one; a colon has the code 58.
abbrev pub cut_double_colon : Text → Option (Text × Text)
cut_double_colon [] = none
cut_double_colon (x ∷ []) = none
cut_double_colon (x ∷ y ∷ text) =
    let rest = cut_double_colon (y ∷ text) in
    if (x == 58) && (y == 58)
    then some ([], text)
    else elim rest [ none ↦ none | some (head, tail) ↦ some (x ∷ head, tail) ]

abbrev pub zeros : ℕ → List Text
zeros zero = []
zeros (suc n) = (48 ∷ []) ∷ zeros n

-- `head ? head.split(':').filter(Boolean) : []`
abbrev pub groups : Text → List Text
groups text = filter (λ part. not (is_empty part)) (split 58 text)

abbrev pub first_part : List Text → Text
first_part [] = []
first_part (part ∷ parts) = part

abbrev pub expanded : Text → Option (Text × Text) → List Text
expanded text none = split 58 text
expanded text (some (head, tail)) =
    let front = groups head in
    let back = groups tail in front ++ zeros (8 - length front - length back) ++ back

-- The parts of the address without its zone, filled up to eight; the sign `%` has the code 37.
pub ipv6_parts : Text → List Text
ipv6_parts ip =
    let without_zone = first_part (split 37 (to_lower_case ip)) in
    let parts = expanded without_zone (cut_double_colon without_zone) in
    parts ++ zeros (8 - length parts)

abbrev pub join_groups : ℕ → List Text → ℕ
join_groups acc [] = acc
join_groups acc (part ∷ parts) =
    join_groups (bit_or (acc * 65536) (or_else (parse_int hex_digit 16 part) 0)) parts

pub ipv6_to_big_int : Text → ℕ
ipv6_to_big_int ip = join_groups 0 (ipv6_parts ip)

abbrev pub same_ipv6_block : Text → Text → ℕ → Bool
same_ipv6_block ip range prefix =
    if prefix == 0
    then true
    else if prefix == 128
    then ipv6_to_big_int ip == ipv6_to_big_int range
    else ipv6_to_big_int ip / 2 ^ (128 - prefix) == ipv6_to_big_int range / 2 ^ (128 - prefix)

-- `ip.toLowerCase().replace(/^::ffff:/, '')`
unfoldable pub normalize_ip : Text → Text
normalize_ip ip =
    let lower = to_lower_case ip in
    or_else (without_prefix (58 ∷ 58 ∷ 102 ∷ 102 ∷ 102 ∷ 102 ∷ 58 ∷ []) lower) lower

-- `const [range, prefixStr] = cidr.split('/')`; the solidus has the code 47.
abbrev pub prefix_of : List Text → Text
prefix_of [] = []
prefix_of (range ∷ []) = []
prefix_of (range ∷ prefix ∷ parts) = prefix

abbrev pub without_plus : Text → Text
without_plus text = or_else (without_prefix (43 ∷ []) text) text

-- `parseInt(prefixStr, 10)`. A minus sign gives no number here, and a negative one in the code, which
-- both match nothing; only -0 is not modelled.
abbrev pub parse_prefix : Text → Option ℕ
parse_prefix text = parse_int digit 10 (without_plus (trim_start text))

pub record Request : Type 0 where
  -- of the socket, of the connection, and of the framework
  pub socket_address : Option Text
  pub connection_address : Option Text
  pub ip : Option Text
  -- the header `X-Forwarded-For`, or its first value, if there is one and it is not empty
  pub forwarded : Option Text

abbrev pub peer_of : Request → Text
peer_of req =
    normalize_ip (or_else (or_other (or_other req.socket_address req.connection_address) req.ip) [])

module _ (net : Net) where
  pub matches_block : Text → Text → Option ℕ → Bool
  matches_block ip range none = false
  matches_block ip range (some prefix) =
      if net.is_ipv4 ip && net.is_ipv4 range
      then (if ltb 32 prefix then false else same_ipv4_block ip range prefix)
      else if net.is_ipv6 ip && net.is_ipv6 range
      then (if ltb 128 prefix then false else same_ipv6_block ip range prefix)
      else false

  unfoldable pub matches_cidr : Text → Text → Bool
  matches_cidr ip cidr =
      if includes 47 cidr
      then matches_block ip (first_part (split 47 cidr)) (parse_prefix (prefix_of (split 47 cidr)))
      else same_text ip cidr || same_text (to_lower_case ip) (to_lower_case cidr)

  unfoldable pub is_trusted_proxy : Text → List Text → Bool
  is_trusted_proxy ip trusted = any (λ entry. matches_cidr (normalize_ip ip) entry) trusted

  unfoldable pub is_ip_allowed : Text → List Text → Bool
  is_ip_allowed ip allowed =
      if is_empty allowed then true else any (λ entry. matches_cidr (normalize_ip ip) entry) allowed

  -- `TRUSTED_PROXY_IPS`, split at the commas; a comma has the code 44.
  pub parse_trusted_proxy_list : Text → List Text
  parse_trusted_proxy_list value =
      filter (λ entry. not (is_empty entry)) (map trim (split 44 value))

  -- The entries of the header.
  unfoldable pub entries : Text → List Text
  entries raw =
      filter (λ entry. not (is_empty entry))
        (map (λ entry. normalize_ip (trim entry)) (split 44 raw))

  -- The walk from the right: the last entry that is no trusted proxy.
  unfoldable pub last_untrusted : List Text → List Text → Option Text
  last_untrusted trusted [] = none
  last_untrusted trusted (entry ∷ rest) =
      or_other (last_untrusted trusted rest)
        (if is_trusted_proxy entry trusted then none else some entry)

  pub extract_client_ip : Request → List Text → Option Text
  extract_client_ip req trusted =
      let peer = peer_of req in
      if is_empty peer then none else elim req.forwarded [
        | none ↦ some peer
        | some raw ↦
            if is_trusted_proxy peer trusted
            then or_other (last_untrusted trusted (entries raw)) (some peer)
            else some peer
      ]
