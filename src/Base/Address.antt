-- ===== src/Base/Address.antt =====
-- The texts that `std::net` reads as addresses.
use unroxy.Base.{
  ℕ, zero, suc, ◌+◌, ◌-◌, Bool, true, false, not, ◌&&◌, ◌||◌, Option, none, some, List, [], ◌∷◌,
  length, ltb, leb, ◌==◌, is_some, if◌then◌else◌,
}
use unroxy.Base.Text.{Text, split, is_digit, is_empty, decimal_digits}

-- An IPv4 address as its four numbers.
abbrev pub Ipv4Addr : Type 0
Ipv4Addr = List ℕ

-- An octet: one to three digits, no leading zero, at most 255.
parse_octet : Text → Option ℕ
parse_octet [] = none
parse_octet (c ∷ s) =
    if ltb 2 (length s) || ((c == b'0') && ltb 0 (length s))
    then none
    else decimal_digits 255 0 (c ∷ s)

parse_octets : List Text → Option (List ℕ)
parse_octets [] = some []
parse_octets (s ∷ parts) = elim (parse_octet s) [
  | none ↦ none
  | some n ↦ elim (parse_octets parts) [ none ↦ none | some ns ↦ some (n ∷ ns) ]
]

-- `parse::<Ipv4Addr>`
unfoldable pub parse_ipv4 : Text → Option Ipv4Addr
unfolding parse_octet parse_octets
parse_ipv4 s = let parts = split b'.' s in if length parts == 4 then parse_octets parts else none

-- The characters at the front that pass a test, and the rest.
span : (ℕ → Bool) → Text → Text × Text
span p [] = ([], [])
span p (c ∷ s) = let (front, rest) = span p s in if p c then (c ∷ front, rest) else ([], c ∷ s)

is_hex_digit : ℕ → Bool
is_hex_digit c = is_digit c || (leb b'a' c && leb c b'f') || (leb b'A' c && leb c b'F')

-- A separator, before every part but the first.
separated : ℕ → ℕ → Text → Option Text
separated d zero s = some s
separated d (suc i) [] = none
separated d (suc i) (c ∷ s) = if c == d then some s else none

-- The text behind an IPv4 address of so many more octets.
behind_octets : ℕ → ℕ → Text → Option Text
behind_octets zero i s = some s
behind_octets (suc more) i s = elim (separated b'.' i s) [
  | none ↦ none
  | some t ↦
      let (digits, rest) = span is_digit t in
      elim (parse_octet digits) [ none ↦ none | some n ↦ behind_octets more (suc i) rest ]
]

-- The text behind a group of one to four hexadecimal digits.
behind_group : Text → Option Text
behind_group s =
    let (digits, rest) = span is_hex_digit s in
    if leb 1 (length digits) && leb (length digits) 4 then some rest else none

-- The groups at the front: how many, whether an IPv4 address ends them, and the rest. That address
-- takes two groups.
read_groups : ℕ → ℕ → Text → ℕ × Bool × Text
read_groups zero i s = (i, false, s)
read_groups (suc more) i s = elim (separated b':' i s) [
  | none ↦ (i, false, s)
  | some t ↦ elim (if ltb 0 more then behind_octets 4 0 t else none) [
    | some rest ↦ (i + 2, true, rest)
    | none ↦ elim (behind_group t) [
      | none ↦ (i, false, s)
      | some rest ↦ read_groups more (suc i) rest
    ]
  ]
]

-- The groups behind the two colons, in the room that the groups before them leave.
ends_tail : ℕ → Text → Bool
ends_tail head_size s =
    let (tail_size, ipv4, rest) = read_groups (7 - head_size) 0 s in is_empty rest

behind_colons : ℕ → Text → Bool
behind_colons head_size [] = false
behind_colons head_size (c ∷ []) = false
behind_colons head_size (c ∷ (d ∷ s)) = (c == b':') && ((d == b':') && ends_tail head_size s)

-- Whether `parse::<Ipv6Addr>` takes the text.
unfoldable pub is_ipv6 : Text → Bool
unfolding parse_octet span is_hex_digit separated behind_octets behind_group read_groups ends_tail
    behind_colons
is_ipv6 s =
    let (head_size, ipv4, rest) = read_groups 8 0 s in
    if head_size == 8 then is_empty rest else not ipv4 && behind_colons head_size rest

-- Whether `parse::<IpAddr>` takes the text.
unfoldable pub is_ip : Text → Bool
unfolding parse_ipv4 is_ipv6
is_ip s = is_some (parse_ipv4 s) || is_ipv6 s
