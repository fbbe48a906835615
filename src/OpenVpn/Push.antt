-- ===== src/OpenVpn/Push.antt =====
-- src/openvpn/control.rs: the server's messages on the open TLS session, and the options of its
-- push reply. Text is bytes decoded by `String::from_utf8_lossy`, the parameter `lossy`.
pub mod Message
use unroxy.Base.{
  ℕ, suc, ◌+◌, Bool, true, false, not, ◌&&◌, ◌||◌, Option, none, some, List, [], ◌∷◌, ◌++◌, length,
  take, drop, filter, leb, ltb, ◌==◌, if◌then◌else◌,
}
use unroxy.Base.Text.{
  Text, codes, trim, strip_prefix, starts_with, split, is_whitespace, parse_decimal, decimal_digits,
}
use unroxy.Base.Address.{Ipv4Addr, parse_ipv4}
use unroxy.Base.{Result, ok, panic}
use unroxy.OpenVpn.Error.{Error}
use unroxy.OpenVpn.Config.{Cipher, parse_cipher}
use unroxy.OpenVpn.Packet.{PeerId}

pub record Pushed : Type 0 where
  pub cipher : Option Cipher
  pub peer_id : Option PeerId
  pub local : Option Ipv4Addr
  pub remote : Option Ipv4Addr

nothing_pushed : Pushed
nothing_pushed = record { cipher = none; peer_id = none; local = none; remote = none }

split_whitespace_from : Text → Text → List Text
split_whitespace_from word [] = word ∷ []
split_whitespace_from word (c ∷ s) =
    if is_whitespace c
    then word ∷ split_whitespace_from [] s
    else split_whitespace_from (word ++ (c ∷ [])) s

-- `str::split_whitespace`
split_whitespace : Text → List Text
split_whitespace s = filter (λ w. ltb 0 (length w)) (split_whitespace_from [] s)

-- `parts.next()` and the parse of what it gives
parse_first : List Text → Option Ipv4Addr
parse_first [] = none
parse_first (s ∷ parts) = parse_ipv4 s

-- The first name that is a cipher.
first_cipher : List Text → Option Cipher
first_cipher [] = none
first_cipher (name ∷ names) = elim (parse_cipher name) [
  | some c ↦ some c
  | none ↦ first_cipher names
]

or_else {ℓ} : {A : Type ℓ} → Option A → Option A → Option A
or_else none b = b
or_else (some a) b = some a

-- One option of the reply.
push_option : Pushed → Text → Pushed
push_option pushed line = elim (strip_prefix (codes "peer-id ") line) [
  | some peer ↦ record pushed {
    peer_id = or_else (parse_decimal 4294967295 (trim peer)) pushed.peer_id;
  }
  | none ↦ elim (strip_prefix (codes "cipher ") line) [
    | some name ↦ record pushed { cipher = or_else (parse_cipher name) pushed.cipher }
    | none ↦ elim (strip_prefix (codes "data-ciphers ") line) [
      | some names ↦ record pushed {
        cipher = or_else (first_cipher (split b':' names)) pushed.cipher;
      }
      | none ↦ elim (strip_prefix (codes "ifconfig ") line) [
        | none ↦ pushed
        | some rest ↦
            let parts = split_whitespace rest in
            record pushed { local = parse_first parts; remote = parse_first (drop 1 parts) }
      ]
    ]
  ]
]

push_options : Pushed → List Text → Pushed
push_options pushed [] = pushed
push_options pushed (line ∷ lines) = push_options (push_option pushed (trim line)) lines

-- `parse_push`
unfoldable pub parse_push : Text → Pushed
unfolding nothing_pushed parse_ipv4 split_whitespace_from split_whitespace parse_first first_cipher
    or_else push_option push_options
parse_push reply = push_options nothing_pushed (split b',' reply)

-- `position` of the prefix among the windows of its length
unfoldable pub position : List ℕ → List ℕ → Option ℕ
position prefix [] = none
position prefix (b ∷ bytes) =
    if starts_with prefix (b ∷ bytes)
    then some 0
    else elim (position prefix bytes) [ none ↦ none | some n ↦ some (suc n) ]

-- `position` of the first byte 0
unfoldable pub zero_at : List ℕ → Option ℕ
zero_at [] = none
zero_at (b ∷ bytes) =
    if b == 0 then some 0 else elim (zero_at bytes) [ none ↦ none | some n ↦ some (suc n) ]

-- The message as bytes, and the buffer behind its end.
unfoldable pub message_at : List ℕ → List ℕ → Option (List ℕ × List ℕ)
unfolding position zero_at
message_at buffer prefix = elim (position prefix buffer) [
  | none ↦ none
  | some at ↦ elim (zero_at (drop at buffer)) [
    | none ↦ none
    | some offset ↦ some (take offset (drop at buffer), drop (at + offset + 1) buffer)
  ]
]

-- `take_message`; there are no windows of the size 0.
unfoldable pub take_message : List ℕ → List ℕ → Result Error (Option (List ℕ × List ℕ))
unfolding message_at
take_message buffer [] = panic
take_message buffer (b ∷ prefix) = ok (message_at buffer (b ∷ prefix))
