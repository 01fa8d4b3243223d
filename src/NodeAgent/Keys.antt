-- ===== src/NodeAgent/Keys.antt =====
-- The patterns that the agent requires of names and keys before it puts them into a command.
use vpn_suite.Prelude.{
  ℕ, String, Bool, false, ◌&&◌, ◌||◌, Option, none, some, leb, nat_beq, strip, all_chars,
  text_length, if◌then◌else◌,
}
use Prim.Native.Char.{code}

abbrev is_alnum : ℕ → Bool
is_alnum c = (leb b'a' c && leb c b'z') || (leb b'A' c && leb c b'Z') || (leb b'0' c && leb c b'9')

-- `[A-Za-z0-9+/=]`
abbrev is_key_char : ℕ → Bool
is_key_char c = is_alnum c || nat_beq c b'+' || nat_beq c b'/' || nat_beq c b'='

-- `[a-zA-Z0-9_.:-]`
abbrev is_interface_char : ℕ → Bool
is_interface_char c =
    is_alnum c || nat_beq c b'_' || nat_beq c b'.' || nat_beq c b':' || nat_beq c b'-'

-- `[a-zA-Z0-9_.-]`
abbrev is_container_char : ℕ → Bool
is_container_char c = is_alnum c || nat_beq c b'_' || nat_beq c b'.' || nat_beq c b'-'

-- `_PUBKEY_RE`
unfoldable pub is_pubkey : String → Bool
unfolding all_chars text_length
is_pubkey k = all_chars is_key_char k && leb 32 (text_length k) && leb (text_length k) 64

-- `_INTERFACE_NAME_RE`
unfoldable pub is_interface_name : String → Bool
unfolding all_chars text_length
is_interface_name n =
    all_chars is_interface_char n && leb 1 (text_length n) && leb (text_length n) 32

starts_alnum : String → Bool
starts_alnum String.[] = false
starts_alnum (String.◌∷◌ c s) = is_alnum (code c)

-- `_CONTAINER_NAME_RE`
unfoldable pub is_container_name : String → Bool
unfolding all_chars text_length starts_alnum
is_container_name n = starts_alnum n && all_chars is_container_char n && leb (text_length n) 128

-- `_sanitize_pubkey`; `none` is the `ValueError`.
unfoldable pub sanitize_pubkey : String → Option String
unfolding is_pubkey strip
sanitize_pubkey key = let k = strip key in if is_pubkey k then some k else none

-- `_sanitize_iface`
unfoldable pub sanitize_iface : String → Option String
unfolding is_interface_name strip
sanitize_iface name = let n = strip name in if is_interface_name n then some n else none

-- `_sanitize_container`
unfoldable pub sanitize_container : String → Option String
unfolding is_container_name strip
sanitize_container name = let n = strip name in if is_container_name n then some n else none
