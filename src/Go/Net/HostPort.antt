-- ===== src/Go/Net/HostPort.antt =====
-- net.SplitHostPort, with its errors in the order in which Go tests for them.
use funcbox.Prelude.{
  ℕ, ◌+◌, ◌-◌, Bool, false, Option, none, some, Bytes, codes, [], ◌∷◌, ◌++◌, ◌==◌, length, take,
  drop, if◌then◌else◌, Result, ok, err,
}
use funcbox.Go.Strings.{index, last_index, contains_byte}

pub data AddrError : Type 0 where
  missing_port too_many_colons missing_bracket unexpected_open unexpected_close : AddrError

unfoldable pub addr_error_text : AddrError → Bytes
addr_error_text missing_port = codes "missing port in address"
addr_error_text too_many_colons = codes "too many colons in address"
addr_error_text missing_bracket = codes "missing ']' in address"
addr_error_text unexpected_open = codes "unexpected '[' in address"
addr_error_text unexpected_close = codes "unexpected ']' in address"

-- (*AddrError).Error, for an address that is not empty
unfoldable pub addr_error_message : Bytes → AddrError → Bytes
unfolding addr_error_text
addr_error_message s e = codes "address " ++ (s ++ (codes ": " ++ addr_error_text e))

unfoldable pub starts_with_colon : Bytes → Bool
starts_with_colon [] = false
starts_with_colon (c ∷ s) = c == b':'

-- the last three tests, from the offsets `j` and `k`
unfoldable pub split_checked : Bytes → ℕ → Bytes → ℕ → ℕ → Result AddrError (Bytes × Bytes)
unfolding contains_byte
split_checked s i host j k =
    if contains_byte b'[' (drop j s)
    then err unexpected_open
    else if contains_byte b']' (drop k s)
    then err unexpected_close
    else ok (host, drop (i + 1) s)

-- a host in brackets that end at `end`
unfoldable pub split_bracketed : Bytes → ℕ → Option ℕ → Result AddrError (Bytes × Bytes)
unfolding split_checked starts_with_colon
split_bracketed s i none = err missing_bracket
split_bracketed s i (some end) =
    if (end + 1) == length s
    then err missing_port
    else if (end + 1) == i
    then split_checked s i (take (end - 1) (drop 1 s)) 1 (end + 1)
    else if starts_with_colon (drop (end + 1) s)
    then err too_many_colons
    else err missing_port

unfoldable pub split_at_colon : Bytes → Option ℕ → Result AddrError (Bytes × Bytes)
unfolding split_bracketed index
split_at_colon s none = err missing_port
split_at_colon [] (some i) = err missing_port
split_at_colon (c ∷ s) (some i) =
    if c == b'['
    then split_bracketed (c ∷ s) i (index b']' (c ∷ s))
    else if contains_byte b':' (take i (c ∷ s))
    then err too_many_colons
    else split_checked (c ∷ s) i (take i (c ∷ s)) 0 0

unfoldable pub split_host_port : Bytes → Result AddrError (Bytes × Bytes)
unfolding split_at_colon last_index
split_host_port s = split_at_colon s (last_index b':' s)
