-- ===== src/Endpoint/Text.antt =====
-- Endpoint::toString and Endpoint::parse of pc/src/net/udp_socket.cpp, with what they use of snprintf
-- and sscanf. A text is the list of its characters' codes.
pub mod Scan
pub mod RoundTrip
use wii_sec_u.Base.{
  ℕ, zero, suc, ◌+◌, ◌*◌, ◌-◌, ◌/◌, ◌%◌, ◌^◌, Bool, true, false, ◌&&◌, ◌||◌, List, [], ◌∷◌, ◌++◌,
  Option, none, some, take, ltb, leb, ◌==◌, if◌then◌else◌,
}
use wii_sec_u.Endpoint.{Endpoint}

-- `%u` of snprintf: at most `most` digits.
unfoldable pub decimal : ℕ → ℕ → List ℕ
decimal zero n = []
decimal (suc most) n =
    let rest = decimal most (n / 10) in
    if ltb n 10 then (48 + n) ∷ [] else rest ++ ((48 + n % 10) ∷ [])

-- A `uint32_t` has at most ten digits.
abbrev pub print_u : ℕ → List ℕ
print_u n = decimal 10 n

abbrev pub dot : ℕ
dot = 46

abbrev pub colon : ℕ
colon = 58

-- toString; the buffer has room for 31 characters.
unfoldable pub to_text : Endpoint → List ℕ
unfolding decimal
to_text e = take 31 (
    print_u (e.addr / 2 ^ 24 % 2 ^ 8)
    ++ (dot ∷ print_u (e.addr / 2 ^ 16 % 2 ^ 8)
        ++ (dot ∷ print_u (e.addr / 2 ^ 8 % 2 ^ 8)
            ++ (dot ∷ print_u (e.addr % 2 ^ 8) ++ (colon ∷ print_u e.port)))))

abbrev pub is_digit : ℕ → Bool
is_digit c = leb 48 c && leb c 57

abbrev pub is_space : ℕ → Bool
is_space c = c == 32 || leb 9 c && leb c 13

unfoldable pub skip_space : List ℕ → List ℕ
skip_space [] = []
skip_space (c ∷ text) = let rest = skip_space text in if is_space c then rest else c ∷ text

unfoldable pub read_digits : ℕ → List ℕ → ℕ × List ℕ
read_digits acc [] = (acc, [])
read_digits acc (c ∷ text) =
    let more = read_digits (acc * 10 + (c - 48)) text in
    if is_digit c then more else (acc, c ∷ text)

-- The digits of `%u`. `fit` is what a number becomes as an `unsigned`: the standard says so only for
-- one that fits.
unfoldable pub read_number : (ℕ → ℕ) → List ℕ → Option (ℕ × List ℕ)
unfolding read_digits
read_number fit [] = none
read_number fit (c ∷ text) =
    let (n, rest) = read_digits 0 (c ∷ text) in if is_digit c then some (fit n, rest) else none

-- `%u` takes a sign; with `-` the number is negated.
unfoldable pub read_signed : (ℕ → ℕ) → List ℕ → Option (ℕ × List ℕ)
unfolding read_number
read_signed fit [] = none
read_signed fit (c ∷ text) =
    if c == 43
    then read_number fit text
    else if c == 45
    then read_number (λ n. (2 ^ 32 - fit n) % 2 ^ 32) text
    else read_number fit (c ∷ text)

-- A part of sscanf's format.
pub data Directive : Type 0 where
  number : Directive
  exactly : ℕ → Directive

abbrev pub match_char : ℕ → List ℕ → Option (List ℕ)
match_char c [] = none
match_char c (d ∷ text) = if d == c then some text else none

-- The numbers that sscanf converts before the text ends or does not match; its result is their count.
unfoldable pub scan_format : (ℕ → ℕ) → List Directive → List ℕ → List ℕ
unfolding skip_space read_signed
scan_format fit [] text = []
scan_format fit (number ∷ ds) text = elim (read_signed fit (skip_space text)) [
  | none ↦ []
  | some (n, rest) ↦ n ∷ scan_format fit ds rest
]
scan_format fit (exactly c ∷ ds) text = elim (match_char c text) [
  | none ↦ []
  | some rest ↦ scan_format fit ds rest
]

-- "%u.%u.%u.%u:%u"
abbrev pub endpoint_format : List Directive
endpoint_format =
    number
    ∷ exactly dot
    ∷ number
    ∷ exactly dot
    ∷ number
    ∷ exactly dot
    ∷ number
    ∷ exactly colon
    ∷ number
    ∷ []

abbrev pub no_endpoint : Endpoint
no_endpoint = record { addr = 0; port = 0 }

abbrev pub port_or : ℕ → List ℕ → ℕ
port_or default_port [] = default_port
port_or default_port (p ∷ ps) = p

-- The tests of parse on the numbers.
unfoldable pub endpoint_of : ℕ → List ℕ → Endpoint
endpoint_of default_port (a ∷ b ∷ c ∷ d ∷ rest) =
    let port = port_or default_port rest in
    if ltb 255 a || (ltb 255 b || (ltb 255 c || (ltb 255 d || (port == 0 || ltb 65535 port))))
    then no_endpoint
    else record { addr = a * 2 ^ 24 + b * 2 ^ 16 + c * 2 ^ 8 + d; port = port % 2 ^ 16 }
endpoint_of default_port [] = no_endpoint
endpoint_of default_port (a ∷ []) = no_endpoint
endpoint_of default_port (a ∷ b ∷ []) = no_endpoint
endpoint_of default_port (a ∷ b ∷ c ∷ []) = no_endpoint

unfoldable pub parse_endpoint : (ℕ → ℕ) → List ℕ → ℕ → Endpoint
unfolding scan_format endpoint_of
parse_endpoint fit text default_port =
    endpoint_of default_port (scan_format fit endpoint_format text)
