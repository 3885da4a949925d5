-- ===== src/Endpoint/Text/RoundTrip.antt =====
-- The text of an endpoint read back.
use wii_sec_u.Base.{
  ℕ, ◌+◌, ◌*◌, ◌/◌, ◌%◌, ◌^◌, ◌≤◌, ◌<◌, ◌≡◌, refl, sym, ap, ◌∙◌, false, List, [], ◌∷◌, ◌++◌, ltb,
  arith, length-append, append-nil, ne→not_==,
}
use wii_sec_u.Endpoint.{Endpoint}
use wii_sec_u.Endpoint.Text.{
  print_u, dot, colon, to_text, Directive, number, exactly, scan_format, endpoint_format,
  endpoint_of, parse_endpoint,
}
use wii_sec_u.Endpoint.Text.Scan.{
  Ends, Prints, decimal-Prints, length-decimal, number_taken, char_taken, byte_short, take_whole,
}

abbrev parts : ℕ → ℕ → ℕ → ℕ → ℕ → List ℕ
parts a b c d port =
    print_u a
    ++ (dot ∷ print_u b ++ (dot ∷ print_u c ++ (dot ∷ print_u d ++ (colon ∷ print_u port))))

byte-Prints : (n : ℕ) → Prints (n % 2 ^ 8) (print_u (n % 2 ^ 8))
byte-Prints n = decimal-Prints 10 (n % 2 ^ 8) (omega arith) (omega arith)

-- At most 21 characters.
to_text_whole :
    (e : Endpoint)
    → e.port < 2 ^ 16
    → to_text e
      ≡ parts
          (e.addr / 2 ^ 24 % 2 ^ 8)
          (e.addr / 2 ^ 16 % 2 ^ 8)
          (e.addr / 2 ^ 8 % 2 ^ 8)
          (e.addr % 2 ^ 8)
          e.port
unfolding to_text
to_text_whole e h = take_whole 31 _ (
    omega (
      arith,
      byte_short (e.addr / 2 ^ 24),
      byte_short (e.addr / 2 ^ 16),
      byte_short (e.addr / 2 ^ 8),
      byte_short e.addr,
      length-decimal 10 5 e.port (omega arith) (omega arith),
      length-append (print_u (e.addr / 2 ^ 24 % 2 ^ 8)) (
          dot ∷ print_u (e.addr / 2 ^ 16 % 2 ^ 8)
          ++ (dot ∷ print_u (e.addr / 2 ^ 8 % 2 ^ 8)
              ++ (dot ∷ print_u (e.addr % 2 ^ 8) ++ (colon ∷ print_u e.port)))),
      length-append (print_u (e.addr / 2 ^ 16 % 2 ^ 8)) (
          dot ∷ print_u (e.addr / 2 ^ 8 % 2 ^ 8)
          ++ (dot ∷ print_u (e.addr % 2 ^ 8) ++ (colon ∷ print_u e.port))),
      length-append (print_u (e.addr / 2 ^ 8 % 2 ^ 8))
          (dot ∷ print_u (e.addr % 2 ^ 8) ++ (colon ∷ print_u e.port)),
      length-append (print_u (e.addr % 2 ^ 8)) (colon ∷ print_u e.port),
    ))

-- A number of the format, and the character after it.
number_char_taken :
    (fit : ℕ → ℕ) (ds : List Directive) (n c : ℕ) (xs rest : List ℕ)
    → Prints n xs
    → Ends (c ∷ rest)
    → scan_format fit (number ∷ exactly c ∷ ds) (xs ++ (c ∷ rest)) ≡ fit n ∷ scan_format fit ds rest
number_char_taken fit ds n c xs rest p e =
    number_taken fit (exactly c ∷ ds) n xs (c ∷ rest) p e
    ∙ ap (λ ns. fit n ∷ ns) (char_taken fit ds c rest)

last_taken :
    (fit : ℕ → ℕ) (n : ℕ) (xs : List ℕ)
    → Prints n xs
    → scan_format fit (number ∷ []) xs ≡ fit n ∷ []
unfolding scan_format
last_taken fit n xs p =
    ap (scan_format fit (number ∷ [])) (sym (append-nil xs)) ∙ number_taken fit [] n xs [] p tt

parts_scanned :
    (fit : ℕ → ℕ) (a b c d port : ℕ)
    → Prints a (print_u a)
    → Prints b (print_u b)
    → Prints c (print_u c)
    → Prints d (print_u d)
    → Prints port (print_u port)
    → scan_format fit endpoint_format (parts a b c d port)
      ≡ fit a ∷ fit b ∷ fit c ∷ fit d ∷ fit port ∷ []
parts_scanned fit a b c d port pa pb pc pd pp =
    number_char_taken fit _ a dot (print_u a) _ pa refl
    ∙ ap (λ ns. fit a ∷ ns)
        (number_char_taken fit _ b dot (print_u b) _ pb refl
          ∙ ap (λ ns. fit b ∷ ns)
              (number_char_taken fit _ c dot (print_u c) _ pc refl
                ∙ ap (λ ns. fit c ∷ ns)
                    (number_char_taken fit _ d colon (print_u d) _ pd refl
                      ∙ ap (λ ns. fit d ∷ ns) (last_taken fit port (print_u port) pp))))

le→not_ltb : (n most : ℕ) → n ≤ most → ltb most n ≡ false
le→not_ltb n most h = ground arith

not_ltb : (n : ℕ) → n < 2 ^ 8 → ltb 255 n ≡ false
not_ltb n h = le→not_ltb n 255 (omega arith)

Endpoint-eq : (x y : Endpoint) → x.addr ≡ y.addr → x.port ≡ y.port → x ≡ y
Endpoint-eq x y p q = λ i. record { addr = p i; port = q i }

endpoint_of_lem :
    (default_port a b c d port : ℕ)
    → a < 2 ^ 8
    → b < 2 ^ 8
    → c < 2 ^ 8
    → d < 2 ^ 8
    → 0 < port
    → port < 2 ^ 16
    → endpoint_of default_port (a ∷ b ∷ c ∷ d ∷ port ∷ [])
      ≡ record { addr = a * 2 ^ 24 + b * 2 ^ 16 + c * 2 ^ 8 + d; port = port % 2 ^ 16 }
unfolding endpoint_of
endpoint_of_lem default_port a b c d port ha hb hc hd positive small =
    rw
      (
        not_ltb a ha,
        not_ltb b hb,
        not_ltb c hc,
        not_ltb d hd,
        ne→not_== port 0 (λ e. omega (arith, e)),
        le→not_ltb port 65535 (omega arith),
      )
      refl

-- Every endpoint with a port printed by toString is read back by parse, whatever the default port, if
-- sscanf keeps the numbers that fit in 32 bits.
pub parse_endpoint-to_text :
    (fit : ℕ → ℕ) (e : Endpoint) (default_port : ℕ)
    → ((n : ℕ) → n < 2 ^ 32 → fit n ≡ n)
    → e.addr < 2 ^ 32
    → 0 < e.port
    → e.port < 2 ^ 16
    → parse_endpoint fit (to_text e) default_port ≡ e
unfolding parse_endpoint
parse_endpoint-to_text fit e default_port keeps fits_addr port_set fits_port =
    let a = e.addr / 2 ^ 24 % 2 ^ 8 in
    let b = e.addr / 2 ^ 16 % 2 ^ 8 in
    let c = e.addr / 2 ^ 8 % 2 ^ 8 in
    let d = e.addr % 2 ^ 8 in
    let scanned : scan_format fit endpoint_format (to_text e)
        ≡ fit a ∷ fit b ∷ fit c ∷ fit d ∷ fit e.port ∷ [] =
      ap (scan_format fit endpoint_format) (to_text_whole e fits_port)
      ∙ parts_scanned fit a b c d e.port (byte-Prints (e.addr / 2 ^ 24))
          (byte-Prints (e.addr / 2 ^ 16)) (byte-Prints (e.addr / 2 ^ 8)) (byte-Prints e.addr)
          (decimal-Prints 10 e.port (omega arith) (omega arith)) in
    let kept : fit a ∷ fit b ∷ fit c ∷ fit d ∷ fit e.port ∷ [] ≡ a ∷ b ∷ c ∷ d ∷ e.port ∷ [] =
      rw
        (
          keeps a (omega arith),
          keeps b (omega arith),
          keeps c (omega arith),
          keeps d (omega arith),
          keeps e.port (omega arith),
        )
        refl in
    ap (endpoint_of default_port) (scanned ∙ kept)
    ∙ endpoint_of_lem default_port a b c d e.port (omega arith) (omega arith) (omega arith)
        (omega arith) port_set fits_port
    ∙ Endpoint-eq _ _ (omega arith) (omega arith)
