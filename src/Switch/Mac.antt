-- ===== src/Switch/Mac.antt =====
-- `net.ParseMAC` of Go, on the characters of a text, and the number that ctrl_mgr/cp.go makes of it.
use Prim.Native.Char.{code}
use horus_controller.Prelude.{
  ℕ, ◌+◌, ◌-◌, ◌*◌, ◌/◌, ◌%◌, String, Bool, false, ◌&&◌, ◌||◌, Option, none, some, List, [], ◌∷◌,
  Outcome, returned, crashed, leb, ltb, nat_beq, if◌then◌else◌, get_elem?, length,
}

-- The codes of the characters.
abbrev pub codes : String → List ℕ
codes String.[] = []
codes (String.◌∷◌ c s) = code c ∷ codes s

-- `a <= x && x <= b`
abbrev pub between : ℕ → ℕ → ℕ → Bool
between a b x = leb a x && leb x b

-- A hexadecimal digit.
abbrev pub hex_digit : ℕ → Option ℕ
hex_digit x =
    if between 48 57 x
    then some (x - 48)
    else (if between 97 102 x
        then some (x - 87)
        else (if between 65 70 x then some (x - 55) else none))

-- `xtoi2` of two characters.
abbrev pub hex_byte : ℕ → ℕ → Option ℕ
hex_byte x y = elim (hex_digit x) [
  | none ↦ none
  | some a ↦ elim (hex_digit y) [ none ↦ none | some b ↦ some (a * 16 + b) ]
]

abbrev pub prepend : Option ℕ → Option (List ℕ) → Option (List ℕ)
prepend none bs = none
prepend (some b) none = none
prepend (some b) (some bs) = some (b ∷ bs)

-- Bytes with a separator behind each but the last.
unfoldable pub separated : ℕ → List ℕ → Option (List ℕ)
separated sep [] = none
separated sep (x ∷ []) = none
separated sep (x ∷ y ∷ []) = prepend (hex_byte x y) (some [])
separated sep (x ∷ y ∷ e ∷ rest) =
    let more = separated sep rest in if nat_beq e sep then prepend (hex_byte x y) more else none

-- Pairs of bytes with a dot behind each pair but the last.
unfoldable pub dotted : List ℕ → Option (List ℕ)
dotted (x ∷ y ∷ z ∷ w ∷ []) = prepend (hex_byte x y) (prepend (hex_byte z w) (some []))
dotted (x ∷ y ∷ z ∷ w ∷ e ∷ rest) =
    let more = dotted rest in
    if nat_beq e 46 then prepend (hex_byte x y) (prepend (hex_byte z w) more) else none
dotted _ = none

-- `n == 6 || n == 8 || n == 20`
abbrev pub is_mac_length : ℕ → Bool
is_mac_length n = nat_beq n 6 || nat_beq n 8 || nat_beq n 20

-- Is the character at `i` this one?
abbrev pub is_at : ℕ → ℕ → List ℕ → Bool
is_at i x s = elim (get_elem? s i) [ none ↦ false | some y ↦ nat_beq y x ]

unfoldable pub parse_mac : List ℕ → Option (List ℕ)
unfolding separated dotted
parse_mac s =
    let n = length s in
    let with_colons =
      if nat_beq ((n + 1) % 3) 0 && is_mac_length ((n + 1) / 3) then separated 58 s else none in
    let with_dashes =
      if nat_beq ((n + 1) % 3) 0 && is_mac_length ((n + 1) / 3) then separated 45 s else none in
    let with_dots =
      if nat_beq ((n + 1) % 5) 0 && is_mac_length (2 * (n + 1) / 5) then dotted s else none in
    if ltb n 14
    then none
    else (if is_at 2 58 s
        then with_colons
        else (if is_at 2 45 s then with_dashes else (if is_at 4 46 s then with_dots else none)))

-- `binary.BigEndian.Uint64`
abbrev pub big_endian : ℕ → List ℕ → ℕ
big_endian acc [] = acc
big_endian acc (b ∷ bs) = big_endian (acc * 256 + b) bs

-- The padding to eight bytes does not change the number, and crashes on the 20 bytes of an
-- InfiniBand address; an address that does not parse ends in `logrus.Fatal`.
unfoldable pub mac_data : String → Outcome ℕ
unfolding parse_mac
mac_data address = elim (parse_mac (codes address)) [
  | none ↦ crashed
  | some bytes ↦ if leb (length bytes) 8 then returned (big_endian 0 bytes) else crashed
]
