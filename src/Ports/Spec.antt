-- ===== src/Ports/Spec.antt =====
-- core/model/port.go: port specs, as cage and lane, and expandPortSpec.
use horus_controller.Switch.Mac.{codes, between}
use horus_controller.Switch.Workers.{digit}
use horus_controller.Asic.{PortSpec}
use Prim.Native.String.{◌++◌ as text_append}
use horus_controller.Prelude.{
  ℕ, zero, suc, ◌+◌, ◌-◌, ◌*◌, ◌/◌, ◌%◌, String, Bool, ◌||◌, Option, none, some, List, [], ◌∷◌,
  ◌++◌, leb, ltb, nat_beq, if◌then◌else◌,
}

-- `%d` of a uint64, which has at most 20 digits.
abbrev pub decimal_on : ℕ → ℕ → String → String
decimal_on zero n text = text
decimal_on (suc fuel) n text =
    let longer = text_append (digit (n % 10)) text in
    let rest = decimal_on fuel (n / 10) longer in if ltb n 10 then longer else rest

abbrev pub decimal : ℕ → String
decimal n = decimal_on 20 n ""

unfoldable pub new_port_spec : ℕ → ℕ → PortSpec
new_port_spec cage lane = record {
  id = text_append (decimal cage) (text_append "/" (decimal lane));
  cage = cage;
  lane = lane;
}

-- `unicode.IsSpace`
abbrev pub is_space : ℕ → Bool
is_space x =
    between 9 13 x
    || nat_beq x 32
    || nat_beq x 133
    || nat_beq x 160
    || nat_beq x 5760
    || between 8192 8202 x
    || nat_beq x 8232
    || nat_beq x 8233
    || nat_beq x 8239
    || nat_beq x 8287
    || nat_beq x 12288

abbrev pub trim_left : List ℕ → List ℕ
trim_left [] = []
trim_left (x ∷ xs) = let rest = trim_left xs in if is_space x then rest else x ∷ xs

-- Without the spaces at the end.
abbrev pub trim_right : List ℕ → List ℕ
trim_right [] = []
trim_right (x ∷ xs) = elim (trim_right xs) [
  | [] ↦ if is_space x then [] else x ∷ []
  | y ∷ ys ↦ x ∷ y ∷ ys
]

-- `strings.Split(s, "/")`: the first part, and the others.
abbrev pub split_slash : List ℕ → List ℕ × List (List ℕ)
split_slash [] = ([], [])
split_slash (x ∷ xs) =
    let (first, rest) = split_slash xs in
    if nat_beq x 47 then ([], first ∷ rest) else (x ∷ first, rest)

-- A Go int.
pub data ℤ : Type 0 where
  pos : ℕ → ℤ
  negsuc : ℕ → ℤ

abbrev pub digits_value : ℕ → List ℕ → Option ℕ
digits_value acc [] = some acc
digits_value acc (x ∷ xs) =
    let rest = digits_value (acc * 10 + (x - 48)) xs in if between 48 57 x then rest else none

-- A number with at least one digit.
abbrev pub magnitude : List ℕ → Option ℕ
magnitude [] = none
magnitude (x ∷ xs) = digits_value 0 (x ∷ xs)

abbrev pub negated : ℕ → ℤ
negated zero = ℤ.pos 0
negated (suc n) = ℤ.negsuc n

-- `strconv.Atoi`, within the range of an int64.
abbrev pub positive : Option ℕ → Option ℤ
positive none = none
positive (some n) = if ltb n 9223372036854775808 then some (ℤ.pos n) else none

abbrev pub negative : Option ℕ → Option ℤ
negative none = none
negative (some n) = if leb n 9223372036854775808 then some (negated n) else none

unfoldable pub atoi : List ℕ → Option ℤ
atoi [] = none
atoi (x ∷ xs) =
    if nat_beq x 45
    then negative (magnitude xs)
    else (if nat_beq x 43 then positive (magnitude xs) else positive (magnitude (x ∷ xs)))

-- The conversion `uint64(n)`.
abbrev pub to_u64 : ℤ → ℕ
to_u64 (ℤ.pos n) = n
to_u64 (ℤ.negsuc n) = 18446744073709551615 - n

-- `lane < 0 || lane > 3` is an error.
abbrev pub one_lane : ℕ → Option ℤ → Option (List PortSpec)
unfolding new_port_spec
one_lane cage none = none
one_lane cage (some (ℤ.pos lane)) = if leb lane 3 then some (new_port_spec cage lane ∷ []) else none
one_lane cage (some (ℤ.negsuc n)) = none

-- The part behind the slash: `-` stands for all four lanes.
abbrev pub expand_lanes : ℕ → List ℕ → Option (List PortSpec)
unfolding new_port_spec atoi
expand_lanes cage (x ∷ []) =
    if nat_beq x 45
    then some (
        new_port_spec cage 0
        ∷ new_port_spec cage 1
        ∷ new_port_spec cage 2
        ∷ new_port_spec cage 3
        ∷ [])
    else one_lane cage (atoi (x ∷ []))
expand_lanes cage lanes = one_lane cage (atoi lanes)

-- none is an error.
unfoldable pub expand_port_spec : String → Option (List PortSpec)
unfolding atoi new_port_spec
expand_port_spec spec =
    let (cage, lanes) = split_slash (trim_left (trim_right (codes spec))) in
    elim lanes [
      | [] ↦ none
      | lane ∷ more ↦ elim more [
        | _ ∷ _ ↦ none
        | [] ↦ elim (atoi cage) [ none ↦ none | some n ↦ expand_lanes (to_u64 n) lane ]
      ]
    ]

-- The loop over the specs of a group: an error adds no spec.
unfoldable pub expand_specs : List String → List PortSpec
unfolding expand_port_spec
expand_specs [] = []
expand_specs (spec ∷ rest) = elim (expand_port_spec spec) [
  | none ↦ expand_specs rest
  | some specs ↦ specs ++ expand_specs rest
]
