-- ===== src/Potato/Options.antt =====
-- `_poTato_getOptString` and `poTato_doOptions` of potato_old/potato.c. A string is the list of its
-- characters' codes, and `argv` the list of its strings.
pub mod Printed
use tidbits.Prelude.{
  ℕ, zero, suc, ◌+◌, ◌-◌, ◌*◌, ◌%◌, ◌^◌, ◌≡◌, refl, ◌==◌, leb, ltb, if◌then◌else◌, Bool, true,
  false, ◌&&◌, ◌||◌, Option, none, some, List, [], ◌∷◌, ◌++◌, drop,
}

-- Whether `strcmp` says 0.
abbrev pub equal : List ℕ → List ℕ → Bool
equal [] [] = true
equal [] (c ∷ t) = false
equal (c ∷ s) [] = false
equal (c ∷ s) (d ∷ t) = (c == d) && equal s t

-- What stands behind the option and the character `=` of code 61, if there is something.
abbrev pub behind : List ℕ → List ℕ → Option (List ℕ)
behind [] s = elim s [
  | [] ↦ none
  | c ∷ [] ↦ none
  | c ∷ v ∷ vs ↦ if c == 61 then some (v ∷ vs) else none
]
behind (d ∷ t) [] = none
behind (d ∷ t) (c ∷ s) = if c == d then behind t s else none

abbrev pub is_digit : ℕ → Bool
is_digit c = leb 48 c && leb c 57

abbrev pub is_space : ℕ → Bool
is_space c = (c == 32) || leb 9 c && leb c 13

-- The number that the digits at the front of a string make, behind those that were read.
abbrev pub digits : ℕ → List ℕ → ℕ
digits n [] = n
digits n (c ∷ s) = let rest = digits (10 * n + (c - 48)) s in if is_digit c then rest else n

-- A `long`, which stops at its bounds, as an `int`: both in two's complement.
abbrev pub as_int : Bool → ℕ → ℕ
as_int false n = (if ltb n (2 ^ 63) then n else 2 ^ 63 - 1) % 2 ^ 32
as_int true n = (2 ^ 64 - (if leb n (2 ^ 63) then n else 2 ^ 63)) % 2 ^ 32

abbrev pub signed : List ℕ → ℕ
signed [] = 0
signed (c ∷ s) =
    if c == 45
    then as_int true (digits 0 s)
    else if c == 43
    then as_int false (digits 0 s)
    else as_int false (digits 0 (c ∷ s))

-- `strtol(s, NULL, 10)` in an `int`.
unfoldable pub strtol : List ℕ → ℕ
strtol [] = 0
strtol (c ∷ s) = let rest = strtol s in if is_space c then rest else signed (c ∷ s)

-- The flags PO_OPTION_FORK, PO_OPTION_COPY_LISTENERS and PO_OPTION_REPLACE_LISTENERS.
pub record OptionFlags : Type 0 where
  pub fork : Bool
  pub copy : Bool
  pub replace : Bool

-- "--fork", "--copy" and "--replace".
abbrev pub fork_option : List ℕ
fork_option = 45 ∷ 45 ∷ 102 ∷ 111 ∷ 114 ∷ 107 ∷ []

abbrev pub copy_option : List ℕ
copy_option = 45 ∷ 45 ∷ 99 ∷ 111 ∷ 112 ∷ 121 ∷ []

abbrev pub replace_option : List ℕ
replace_option = 45 ∷ 45 ∷ 114 ∷ 101 ∷ 112 ∷ 108 ∷ 97 ∷ 99 ∷ 101 ∷ []

-- `_poTato_getOptString` for the string `s`, with the one behind it: the value, and whether `argv` goes
-- one on.
abbrev pub in_one : List ℕ → List ℕ → Option (List ℕ × Bool)
in_one opt s = elim (behind opt s) [ none ↦ none | some v ↦ some (v, false) ]

unfoldable pub get_opt_string : List ℕ → List ℕ → Option (List ℕ) → Option (List ℕ × Bool)
get_opt_string opt s none = in_one opt s
get_opt_string opt s (some next) = if equal s opt then some (next, true) else in_one opt s

-- What a pass of `poTato_doOptions` does with `*argv`: an option with its value, or something else.
pub data Choice : Type 0 where
  fork : List ℕ → Bool → Choice
  hand_off : Bool → List ℕ → Bool → Choice
  other : Choice

abbrev pub asked_for : Bool → List ℕ → List ℕ → Option (List ℕ) → Option (List ℕ × Bool)
asked_for true opt s next = get_opt_string opt s next
asked_for false opt s next = none

-- The conditions of the pass, in their order.
unfoldable pub choose : OptionFlags → List ℕ → Option (List ℕ) → Choice
choose flags s next = elim (asked_for flags.fork fork_option s next) [
  | some (v, on) ↦ fork v on
  | none ↦ elim (asked_for flags.copy copy_option s next) [
    | some (v, on) ↦ hand_off false v on
    | none ↦ elim (asked_for flags.replace replace_option s next) [
      | some (v, on) ↦ hand_off true v on
      | none ↦ other
    ]
  ]
]

-- `po.numForks`, an `int` in two's complement, and the rest of the program's state.
pub record Options (W : Type 0) : Type 0 where
  pub num_forks : ℕ
  pub world : W

-- `poTato_signalHandOff(s, shutdownOldServer)` and `doOtherOpts`, if there is one: `true` is an error.
pub record Actions (W : Type 0) : Type 0 where
  pub signal_hand_off : List ℕ → Bool → W → Bool × W
  pub do_other_opts : Option (List ℕ → Option (List ℕ) → W → Bool × W)

abbrev pub on_world : {W : Type 0} → Options W → Bool × W → Bool × Options W
on_world o r = (r.0, record o { world = r.1 })

-- Whether `argv` goes on to the value.
abbrev pub goes_on : Choice → Bool
goes_on (fork v on) = on
goes_on (hand_off shut v on) = on
goes_on other = false

-- A negative number of forks is 0.
abbrev pub at_least_none : {W : Type 0} → Options W → Options W
at_least_none o = if leb (2 ^ 31) o.num_forks then record o { num_forks = 0 } else o

module _ {W : Type 0} (act : Actions W) where
  -- The body of the pass: whether it returns an error, and the state.
  unfoldable pub take_option : Choice → List ℕ → Option (List ℕ) → Options W → Bool × Options W
  take_option (fork v on) s next o = (false, record o { num_forks = strtol v })
  take_option (hand_off shut v on) s next o = on_world o (act.signal_hand_off v shut o.world)
  take_option other s next o = elim act.do_other_opts [
    | none ↦ (true, o)
    | some f ↦ on_world o (f s next o.world)
  ]

  -- The loop of `poTato_doOptions`.
  unfoldable pub option_loop : OptionFlags → List (List ℕ) → Options W → Bool × Options W
  option_loop flags [] o = (false, o)
  option_loop flags (s ∷ []) o = take_option (choose flags s none) s none o
  option_loop flags (s ∷ v ∷ rest) o =
      let choice = choose flags s (some v) in
      let (failed, o') = take_option choice s (some v) o in
      elim failed [
        | true ↦ (true, o')
        | false ↦ elim (goes_on choice) [
          | true ↦ option_loop flags rest o'
          | false ↦ option_loop flags (v ∷ rest) o'
        ]
      ]

  -- `poTato_doOptions`.
  unfoldable pub do_options : OptionFlags → List (List ℕ) → Options W → Bool × Options W
  do_options flags argv o =
      let (failed, o') = option_loop flags argv o in
      if failed then (true, o') else (false, at_least_none o')
