-- ===== src/Potato/Options/Printed.antt =====
-- `poTato_doOptions` of potato_old/potato.c reads what a caller writes.
use Prim.{Unit}
use tidbits.Prelude.{
  ℕ, ◌≡◌, refl, ap, ◌∙◌, Bool, true, false, Option, none, some, List, [], ◌∷◌, ◌++◌,
}
use tidbits.Potato.Options.{
  OptionFlags, fork_option, copy_option, replace_option, get_opt_string, Choice, fork, hand_off,
  choose, Options, Actions, on_world, goes_on, take_option, option_loop, strtol,
}

abbrev pub all_flags : OptionFlags
all_flags = record { fork = true; copy = true; replace = true }

-- An option with its value.
pub data Setting : Type 0 where
  forks : List ℕ → Setting
  copies : List ℕ → Setting
  replaces : List ℕ → Setting

abbrev pub name : Setting → List ℕ
name (forks v) = fork_option
name (copies v) = copy_option
name (replaces v) = replace_option

abbrev pub value : Setting → List ℕ
value (forks v) = v
value (copies v) = v
value (replaces v) = v

-- An option with its value in two strings, or in one with `=` between them.
pub data Written : Type 0 where
  in_two : Setting → Written
  with_equals : Setting → Written

abbrev pub what : Written → Setting
what (in_two x) = x
what (with_equals x) = x

abbrev pub print : List Written → List (List ℕ)
print [] = []
print (in_two x ∷ ws) = name x ∷ value x ∷ print ws
print (with_equals x ∷ ws) = (name x ++ 61 ∷ value x) ∷ print ws

-- A value behind `=` is not empty.
abbrev pub IsGiven : List ℕ → Type 0
IsGiven [] = ⊥
IsGiven (c ∷ v) = Unit

abbrev pub AllGiven : List Written → Type 0
AllGiven [] = Unit
AllGiven (in_two x ∷ ws) = AllGiven ws
AllGiven (with_equals x ∷ ws) = IsGiven (value x) × AllGiven ws

module _ {W : Type 0} (act : Actions W) where
  -- What an option does.
  abbrev pub perform : Setting → Options W → Bool × Options W
  perform (forks v) o = (false, record o { num_forks = strtol v })
  perform (copies v) o = on_world o (act.signal_hand_off v false o.world)
  perform (replaces v) o = on_world o (act.signal_hand_off v true o.world)

  -- The options in their order, up to the first one that fails.
  abbrev pub perform_all : List Written → Options W → Bool × Options W
  perform_all [] o = (false, o)
  perform_all (w ∷ ws) o =
      let (failed, o') = perform (what w) o in
      elim failed [ true ↦ (true, o') | false ↦ perform_all ws o' ]

abbrev choice_of : Bool → Setting → Choice
choice_of on (forks v) = fork v on
choice_of on (copies v) = hand_off false v on
choice_of on (replaces v) = hand_off true v on

choose_two : (x : Setting) → choose all_flags (name x) (some (value x)) ≡ choice_of true x
unfolding choose get_opt_string
choose_two (forks v) = refl
choose_two (copies v) = refl
choose_two (replaces v) = refl

choose_one :
    (x : Setting) (next : Option (List ℕ))
    → IsGiven (value x)
    → choose all_flags (name x ++ 61 ∷ value x) next ≡ choice_of false x
unfolding choose get_opt_string
choose_one (forks []) next g = absurd g
choose_one (forks (c ∷ v)) none g = refl
choose_one (forks (c ∷ v)) (some next) g = refl
choose_one (copies []) next g = absurd g
choose_one (copies (c ∷ v)) none g = refl
choose_one (copies (c ∷ v)) (some next) g = refl
choose_one (replaces []) next g = absurd g
choose_one (replaces (c ∷ v)) none g = refl
choose_one (replaces (c ∷ v)) (some next) g = refl

abbrev ending : {A : Type 0} → Bool × A → (A → Bool × A) → Bool × A
ending r f = elim r.0 [ true ↦ (true, r.1) | false ↦ f r.1 ]

abbrev pass : {A : Type 0} → Bool × A → Bool → (A → Bool × A) → (A → Bool × A) → Bool × A
pass r on f g = elim r.0 [ true ↦ (true, r.1) | false ↦ elim on [ true ↦ f r.1 | false ↦ g r.1 ] ]

ending_eta : {A : Type 0} (r : Bool × A) → r ≡ ending r (λ a. (false, a))
ending_eta (true, a) = refl
ending_eta (false, a) = refl

ending_ext :
    {A : Type 0} (r : Bool × A) (f g : A → Bool × A)
    → ((a : A) → f a ≡ g a)
    → ending r f ≡ ending r g
ending_ext (true, a) f g h = refl
ending_ext (false, a) f g h = h a

pass-eq-ending :
    {A B : Type 0} (on : Bool) (r : Bool × A) (f : B → A → Bool × A) (a b : B)
    → pass r on (f a) (f b) ≡ ending r (f (elim on [ true ↦ a | false ↦ b ]))
pass-eq-ending true r f a b = refl
pass-eq-ending false r f a b = refl

goes_on-choice_of : (on : Bool) (x : Setting) → goes_on (choice_of on x) ≡ on
goes_on-choice_of on (forks v) = refl
goes_on-choice_of on (copies v) = refl
goes_on-choice_of on (replaces v) = refl

module _ {W : Type 0} (act : Actions W) where
  take_choice :
      (on : Bool) (x : Setting) (s : List ℕ) (next : Option (List ℕ)) (o : Options W)
      → take_option act (choice_of on x) s next o ≡ perform act x o
  unfolding take_option
  take_choice on (forks v) s next o = refl
  take_choice on (copies v) s next o = refl
  take_choice on (replaces v) s next o = refl

  passed :
      (on : Bool) (x : Setting) (s v : List ℕ) (behind_value behind_option : List (List ℕ))
      (o : Options W)
      → pass
          (take_option act (choice_of on x) s (some v) o)
          (goes_on (choice_of on x))
          (option_loop act all_flags behind_value)
          (option_loop act all_flags behind_option)
        ≡ ending
            (perform act x o)
            (option_loop act all_flags (elim on [ true ↦ behind_value | false ↦ behind_option ]))
  passed on x s v a b o =
      let f = option_loop act all_flags in
      ap (λ (r : Bool × Options W). pass r (goes_on (choice_of on x)) (f a) (f b))
        (take_choice on x s (some v) o)
      ∙ ap (λ (b' : Bool). pass (perform act x o) b' (f a) (f b)) (goes_on-choice_of on x)
      ∙ pass-eq-ending on (perform act x o) f a b

  one_string :
      (x : Setting) (s : List ℕ) (argv : List (List ℕ)) (o : Options W)
      → ((next : Option (List ℕ)) → choose all_flags s next ≡ choice_of false x)
      → option_loop act all_flags (s ∷ argv) o
        ≡ ending (perform act x o) (option_loop act all_flags argv)
  unfolding option_loop
  one_string x s [] o c =
      ap (λ (k : Choice). take_option act k s none o) (c none)
      ∙ take_choice false x s none o
      ∙ ending_eta (perform act x o)
  one_string x s (v ∷ rest) o c =
      ap
        (λ (k : Choice).
          pass (take_option act k s (some v) o) (goes_on k) (option_loop act all_flags rest)
            (option_loop act all_flags (v ∷ rest)))
        (c (some v))
      ∙ passed false x s v rest (v ∷ rest) o

  two_strings :
      (x : Setting) (argv : List (List ℕ)) (o : Options W)
      → option_loop act all_flags (name x ∷ value x ∷ argv) o
        ≡ ending (perform act x o) (option_loop act all_flags argv)
  unfolding option_loop
  two_strings x argv o =
      ap
        (λ (k : Choice).
          pass (take_option act k (name x) (some (value x)) o) (goes_on k)
            (option_loop act all_flags argv) (option_loop act all_flags (value x ∷ argv)))
        (choose_two x)
      ∙ passed true x (name x) (value x) argv (value x ∷ argv) o

  -- What is printed is read: `poTato_doOptions` with all flags performs the options in their order, up
  -- to the first one that fails; each of them in either form, where a value behind `=` is not empty.
  pub option_loop-print :
      (ws : List Written) (o : Options W)
      → AllGiven ws
      → option_loop act all_flags (print ws) o ≡ perform_all act ws o
  unfolding option_loop
  option_loop-print [] o g = refl
  option_loop-print (in_two x ∷ ws) o g =
      two_strings x (print ws) o ∙ ending_ext (perform act x o) _ _ (λ v. option_loop-print ws v g)
  option_loop-print (with_equals x ∷ ws) o g =
      one_string x (name x ++ 61 ∷ value x) (print ws) o (λ next. choose_one x next g.0)
      ∙ ending_ext (perform act x o) _ _ (λ v. option_loop-print ws v g.1)
